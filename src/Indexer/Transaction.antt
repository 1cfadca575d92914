-- ===== src/Indexer/Transaction.antt =====
-- `process_transaction` of crates/zalkanes-indexer/src/lib.rs and the handlers it calls. What they
-- share by `&mut` is the record `Progress`.
pub mod Writes
pub mod Counted
pub mod Within
pub mod Failed
pub mod Sound
use Prim.Native.String.{String}
use zalkanes.Base.{
  ℕ, ◌+◌, ◌-◌, min, Bool, true, false, not, ◌||◌, Option, none, some, List, [], ◌∷◌, ◌++◌, ltb,
  ◌==◌, if◌then◌else◌, Result, ok, err, and_then,
}
use zalkanes.Base.Bytes.{Bytes}
use zalkanes.Core.{
  ContractId, Execution, derive, max_fuel_per_call, max_fuel_per_zcash_tx, max_fuel_per_zcash_block,
  max_zalk_messages_per_tx, max_zalk_messages_per_block, max_carrier_bytes_per_block,
  max_deploy_bytes_per_block,
}
use zalkanes.Protocol.{
  Message, deploy, call, call_carrier, DeployMessage, CallMessage, CallCarrierMessage,
  parse_op_return,
}
use zalkanes.Carrier.{Chunk, reconstruct}
use zalkanes.Carrier.Script.{extract_op_return_data, chunk_from_script_sig}
use zalkanes.Runtime.{
  CallContext, CallResult, success, trap, fuel_exhausted, invalid_module, contract_not_found,
  StorageWrite, set, delete,
}
use zalkanes.Runtime.Memory.{saturating_add}
use zalkanes.Runtime.Validate.{validate_module}
use zalkanes.Runtime.Execute.{execute}
use zalkanes.State.{BlockCommit}
use zalkanes.State.Memory.{MemoryState, has_contract, compute_root, projected_root}
use zalkanes.Indexer.{IndexerConfig, BlockLimits, ParsedTransaction, Failure, panic, Environment}

pub record Progress : Type 0 where
  pub commit : BlockCommit
  pub executions : List Execution
  pub deployed : List ContractId
  pub limits : BlockLimits
  pub tx_fuel_used : ℕ
  pub tx_messages : ℕ

unfoldable pub apply_write : BlockCommit → StorageWrite → BlockCommit
apply_write commit (set cid key value) = record commit {
  upserts = commit.upserts ++ ((cid, key, value) ∷ []);
}
apply_write commit (delete cid key) = record commit {
  deletes = commit.deletes ++ ((cid, key) ∷ []);
}

unfoldable pub apply_writes : BlockCommit → List StorageWrite → BlockCommit
apply_writes commit [] = commit
apply_writes commit (w ∷ ws) = apply_writes (apply_write commit w) ws

-- The tuple that `execute_call` takes from the result of a call.
pub record Summary : Type 0 where
  pub succeeded : Bool
  pub fuel_used : ℕ
  pub output : Bytes
  pub error : Option String
  pub writes : List StorageWrite

abbrev failure : ℕ → String → Summary
failure fuel_used reason = record {
  succeeded = false;
  fuel_used = fuel_used;
  output = [];
  error = some reason;
  writes = [];
}

unfoldable pub summary : CallResult → Summary
summary (success output fuel_used writes) = record {
  succeeded = true;
  fuel_used = fuel_used;
  output = output;
  error = none;
  writes = writes;
}
summary (trap reason fuel_used) = failure fuel_used reason
summary (fuel_exhausted fuel_used) = failure fuel_used "fuel exhausted"
summary (invalid_module reason) = failure 0 reason
summary contract_not_found = failure 0 "contract not found"

-- The carrier chunks of the inputs, in order.
unfoldable pub collect_chunks : List (ℕ × Bytes) → List Chunk
collect_chunks [] = []
collect_chunks ((idx, script_sig) ∷ inputs) =
    let chunks = collect_chunks inputs in
    elim (chunk_from_script_sig script_sig) [
      | some (index, payload) ↦ record { index = index; payload = payload } ∷ chunks
      | none ↦ chunks
    ]

-- `none` is an output without a message, or with one that does not parse.
unfoldable pub message_of : Bytes → Option Message
message_of script_pubkey = elim (extract_op_return_data script_pubkey) [
  | none ↦ none
  | some payload ↦ elim (parse_op_return payload) [ ok m ↦ m | err _ ↦ none ]
]

unfoldable pub fuel_limit : Progress → ℕ
fuel_limit p =
    min (min max_fuel_per_call (max_fuel_per_zcash_tx - p.tx_fuel_used))
      (max_fuel_per_zcash_block - p.limits.fuel_used)

-- The accounting of declared deploy and carrier bytes.
unfoldable pub count_deploy : Progress → ℕ → Progress
count_deploy p code_length = record p {
  limits = record p.limits {
    carrier_bytes = saturating_add p.limits.carrier_bytes code_length;
    deploy_bytes = saturating_add p.limits.deploy_bytes code_length;
  };
}

unfoldable pub count_carrier : Progress → ℕ → Progress
count_carrier p input_length = record p {
  limits = record p.limits { carrier_bytes = saturating_add p.limits.carrier_bytes input_length };
}

unfoldable pub count_message : Progress → Progress
count_message p = record p {
  tx_messages = p.tx_messages + 1;
  limits = record p.limits { messages = p.limits.messages + 1 };
}

unfoldable pub is_over_cap : Progress → Bool
is_over_cap p =
    ltb max_zalk_messages_per_tx p.tx_messages || ltb max_zalk_messages_per_block p.limits.messages

unfoldable pub call_context : Progress → ParsedTransaction → ContractId → ℕ → Bytes → CallContext
call_context p tx contract_id opcode input = record {
  contract_id = contract_id;
  caller = none;
  txid = tx.txid;
  block_height = p.commit.height;
  opcode = opcode;
  input = input;
  fuel_limit = fuel_limit p;
  depth = 0;
}

module _ (env : Environment) (store : MemoryState) where
  -- The part of `execute_call` behind `execute`.
  unfoldable pub record_call : Progress → ParsedTransaction → ContractId → ℕ → Summary → Progress
  record_call p tx contract_id opcode r =
      let commit = apply_writes p.commit r.writes in
      record p {
        tx_fuel_used = saturating_add p.tx_fuel_used r.fuel_used;
        limits = record p.limits { fuel_used = saturating_add p.limits.fuel_used r.fuel_used };
        commit = commit;
        executions =
            p.executions
            ++ (record {
              txid = tx.txid;
              contract_id = contract_id;
              opcode = opcode;
              success = r.succeeded;
              fuel_used = r.fuel_used;
              return_data = r.output;
              error = r.error;
              state_root_before = compute_root env.blake2b store;
              state_root_after = projected_root env.blake2b store commit;
              block_height = p.commit.height;
              block_hash = p.commit.zcash_block_hash;
            }
                ∷ []);
      }

  unfoldable pub execute_call :
      Progress → ParsedTransaction → ContractId → ℕ → Bytes → Result Progress Failure
  execute_call p tx contract_id opcode input =
      if fuel_limit p == 0
      then ok p
      else elim (execute env.engine (call_context p tx contract_id opcode input) store) [
        | none ↦ err panic
        | some r ↦ ok (record_call p tx contract_id opcode (summary r))
      ]

  unfoldable pub handle_call : Progress → ParsedTransaction → CallMessage → Result Progress Failure
  handle_call p tx m = execute_call p tx m.contract_id m.opcode m.input

  unfoldable pub handle_call_carrier :
      Progress → ParsedTransaction → CallCarrierMessage → Result Progress Failure
  handle_call_carrier p tx m =
      elim (reconstruct env.sha256 (collect_chunks tx.inputs) m.carrier_count m.input_length
        m.input_hash) [
          | ok calldata ↦ execute_call p tx m.contract_id m.opcode calldata
          | err _ ↦ ok p
        ]

  unfoldable pub handle_deploy :
      IndexerConfig → Progress → ParsedTransaction → DeployMessage → Progress
  handle_deploy config p tx m =
      elim (reconstruct env.sha256 (collect_chunks tx.inputs) m.chunk_count m.code_length
        m.code_hash) [
          | err _ ↦ p
          | ok wasm ↦
              let contract_id =
                derive env.blake2b config.network tx.txid m.output_index m.code_hash in
              if has_contract store contract_id
              then p
              else elim (validate_module env.engine.parse_module env.parse_all wasm) [
                | err _ ↦ p
                | ok _ ↦ record p {
                  commit = record p.commit {
                    deploys = p.commit.deploys ++ ((contract_id, m.code_hash, wasm) ∷ []);
                  };
                  deployed = p.deployed ++ (contract_id ∷ []);
                }
              ]
        ]

  -- The match on the message, behind the message caps.
  unfoldable pub handle_message :
      IndexerConfig → Progress → ParsedTransaction → ℕ → Message → Result Progress Failure
  handle_message config p tx out_idx (deploy m) =
      let p' = count_deploy p m.code_length in
      if not (m.output_index == out_idx)
      then ok p
      else if ltb max_carrier_bytes_per_block p'.limits.carrier_bytes
          || ltb max_deploy_bytes_per_block p'.limits.deploy_bytes
      then ok p'
      else ok (handle_deploy config p' tx m)
  handle_message config p tx out_idx (call m) = handle_call p tx m
  handle_message config p tx out_idx (call_carrier m) =
      let p' = count_carrier p m.input_length in
      if ltb max_carrier_bytes_per_block p'.limits.carrier_bytes
      then ok p'
      else handle_call_carrier p' tx m

  -- The loop over the outputs; a message over the cap ends it.
  unfoldable pub process_outputs :
      IndexerConfig → Progress → ParsedTransaction → List (ℕ × Bytes) → Result Progress Failure
  process_outputs config p tx [] = ok p
  process_outputs config p tx ((out_idx, script_pubkey) ∷ outputs) =
      elim (message_of script_pubkey) [
        | none ↦ process_outputs config p tx outputs
        | some m ↦
            let p' = count_message p in
            if is_over_cap p'
            then ok p'
            else and_then (handle_message config p' tx out_idx m)
                (λ q. process_outputs config q tx outputs)
      ]

  unfoldable pub process_transaction :
      IndexerConfig → Progress → ParsedTransaction → Result Progress Failure
  process_transaction config p tx =
      process_outputs config (record p { tx_fuel_used = 0; tx_messages = 0 }) tx tx.outputs
