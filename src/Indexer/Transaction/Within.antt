-- ===== src/Indexer/Transaction/Within.antt =====
-- The limits of crates/zalkanes-indexer/src/lib.rs, kept by every handler: fuel, messages, writes and
-- what may be deployed.
use zalkanes.Base.{
  ℕ, ◌≡◌, some, List, [], ◌∷◌, not, ◌||◌, ltb, ◌==◌, Result, ok, err, and_then, length-append,
  arith, on_if, on_option, on_result,
}
use zalkanes.Base.Bytes.{Bytes}
use zalkanes.Core.{ContractId, derive}
use zalkanes.Protocol.{Message, deploy, call, call_carrier, DeployMessage}
use zalkanes.Carrier.{reconstruct}
use zalkanes.Runtime.{CallContext, CallResult}
use zalkanes.Runtime.Memory.{saturating_add}
use zalkanes.Runtime.Validate.{validate_module}
use zalkanes.Runtime.Execute.{execute}
use zalkanes.Runtime.Execute.Bounds.{IsLimited, execute-IsLimited}
use zalkanes.State.Memory.{MemoryState, has_contract}
use zalkanes.Indexer.{IndexerConfig, ParsedTransaction, Failure, Environment}
use zalkanes.Indexer.Transaction.{
  Progress, Summary, summary, collect_chunks, message_of, fuel_limit, record_call, call_context,
  execute_call, handle_call, handle_call_carrier, handle_deploy, count_deploy, count_carrier,
  handle_message, count_message, is_over_cap, process_outputs, process_transaction,
}
use zalkanes.Indexer.Transaction.Writes.{apply_writes-Applied, SummaryFits, summary-Fits}
use zalkanes.Indexer.Transaction.Counted.{
  IsWithin, HasRoom, total_fuel-append, count_deploy-HasRoom, count_carrier-HasRoom,
  count_message-IsWithin, count_message-HasRoom,
}

module _ (env : Environment) (store : MemoryState) where
  record_call-IsWithin :
      (p : Progress)
      → (tx : ParsedTransaction) → (cid : ContractId) → (opcode : ℕ) → (s : Summary)
      → SummaryFits cid (fuel_limit p) s
      → HasRoom p
      → IsWithin (record_call env store p tx cid opcode s)
  unfolding record_call fuel_limit saturating_add
  record_call-IsWithin p tx cid opcode s fit h =
      let w = h.within in
      let a = apply_writes-Applied cid p.commit s.writes fit.fits in
      record {
        fuel_counted = omega (
          arith,
          total_fuel-append p.executions (_ ∷ []),
          w.fuel_counted,
          w.block_fuel,
          fit.fuel,
        );
        block_fuel = omega (arith, w.block_fuel, fit.fuel);
        tx_fuel = omega (arith, w.tx_fuel, fit.fuel);
        effects_counted = omega (arith, length-append p.executions (_ ∷ []), h.room);
        effects = omega (arith, length-append p.executions (_ ∷ []), h.room, h.under);
        writes = omega (arith, length-append p.executions (_ ∷ []), w.writes, a.count, fit.count);
        upserts_fit = a.upserts w.upserts_fit;
        deletes_fit = a.deletes w.deletes_fit;
      }

abbrev pub Within : Result Progress Failure → Type 0
Within (err _) = Unit
Within (ok p) = IsWithin p

Within-then :
    (m : Result Progress Failure) (f : Progress → Result Progress Failure)
    → Within m
    → ((p : Progress) → IsWithin p → Within (f p))
    → Within (and_then m f)
Within-then (err _) f w k = tt
Within-then (ok p) f w k = k p w

module _ (env : Environment) (store : MemoryState) where
  execute_call-Within :
      (p : Progress)
      → (tx : ParsedTransaction) → (cid : ContractId) → (opcode : ℕ) → (input : Bytes) → HasRoom p
      → Within (execute_call env store p tx cid opcode input)
  unfolding execute_call call_context
  execute_call-Within p tx cid opcode input h =
      on_if Within (fuel_limit p == 0) (λ _. h.within)
        λ _.
          on_option Within (execute env.engine (call_context p tx cid opcode input) store) (λ _. tt)
            (λ r e.
              record_call-IsWithin env store p tx cid opcode (summary r)
                (summary-Fits cid (fuel_limit p) r
                  (limited (call_context p tx cid opcode input) r e))
                h)
    where
      limited :
          (c : CallContext) (r : CallResult)
          → execute env.engine c store ≡ some r
          → IsLimited c.contract_id c.fuel_limit r
      limited c r e = execute-IsLimited env.engine c store r e

  handle_deploy-IsWithin :
      (config : IndexerConfig)
      → (p : Progress) → (tx : ParsedTransaction) → (m : DeployMessage) → HasRoom p
      → IsWithin (handle_deploy env store config p tx m)
  unfolding handle_deploy
  handle_deploy-IsWithin config p tx m h =
      on_result IsWithin
        (reconstruct env.sha256 (collect_chunks tx.inputs) m.chunk_count m.code_length m.code_hash)
        (λ wasm _.
          on_if IsWithin (has_contract store (id wasm)) (λ _. w)
            λ _.
              on_result IsWithin (validate_module env.engine.parse_module env.parse_all wasm)
                (λ _ _. record {
                  fuel_counted = w.fuel_counted;
                  block_fuel = w.block_fuel;
                  tx_fuel = w.tx_fuel;
                  effects_counted = omega (arith, length-append p.deployed (id wasm ∷ []), h.room);
                  effects = omega (arith, length-append p.deployed (id wasm ∷ []), h.room, h.under);
                  writes = w.writes;
                  upserts_fit = w.upserts_fit;
                  deletes_fit = w.deletes_fit;
                })
                (λ _ _. w))
        (λ _ _. w)
    where
      w : IsWithin p
      w = h.within

      id : Bytes → ContractId
      id wasm = derive env.blake2b config.network tx.txid m.output_index m.code_hash

  handle_message-Within :
      (config : IndexerConfig)
      → (p : Progress) → (tx : ParsedTransaction) → (out_idx : ℕ) → (m : Message) → HasRoom p
      → Within (handle_message env store config p tx out_idx m)
  unfolding handle_message handle_call handle_call_carrier
  handle_message-Within config p tx out_idx (deploy m) h =
      on_if Within (not (m.output_index == out_idx)) (λ _. h.within)
        λ _.
          on_if Within
            (ltb 4194304 (count_deploy p m.code_length).limits.carrier_bytes
              || ltb 4194304 (count_deploy p m.code_length).limits.deploy_bytes)
            (λ _. (count_deploy-HasRoom p m.code_length h).within)
            (λ _.
              handle_deploy-IsWithin config (count_deploy p m.code_length) tx m
                (count_deploy-HasRoom p m.code_length h))
  handle_message-Within config p tx out_idx (call m) h =
      execute_call-Within p tx m.contract_id m.opcode m.input h
  handle_message-Within config p tx out_idx (call_carrier m) h =
      let p' = count_carrier p m.input_length in
      let h' = count_carrier-HasRoom p m.input_length h in
      on_if Within (ltb 4194304 p'.limits.carrier_bytes) (λ _. h'.within)
        λ _.
          on_result Within
            (reconstruct env.sha256 (collect_chunks tx.inputs) m.carrier_count m.input_length
              m.input_hash)
            (λ calldata _. execute_call-Within p' tx m.contract_id m.opcode calldata h')
            (λ _ _. h'.within)

  process_outputs-Within :
      (config : IndexerConfig)
      → (p : Progress) → (tx : ParsedTransaction) → (outputs : List (ℕ × Bytes)) → IsWithin p
      → Within (process_outputs env store config p tx outputs)
  unfolding process_outputs
  process_outputs-Within config p tx [] w = w
  process_outputs-Within config p tx ((out_idx, script) ∷ outputs) w =
      on_option Within (message_of script) (λ _. process_outputs-Within config p tx outputs w)
        (λ m _.
          on_if Within (is_over_cap (count_message p)) (λ _. count_message-IsWithin p w)
            (λ under.
              Within-then (handle_message env store config (count_message p) tx out_idx m)
                (λ q. process_outputs env store config q tx outputs)
                (handle_message-Within config (count_message p) tx out_idx m
                  (count_message-HasRoom p under w))
                (λ q wq. process_outputs-Within config q tx outputs wq)))

  -- A transaction that starts within the limits and is processed without a failure ends within
  -- them: the fuel of all executions is what the block counts and within the budgets, executions
  -- and deployments are at most the messages counted and at most 4096, the commit has at most 256
  -- writes for each execution, and keys and values fit.
  pub process_transaction-Within :
      (config : IndexerConfig)
      → (p : Progress) → (tx : ParsedTransaction) → IsWithin p
      → Within (process_transaction env store config p tx)
  unfolding process_transaction
  process_transaction-Within config p tx w =
      process_outputs-Within config (record p { tx_fuel_used = 0; tx_messages = 0 }) tx tx.outputs
        (record {
          fuel_counted = w.fuel_counted;
          block_fuel = w.block_fuel;
          tx_fuel = omega arith;
          effects_counted = w.effects_counted;
          effects = w.effects;
          writes = w.writes;
          upserts_fit = w.upserts_fit;
          deletes_fit = w.deletes_fit;
        })
