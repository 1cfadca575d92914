-- ===== src/Indexer/Tests.antt =====
-- A regtest block with one CALL of a deployed contract, and the theorems on the indexer at it.
use zalkanes.Base.{
  ◌≡◌, ◌≤◌, ◌+◌, refl, [], ◌∷◌, true, false, none, some, ok, length, replicate, map,
}
use zalkanes.Base.Bytes.{Bytes}
use zalkanes.Base.Order.{cmp_bytes}
use zalkanes.Base.OrdMap.{lookup, insert}
use zalkanes.Core.{Execution, mainnet, regtest}
use zalkanes.Carrier.Script.{extract_op_return_data, parse_push, parse_opcode, pushed, byte?}
use zalkanes.Protocol.{parse_op_return, parse_body, parse_call, starts_with}
use zalkanes.Runtime.Memory.{as_usize, saturating_add, read_range}
use zalkanes.Runtime.Host.{run_host, storage_set, is_full_for, call_set}
use zalkanes.Runtime.Execute.{
  Engine, finished, host_call, returned, dispatch, execute, run_guest, call_result, overlay_writes,
  start_host,
}
use zalkanes.State.{BlockCommit}
use zalkanes.State.Memory.{MemoryState, empty, get_contract, compute_root, projected_root}
use zalkanes.Indexer.{
  IndexerConfig, BlockExecution, ParsedTransaction, ParsedBlock, ReadBlock, Environment,
  activation_on,
}
use zalkanes.Indexer.Parse.{parse_block, parse_transaction}
use zalkanes.Indexer.Transaction.{
  Progress, process_transaction, process_outputs, message_of, count_message, is_over_cap,
  handle_message, handle_call, execute_call, call_context, fuel_limit, record_call, summary,
  apply_writes, apply_write,
}
use zalkanes.Indexer.Transaction.Counted.{total_fuel}
use zalkanes.Indexer.Transaction.Within.{Within, process_transaction-Within}
use zalkanes.Indexer.Transaction.Failed.{CallLeaves, execute_call-failed}
use zalkanes.Indexer.Block.{
  start_progress, empty_commit, process_transactions, process_parsed_block, process_zcash_block,
  finish_block, parse_and_process,
}
use zalkanes.Indexer.Block.Limits.{start-IsWithin, process_parsed_block-limits}
use zalkanes.Indexer.Block.Stored.{process_parsed_block-stored}
use zalkanes.Indexer.Transaction.Sound.{IsSound, Sound, process_transaction-Sound}
use zalkanes.Indexer.Block.Activation.{process_zcash_block-mainnet, process_zcash_block-fast_path}

abbrev toy_hash : Bytes → Bytes → Bytes
toy_hash personalization bytes = length bytes ∷ []

abbrev contract : Bytes
contract = replicate 32 7

-- Sets a key and ends with code 0.
abbrev engine : Engine
engine = record {
  parse_module = λ _. ok tt;
  set_fuel = λ _. ok tt;
  instantiate = λ _ _ _ _.
      dispatch
        (host_call (call_set 0 1 1 1) (some (8 ∷ 9 ∷ [])) (λ _ _. finished (returned 0) 9999000));
}

-- OP_RETURN, a push of 44 bytes, and a CALL with opcode 3 and input 1 2.
abbrev call_script : Bytes
call_script =
    0x6a ∷ 44 ∷ 0x5A ∷ 0x41 ∷ 0x4C ∷ 0x4B ∷ 0 ∷ 2 ∷ 7 ∷ 7 ∷ 7 ∷ 7 ∷ 7 ∷ 7 ∷ 7 ∷ 7 ∷ 7 ∷ 7 ∷ 7 ∷ 7
    ∷ 7 ∷ 7 ∷ 7 ∷ 7 ∷ 7 ∷ 7 ∷ 7 ∷ 7 ∷ 7 ∷ 7 ∷ 7 ∷ 7 ∷ 7 ∷ 7 ∷ 7 ∷ 7 ∷ 7 ∷ 7 ∷ 7 ∷ 7 ∷ 0 ∷ 3 ∷ 0 ∷ 2
    ∷ 1 ∷ 2 ∷ []

abbrev block : ReadBlock
block = record {
  claimed_height = 200;
  vtx = record { txid = 4 ∷ []; transparent_bundle = some (call_script ∷ [], []) } ∷ [];
}

abbrev env : Environment
env = record {
  sha256 = λ bytes. length bytes ∷ [];
  blake2b = toy_hash;
  engine = engine;
  parse_all = λ _. ok [];
  read_block = λ _ _. ok block;
}

abbrev store : MemoryState
store = record empty { contracts = (contract, (2 ∷ [], 3 ∷ [])) ∷ [] }

abbrev config : IndexerConfig
config = record { network = regtest; regtest_activation_override = none }

abbrev tx : ParsedTransaction
tx = record { txid = 4 ∷ []; outputs = (0, call_script) ∷ []; inputs = [] }

abbrev parsed : ParsedBlock
parsed = record { height = 200; hash = 5 ∷ []; transactions = tx ∷ [] }

abbrev start : Progress
start = start_progress 200 (5 ∷ [])

-- The pending commit and the execution after the call.
abbrev commit : BlockCommit
commit = record (empty_commit 200 (5 ∷ [])) { upserts = (contract, 8 ∷ [], 9 ∷ []) ∷ [] }

abbrev call_execution : Execution
call_execution = record {
  txid = 4 ∷ [];
  contract_id = contract;
  opcode = 3;
  success = true;
  fuel_used = 1000;
  return_data = [];
  error = none;
  state_root_before = compute_root toy_hash store;
  state_root_after = projected_root toy_hash store commit;
  block_height = 200;
  block_hash = 5 ∷ [];
}

abbrev done : Progress
done = record start {
  commit = commit;
  executions = call_execution ∷ [];
  limits = record { fuel_used = 1000; messages = 1; carrier_bytes = 0; deploy_bytes = 0 };
  tx_fuel_used = 1000;
  tx_messages = 1;
}

processes : process_parsed_block env store config parsed ≡ ok (finish_block env store parsed done)
unfolding process_parsed_block activation_on process_transactions process_transaction
    process_outputs message_of extract_op_return_data parse_push parse_opcode pushed byte?
    parse_op_return parse_body parse_call starts_with is_over_cap count_message handle_message
    handle_call execute_call fuel_limit execute call_context get_contract lookup cmp_bytes run_guest
    run_host record_call apply_writes apply_write summary saturating_add call_result overlay_writes
    storage_set read_range as_usize is_full_for start_host insert
processes = refl

activates : activation_on config.network config.regtest_activation_override ≡ some 1
unfolding activation_on
activates = refl

-- The same contract, ending with code 1.
abbrev failing : Environment
failing = record env {
  engine = record engine {
    instantiate = λ _ _ _ _.
        dispatch
          (host_call (call_set 0 1 1 1) (some (8 ∷ 9 ∷ [])) (λ _ _. finished (returned 1) 9999000));
  };
}

abbrev failed_execution : Execution
failed_execution = record call_execution {
  success = false;
  error = some "dispatch returned error code 1";
  state_root_after = projected_root toy_hash store (empty_commit 200 (5 ∷ []));
}

abbrev after_failure : Progress
after_failure = record start {
  executions = failed_execution ∷ [];
  limits = record { fuel_used = 1000; messages = 0; carrier_bytes = 0; deploy_bytes = 0 };
  tx_fuel_used = 1000;
}

fails : execute_call failing store start tx contract 3 (1 ∷ 2 ∷ []) ≡ ok after_failure
unfolding execute_call fuel_limit execute call_context get_contract lookup cmp_bytes run_guest
    run_host record_call apply_writes apply_write summary saturating_add call_result overlay_writes
    storage_set read_range as_usize is_full_for start_host insert
fails = refl

execute_call-failed_example :
    CallLeaves failing store start tx contract 3
      (1 ∷ 2 ∷ [])
      (execute_call failing store start tx contract 3 (1 ∷ 2 ∷ []))
execute_call-failed_example = execute_call-failed failing store start tx contract 3 (1 ∷ 2 ∷ [])

process_parsed_block-stored_example :
    ((finish_block env store parsed done).0.metadata.indexed_height ≡ some 200)
    × ((finish_block env store parsed done).0.metadata.indexed_block_hash ≡ some (5 ∷ []))
    × ((finish_block env store parsed done).0.metadata.persisted_root
        ≡ some (finish_block env store parsed done).1.state_root_after)
    × ((finish_block env store parsed done).1.state_root_after
        ≡ compute_root toy_hash (finish_block env store parsed done).0)
process_parsed_block-stored_example =
    process_parsed_block-stored env store (finish_block env store parsed done).0 config parsed
      (finish_block env store parsed done).1 1 activates processes

start-IsSound : IsSound env store 200 (5 ∷ []) start.commit
start-IsSound = record { height_kept = refl; hash_kept = refl; deployable = tt }

process_transaction-Sound_example :
    Sound env store 200 (5 ∷ []) (process_transaction env store config start tx)
process_transaction-Sound_example =
    process_transaction-Sound env store 200 (5 ∷ []) config start tx start-IsSound

abbrev idle : BlockExecution
idle = record {
  height = 200;
  block_hash = 5 ∷ [];
  state_root_before = compute_root toy_hash store;
  state_root_after = compute_root toy_hash store;
  executions = [];
  deployed = [];
}

idles :
    process_zcash_block env store
      (record { network = mainnet; regtest_activation_override = some 7 })
      200
      (5 ∷ [])
      []
    ≡ ok (store, idle)
unfolding process_zcash_block parse_and_process parse_block process_parsed_block activation_on
idles = refl

process_zcash_block-mainnet_example :
    (store ≡ store)
    × (idle.executions ≡ [])
    × (idle.deployed ≡ [])
    × (idle.state_root_after ≡ idle.state_root_before)
process_zcash_block-mainnet_example =
    process_zcash_block-mainnet env store store (some 7) 200 (5 ∷ []) [] idle idles

process_parsed_block-limits_example :
    (total_fuel (finish_block env store parsed done).1.executions ≤ 1000000000)
    × (length (finish_block env store parsed done).1.executions
          + length (finish_block env store parsed done).1.deployed
        ≤ 4096)
process_parsed_block-limits_example =
    process_parsed_block-limits env store (finish_block env store parsed done).0 config parsed
      (finish_block env store parsed done).1 processes

process_transaction-Within_example : Within (process_transaction env store config start tx)
process_transaction-Within_example =
    process_transaction-Within env store config start tx (start-IsWithin 200 (5 ∷ []))

process_zcash_block-fast_path_example :
    process_zcash_block env store config 200 (5 ∷ []) []
    ≡ process_parsed_block env store config
        (record { height = 200; hash = 5 ∷ []; transactions = map parse_transaction block.vtx })
process_zcash_block-fast_path_example =
    process_zcash_block-fast_path env store config 200 (5 ∷ []) [] block refl refl
