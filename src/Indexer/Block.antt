-- ===== src/Indexer/Block.antt =====
-- `process_parsed_block` and `process_zcash_block` of crates/zalkanes-indexer/src/lib.rs.
pub mod Activation
pub mod Limits
pub mod Stored
use zalkanes.Base.{
  ℕ, Option, none, some, List, [], ◌∷◌, ltb, if◌then◌else◌, Result, ok, err, and_then,
}
use zalkanes.Base.Bytes.{Bytes}
use zalkanes.Core.{BlockHeight, BlockHash}
use zalkanes.State.{BlockCommit}
use zalkanes.State.Memory.{MemoryState, commit_block, compute_root, save_executions}
use zalkanes.Indexer.{
  IndexerConfig, activation_height, BlockExecution, ParsedTransaction, ParsedBlock, Failure,
  parse_failure, Environment,
}
use zalkanes.Indexer.Parse.{parse_block}
use zalkanes.Indexer.Transaction.{Progress, process_transaction}

abbrev pub empty_commit : BlockHeight → BlockHash → BlockCommit
empty_commit height hash = record {
  height = height;
  zcash_block_hash = hash;
  deploys = [];
  upserts = [];
  deletes = [];
}

abbrev pub start_progress : BlockHeight → BlockHash → Progress
start_progress height hash = record {
  commit = empty_commit height hash;
  executions = [];
  deployed = [];
  limits = record { fuel_used = 0; messages = 0; carrier_bytes = 0; deploy_bytes = 0 };
  tx_fuel_used = 0;
  tx_messages = 0;
}

abbrev pub Processed : Type 0
Processed = MemoryState × BlockExecution

module _ (env : Environment) where
  unfoldable pub process_transactions :
      MemoryState → IndexerConfig → Progress → List ParsedTransaction → Result Progress Failure
  process_transactions store config p [] = ok p
  process_transactions store config p (tx ∷ txs) =
      and_then (process_transaction env store config p tx)
        λ q. process_transactions store config q txs

  -- The empty commit of a block below the activation height.
  unfoldable pub commit_empty : MemoryState → BlockHeight → BlockHash → Processed
  commit_empty store height hash =
      let (store', root) = commit_block env.blake2b store (empty_commit height hash) in
      (
        store',
        record {
          height = height;
          block_hash = hash;
          state_root_before = root;
          state_root_after = root;
          executions = [];
          deployed = [];
        },
      )

  -- The end of `process_parsed_block`: the commit, the executions and the result.
  unfoldable pub finish_block : MemoryState → ParsedBlock → Progress → Processed
  finish_block store parsed p =
      let (store', root) = commit_block env.blake2b store p.commit in
      (
        save_executions store' p.executions,
        record {
          height = parsed.height;
          block_hash = parsed.hash;
          state_root_before = compute_root env.blake2b store;
          state_root_after = root;
          executions = p.executions;
          deployed = p.deployed;
        },
      )

  unfoldable pub process_parsed_block :
      MemoryState → IndexerConfig → ParsedBlock → Result Processed Failure
  process_parsed_block store config parsed = elim (activation_height config) [
    | none ↦ ok (
      store,
      record {
        height = parsed.height;
        block_hash = parsed.hash;
        state_root_before = compute_root env.blake2b store;
        state_root_after = compute_root env.blake2b store;
        executions = [];
        deployed = [];
      },
    )
    | some activation ↦
        if ltb parsed.height activation
        then ok (commit_empty store parsed.height parsed.hash)
        else and_then
            (process_transactions store config (start_progress parsed.height parsed.hash)
              parsed.transactions)
            (λ p. ok (finish_block store parsed p))
  ]

  -- Behind the fast path: parse, then process.
  unfoldable pub parse_and_process :
      MemoryState → IndexerConfig → BlockHeight → BlockHash → Bytes → Result Processed Failure
  parse_and_process store config height hash raw =
      elim (parse_block env raw height hash config.network) [
        | err e ↦ err (parse_failure e)
        | ok parsed ↦ process_parsed_block store config parsed
      ]

  unfoldable pub process_zcash_block :
      MemoryState → IndexerConfig → BlockHeight → BlockHash → Bytes → Result Processed Failure
  process_zcash_block store config height hash raw = elim (activation_height config) [
    | none ↦ parse_and_process store config height hash raw
    | some activation ↦
        if ltb height activation
        then ok (commit_empty store height hash)
        else parse_and_process store config height hash raw
  ]
