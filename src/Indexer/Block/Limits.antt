-- ===== src/Indexer/Block/Limits.antt =====
-- What a processed block is bounded by, and what its commit leaves in the store:
-- `process_parsed_block` of crates/zalkanes-indexer/src/lib.rs.
use zalkanes.Base.{
  ◌+◌, ◌≤◌, ◌≡◌, refl, subst, List, [], ◌∷◌, ltb, Result, ok, err, and_then, length, arith, on_if,
  on_option,
}
use zalkanes.Core.{BlockHeight, BlockHash}
use zalkanes.State.Memory.{MemoryState}
use zalkanes.Indexer.{
  IndexerConfig, activation_height, BlockExecution, ParsedTransaction, ParsedBlock, Failure,
  Environment,
}
use zalkanes.Indexer.Transaction.{Progress, process_transaction}
use zalkanes.Indexer.Transaction.Counted.{IsWithin, total_fuel}
use zalkanes.Indexer.Transaction.Within.{Within, process_transaction-Within}
use zalkanes.Indexer.Block.{
  Processed, start_progress, commit_empty, finish_block, process_transactions, process_parsed_block,
}

pub start-IsWithin :
    (height : BlockHeight) (hash : BlockHash) → IsWithin (start_progress height hash)
start-IsWithin height hash = record {
  fuel_counted = refl;
  block_fuel = omega arith;
  tx_fuel = omega arith;
  effects_counted = omega arith;
  effects = omega arith;
  writes = omega arith;
  upserts_fit = tt;
  deletes_fit = tt;
}

module _ (env : Environment) where
  process_transactions-Within :
      (store : MemoryState)
      → (config : IndexerConfig) → (p : Progress) → (txs : List ParsedTransaction) → IsWithin p
      → Within (process_transactions env store config p txs)
  unfolding process_transactions
  process_transactions-Within store config p [] w = w
  process_transactions-Within store config p (tx ∷ txs) w =
      step (process_transaction env store config p tx)
        (process_transaction-Within env store config p tx w)
        λ q wq. process_transactions-Within store config q txs wq
    where
      step :
          (m : Result Progress Failure)
          → Within m
          → ((q : Progress) → IsWithin q → Within (process_transactions env store config q txs))
          → Within (and_then m (λ q. process_transactions env store config q txs))
      step (err _) v k = tt
      step (ok q) v k = k q v

  -- The limits of a block, as its result shows them.
  abbrev BlockFits : Result Processed Failure → Type 0
  BlockFits (err _) = Unit
  BlockFits (ok (_, e)) =
      (total_fuel e.executions ≤ 1000000000) × (length e.executions + length e.deployed ≤ 4096)

  commit_empty-BlockFits :
      (store : MemoryState) (height : BlockHeight) (hash : BlockHash)
      → BlockFits (ok (commit_empty env store height hash))
  unfolding commit_empty
  commit_empty-BlockFits store height hash = (omega arith, omega arith)

  finish_block-BlockFits :
      (store : MemoryState) (parsed : ParsedBlock) (p : Progress)
      → IsWithin p
      → BlockFits (ok (finish_block env store parsed p))
  unfolding finish_block
  finish_block-BlockFits store parsed p w = (omega (arith, w.fuel_counted, w.block_fuel), w.effects)

  finish_all :
      (store : MemoryState) (parsed : ParsedBlock) (m : Result Progress Failure)
      → Within m
      → BlockFits (and_then m (λ p. ok (finish_block env store parsed p)))
  finish_all store parsed (err _) w = tt
  finish_all store parsed (ok p) w = finish_block-BlockFits store parsed p w

  -- A block that is processed has used at most 1000000000 fuel in all its executions, and its
  -- executions and deployments together are at most 4096.
  pub process_parsed_block-limits :
      (store store' : MemoryState)
      → (config : IndexerConfig) → (parsed : ParsedBlock) → (e : BlockExecution)
      → process_parsed_block env store config parsed ≡ ok (store', e)
      → (total_fuel e.executions ≤ 1000000000) × (length e.executions + length e.deployed ≤ 4096)
  unfolding process_parsed_block
  process_parsed_block-limits store store' config parsed e h = subst BlockFits h (
      on_option BlockFits (activation_height config) (λ _. (omega arith, omega arith))
        λ a _.
          on_if BlockFits (ltb parsed.height a)
            (λ _. commit_empty-BlockFits store parsed.height parsed.hash)
            (λ _.
              finish_all store parsed
                (process_transactions env store config (start_progress parsed.height parsed.hash)
                  parsed.transactions)
                (process_transactions-Within store config (start_progress parsed.height parsed.hash)
                  parsed.transactions (start-IsWithin parsed.height parsed.hash))))
