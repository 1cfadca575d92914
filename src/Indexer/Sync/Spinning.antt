-- ===== src/Indexer/Sync/Spinning.antt =====
-- The loop of `tick` of crates/zalkanes-indexer/src/sync.rs on a network without an activation height.
use Prim.Native.String.{String}
use zalkanes.Base.{ℕ, zero, suc, ◌≡◌, ◌≤◌, refl, Bool, false, none, ok, ltb, arith}
use zalkanes.Base.Bytes.{Bytes}
use zalkanes.Core.{BlockHeight, BlockHash}
use zalkanes.State.Memory.{MemoryState}
use zalkanes.Indexer.{IndexerConfig, activation_height, ParsedBlock, Environment}
use zalkanes.Indexer.Parse.{parse_block}
use zalkanes.Indexer.Block.{process_parsed_block}
use zalkanes.Indexer.Sync.{
  ChainSource, out_of_fuel, index_loop, index_one, index_raw, next_of, below_activation, settled,
}

module _ (env : Environment) (source : ChainSource) (config : IndexerConfig) where
  -- Without an activation height a block is processed without being committed.
  uncommitted :
      (store : MemoryState) (parsed : ParsedBlock) (what : String)
      → activation_height config ≡ none
      → settled env source config what store (process_parsed_block env store config parsed)
        ≡ ok store
  unfolding process_parsed_block
  uncommitted store parsed what ha = rw (ha, process_parsed_block) refl

  same_block :
      (store : MemoryState) (hash : BlockHash) (raw : Bytes) (parsed : ParsedBlock)
      → activation_height config ≡ none
      → source.block_hash (next_of env source config store) ≡ ok hash
      → source.raw_block hash ≡ ok raw
      → parse_block env raw (next_of env source config store) hash config.network ≡ ok parsed
      → index_one env source config (next_of env source config store) store ≡ ok store
  unfolding index_one index_raw
  same_block store hash raw parsed ha hh hr hp =
      rw (hh, index_one)
        (rw (ha, below_activation) (rw (hr, index_raw) (rw hp (uncommitted store parsed _ ha))))

  -- On a network without an activation height, when the chain source serves the next block and the
  -- flag is not set, the loop never ends: whatever the fuel, it is still at the same store.
  pub index_loop-spins :
      (fuel : ℕ) (stop : ℕ → Bool) (tip : BlockHeight) (store : MemoryState) (hash : BlockHash)
      (raw : Bytes) (parsed : ParsedBlock)
      → activation_height config ≡ none
      → ((n : ℕ) → stop n ≡ false)
      → next_of env source config store ≤ tip
      → source.block_hash (next_of env source config store) ≡ ok hash
      → source.raw_block hash ≡ ok raw
      → parse_block env raw (next_of env source config store) hash config.network ≡ ok parsed
      → index_loop env source config fuel stop tip store ≡ (out_of_fuel, store)
  unfolding index_loop
  index_loop-spins zero stop tip store hash raw parsed ha hs hn hh hr hp = refl
  index_loop-spins (suc fuel) stop tip store hash raw parsed ha hs hn hh hr hp =
      let within : ltb tip (next_of env source config store) ≡ false = ground arith in
      rw (hs fuel, index_loop)
        (rw within (
          rw (same_block store hash raw parsed ha hh hr hp)
            (index_loop-spins fuel stop tip store hash raw parsed ha hs hn hh hr hp)))
