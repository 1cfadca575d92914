-- ===== src/Indexer/Sync.antt =====
-- crates/zalkanes-indexer/src/sync.rs: `tick`, `handle_reorg` and `run`, over the `MemoryState` store.
-- The chain source is a parameter whose answers are fixed within one tick. A loop of the source runs
-- on fuel, and out of fuel is an end of its own. Heights are 32-bit words that wrap, as the release
-- build computes them.
pub mod Health
pub mod Progress
pub mod Spinning
pub mod Reorg
mod Tests
use Prim.Native.String.{String}
use zalkanes.Base.{
  ℕ, zero, suc, ◌+◌, ◌-◌, ◌%◌, ◌^◌, min, ltb, Bool, true, false, Option, none, some, List, [], ◌∷◌,
  leb, ◌==◌, not, Result, ok, err, if◌then◌else◌, ◌&&◌, ◌||◌,
}
use zalkanes.Base.Bytes.{Bytes}
use zalkanes.Base.Order.{bytes_eq}
use zalkanes.Core.{BlockHeight, BlockHash}
use zalkanes.State.Memory.{MemoryState, commit_block, rollback_to}
use zalkanes.Indexer.{
  IndexerConfig, activation_height, Failure, parse_failure, panic, BlockExecution, Environment,
}
use zalkanes.Indexer.Parse.{parse_block}
use zalkanes.Base.Text.{◌<>◌}
use zalkanes.Indexer.Sync.Health.{IndexerStatus, record_tick_ok, record_failure, mark_dead}
use zalkanes.Indexer.Block.{Processed, empty_commit, process_parsed_block, process_zcash_block}

pub record BlockRef : Type 0 where
  pub height : BlockHeight
  pub hash : BlockHash

-- `ChainSource`
pub record ChainSource : Type 0 where
  pub tip : Result BlockRef String
  pub block_hash : BlockHeight → Result BlockHash String
  pub raw_block : BlockHash → Result Bytes String

-- The upstream error with its context, or the failure of the local store.
pub data SyncError : Type 0 where
  transient : String → String → SyncError
  fatal : String → Failure → SyncError

-- How a loop ends.
pub data End : Type 0 where
  finished : End
  failed : SyncError → End
  out_of_fuel : End

pub record TickOutcome : Type 0 where
  pub tip : BlockHeight
  pub indexed_before : Option BlockHeight
  pub indexed_after : Option BlockHeight

-- The result of a tick, or none within the fuel.
pub data Ticked : Type 0 where
  ticked : TickOutcome → Ticked
  not_ticked : SyncError → Ticked
  unfinished : Ticked

abbrev pub outcome_of : BlockRef → Option BlockHeight → Option BlockHeight → End → Ticked
outcome_of tip before after finished =
    ticked record { tip = tip.height; indexed_before = before; indexed_after = after }
outcome_of tip before after (failed e) = not_ticked e
outcome_of tip before after out_of_fuel = unfinished

abbrev pub indexed_height : MemoryState → Option BlockHeight
indexed_height s = s.metadata.indexed_height

abbrev pub indexed_block_hash : MemoryState → Option BlockHash
indexed_block_hash s = s.metadata.indexed_block_hash

-- `h + 1` and `h - 1` of a 32-bit word.
abbrev pub add_one : BlockHeight → BlockHeight
add_one h = (h + 1) % 4294967296

abbrev pub sub_one : BlockHeight → BlockHeight
sub_one h = (h + 4294967295) % 4294967296

module _ (source : ChainSource) where
  unfoldable pub handle_reorg : ℕ → MemoryState → End × MemoryState
  handle_reorg zero store = (out_of_fuel, store)
  handle_reorg (suc fuel) store = elim (indexed_height store) [
    | none ↦ (finished, store)
    | some height ↦ elim (indexed_block_hash store) [
      | none ↦ (finished, store)
      | some our_hash ↦ elim (source.block_hash height) [
        | err e ↦ (failed (transient "fetching canonical block hash for reorg check" e), store)
        | ok canonical ↦
            let again = handle_reorg fuel (rollback_to store (sub_one height)) in
            if bytes_eq canonical our_hash then (finished, store) else again
      ]
    ]
  ]

module _ (env : Environment) (source : ChainSource) (config : IndexerConfig) where
  -- `indexed_height().is_none_or(|h| h < target)`
  abbrev pub is_below : BlockHeight → MemoryState → Bool
  is_below target store = elim (indexed_height store) [ none ↦ true | some h ↦ ltb h target ]

  -- Step 3 of `tick`.
  unfoldable pub fast_forward_to : BlockHeight → MemoryState → End × MemoryState
  fast_forward_to target store =
      if is_below target store
      then elim (source.block_hash target) [
        | err e ↦ (failed (transient "fetching block hash for the fast-forward target" e), store)
        | ok hash ↦ (finished, (commit_block env.blake2b store (empty_commit target hash)).0)
      ]
      else (finished, store)

  unfoldable pub fast_forward : BlockRef → MemoryState → End × MemoryState
  fast_forward tip store = elim (activation_height config) [
    | none ↦ (finished, store)
    | some act ↦
        if ltb 1 act then fast_forward_to (min (act - 1) tip.height) store else (finished, store)
  ]

  -- `activation_height().is_some_and(|act| next_height < act)`
  abbrev pub below_activation : BlockHeight → Bool
  below_activation next_height = elim (activation_height config) [
    | none ↦ false
    | some act ↦ ltb next_height act
  ]

  abbrev pub settled :
      String → MemoryState → Result Processed Failure → Result MemoryState SyncError
  settled what store (ok (store', e)) = ok store'
  settled what store (err f) = err (fatal what f)

  -- A block at or above activation: fetch, parse, process.
  unfoldable pub index_raw : BlockHeight → BlockHash → MemoryState → Result MemoryState SyncError
  index_raw next_height hash store = elim (source.raw_block hash) [
    | err e ↦ err (transient "fetching raw block" e)
    | ok raw ↦ elim (parse_block env raw next_height hash config.network) [
      | err e ↦ err (transient "parsing block" e)
      | ok parsed ↦
          settled "processing block against local state" store
            (process_parsed_block env store config parsed)
    ]
  ]

  -- One block of the loop of step 4.
  unfoldable pub index_one : BlockHeight → MemoryState → Result MemoryState SyncError
  index_one next_height store = elim (source.block_hash next_height) [
    | err e ↦ err (transient "fetching canonical block hash" e)
    | ok hash ↦
        if below_activation next_height
        then settled "committing a pre-activation block" store
            (process_zcash_block env store config next_height hash [])
        else index_raw next_height hash store
  ]

  abbrev pub next_of : MemoryState → BlockHeight
  next_of store = elim (indexed_height store) [ none ↦ 1 | some h ↦ add_one h ]

  -- The loop of step 4; `stop` says for each round whether the flag is set.
  unfoldable pub index_loop : ℕ → (ℕ → Bool) → BlockHeight → MemoryState → End × MemoryState
  index_loop zero stop tip store = (out_of_fuel, store)
  index_loop (suc fuel) stop tip store =
      if stop fuel
      then (finished, store)
      else if ltb tip (next_of store)
      then (finished, store)
      else elim (index_one (next_of store) store) [
        | err e ↦ (failed e, store)
        | ok store' ↦ index_loop fuel stop tip store'
      ]

  abbrev pub and_continue :
      End × MemoryState → (MemoryState → End × MemoryState) → End × MemoryState
  and_continue (finished, store) k = k store
  and_continue (failed e, store) k = (failed e, store)
  and_continue (out_of_fuel, store) k = (out_of_fuel, store)

  -- What `tick` leaves: how it ended, the store, and the tip for the RPC server.
  unfoldable pub tick :
      ℕ → (ℕ → Bool) → Option BlockRef → MemoryState → Ticked × MemoryState × Option BlockRef
  tick fuel stop tip_handle store = elim source.tip [
    | err e ↦ (not_ticked (transient "fetching chain tip" e), store, tip_handle)
    | ok tip ↦
        let (end, store') =
          and_continue (handle_reorg source fuel store)
            λ s. and_continue (fast_forward tip s) λ s'. index_loop fuel stop tip.height s' in
        (outcome_of tip (indexed_height store) (indexed_height store') end, store', some tip)
  ]

-- `format!("{e:#}")`
unfoldable pub message : SyncError → String
message (transient what e) = what <> ": " <> e
message (fatal what (parse_failure e)) = what <> ": " <> e
message (fatal what panic) = what

-- `==` and `is_some_and(|h| h >= tip)` on indexed heights.
abbrev pub same_height : Option BlockHeight → Option BlockHeight → Bool
same_height none none = true
same_height (some a) (some b) = a == b
same_height _ _ = false

unfoldable pub has_advanced : TickOutcome → Bool
has_advanced o =
    not (same_height o.indexed_after o.indexed_before)
    || (elim o.indexed_after [ none ↦ false | some h ↦ leb o.tip h ])

-- What the loop keeps, and one poll of it: the chain source then, the flag, and the clock.
pub record Node : Type 0 where
  pub store : MemoryState
  pub tip_handle : Option BlockRef
  pub health : IndexerStatus

pub record Poll : Type 0 where
  pub source : ChainSource
  pub stop : Bool
  pub stop_within : ℕ → Bool
  pub now : ℕ
  pub fuel : ℕ

-- Whether the loop goes on after a poll, has returned, or has not come back from a tick.
pub data Going : Type 0 where
  goes_on : Going
  returned : Result {0, 0} Unit SyncError → Going
  hangs : Going

module _ (env : Environment) (config : IndexerConfig) where
  -- The match on the result of `tick`.
  unfoldable pub account : ℕ → Node → Ticked × MemoryState × Option BlockRef → Going × Node
  account now node (ticked o, store, handle) = (
    goes_on,
    record {
      store = store;
      tip_handle = handle;
      health = record_tick_ok o.indexed_after o.tip (has_advanced o) now node.health;
    },
  )
  account now node (not_ticked (transient what e), store, handle) = (
    goes_on,
    record {
      store = store;
      tip_handle = handle;
      health = record_failure (message (transient what e)) (indexed_height store) node.health;
    },
  )
  account now node (not_ticked (fatal what e), store, handle) = (
    returned (err (fatal what e)),
    record {
      store = store;
      tip_handle = handle;
      health = mark_dead (message (fatal what e)) node.health;
    },
  )
  account now node (unfinished, store, handle) =
      (hangs, record node { store = store; tip_handle = handle })

  unfoldable pub poll : Poll → Node → Going × Node
  poll p node =
      if p.stop
      then (returned (ok tt), node)
      else account p.now node
          (tick env p.source config p.fuel p.stop_within node.tip_handle node.store)

  abbrev pub and_poll : Going × Node → (Node → Going × Node) → Going × Node
  and_poll (goes_on, node) k = k node
  and_poll (returned r, node) k = (returned r, node)
  and_poll (hangs, node) k = (hangs, node)

  -- `run`, over the polls of its interval.
  unfoldable pub run : List Poll → Node → Going × Node
  run [] node = (goes_on, node)
  run (p ∷ ps) node = and_poll (poll p node) λ node'. run ps node'
