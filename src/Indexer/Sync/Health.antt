-- ===== src/Indexer/Sync/Health.antt =====
-- The liveness bookkeeping of crates/zalkanes-indexer/src/sync.rs. Instants and durations are numbers
-- of one unit; `saturating_duration_since` is the subtraction that stops at 0.
use Prim.Native.String.{String}
use zalkanes.Base.{ℕ, ◌+◌, ◌-◌, min, leb, Bool, false, Option, none, some, if◌then◌else◌}
use zalkanes.Core.{BlockHeight}

pub record IndexerStatus : Type 0 where
  pub started_at : ℕ
  pub last_tick_ok : Option ℕ
  pub last_progress : Option ℕ
  pub indexed_height : Option BlockHeight
  pub tip_height : Option BlockHeight
  pub consecutive_failures : ℕ
  pub total_failures : ℕ
  pub last_error : Option String
  pub dead : Option String

pub data Liveness : Type 0 where
  starting : Liveness
  healthy : Bool → Liveness
  stalled : ℕ → Option String → Liveness
  dead_of : String → Liveness

abbrev pub new_at : ℕ → IndexerStatus
new_at started_at = record {
  started_at = started_at;
  last_tick_ok = none;
  last_progress = none;
  indexed_height = none;
  tip_height = none;
  consecutive_failures = 0;
  total_failures = 0;
  last_error = none;
  dead = none;
}

unfoldable pub record_tick_ok :
    Option BlockHeight → BlockHeight → Bool → ℕ → IndexerStatus → IndexerStatus
record_tick_ok indexed tip advanced now s = record s {
  last_tick_ok = some now;
  last_progress = if advanced then some now else s.last_progress;
  indexed_height = indexed;
  tip_height = some tip;
  consecutive_failures = 0;
}

unfoldable pub record_failure : String → Option BlockHeight → IndexerStatus → IndexerStatus
record_failure e indexed s = record s {
  consecutive_failures = min (s.consecutive_failures + 1) 4294967295;
  total_failures = min (s.total_failures + 1) 18446744073709551615;
  last_error = some e;
  indexed_height = indexed;
}

unfoldable pub mark_dead : String → IndexerStatus → IndexerStatus
mark_dead reason s = record s { dead = some reason; last_error = some reason }

-- `matches!((indexed, tip), (Some(i), Some(t)) if i >= t)`
abbrev pub is_caught_up : Option BlockHeight → Option BlockHeight → Bool
is_caught_up (some i) (some t) = leb t i
is_caught_up _ _ = false

unfoldable pub assess : ℕ → ℕ → IndexerStatus → Liveness
assess now stale_after s = elim s.dead [
  | some reason ↦ dead_of reason
  | none ↦ elim s.last_progress [
    | some t ↦
        if leb (now - t) stale_after
        then healthy (is_caught_up s.indexed_height s.tip_height)
        else stalled (now - t) s.last_error
    | none ↦
        if leb (now - s.started_at) stale_after
        then starting
        else stalled (now - s.started_at) s.last_error
  ]
]
