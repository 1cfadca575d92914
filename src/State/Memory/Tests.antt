-- ===== src/State/Memory/Tests.antt =====
-- A store with one commit of each kind of write, and the theorems on the memory store at it.
use zalkanes.Base.{◌≡◌, refl, [], ◌∷◌, none, if◌then◌else◌, arith, length}
use zalkanes.Base.Bytes.{Bytes}
use zalkanes.State.{BlockCommit}
use zalkanes.State.Memory.{
  empty, commit_block, rollback_to, storage_get, projected_root, compute_root, last_metadata,
}
use zalkanes.State.Memory.Rollback.{IsValid, IsAt, run, rollback_to-run}
use zalkanes.State.Memory.Reads.{storage_get-commit, deleted, or_else, last_upsert}
use zalkanes.State.Memory.Projected.{projected_root-commit}

abbrev toy_blake2b : Bytes → Bytes → Bytes
toy_blake2b personalization bytes = length bytes ∷ []

abbrev writes_at_5 : BlockCommit
writes_at_5 = record {
  height = 5;
  zcash_block_hash = 50 ∷ [];
  deploys = ((1 ∷ []), (2 ∷ []), (3 ∷ [])) ∷ [];
  upserts = ((1 ∷ []), (8 ∷ []), (4 ∷ [])) ∷ ((1 ∷ []), (9 ∷ []), (5 ∷ [])) ∷ [];
  deletes = [];
}

abbrev deletes_at_6 : BlockCommit
deletes_at_6 = record {
  height = 6;
  zcash_block_hash = 60 ∷ [];
  deploys = [];
  upserts = ((1 ∷ []), (9 ∷ []), (7 ∷ [])) ∷ [];
  deletes = ((1 ∷ []), (8 ∷ [])) ∷ [];
}

empty-IsValid : IsValid empty
unfolding last_metadata
empty-IsValid = record {
  contracts_sorted = tt;
  storage_sorted = tt;
  undo_sorted = tt;
  metadata_last = refl;
}

empty-IsAt : IsAt 4 empty
empty-IsAt = record { undo_at = tt; history_at = tt }

rollback_to-run_example :
    rollback_to (run toy_blake2b empty (deletes_at_6 ∷ writes_at_5 ∷ [])) 4 ≡ empty
rollback_to-run_example =
    rollback_to-run toy_blake2b 4 empty (deletes_at_6 ∷ writes_at_5 ∷ []) empty-IsValid empty-IsAt
      (omega arith, omega arith)

storage_get-commit_example :
    storage_get (commit_block toy_blake2b empty writes_at_5).0 (1 ∷ []) (8 ∷ []) ≡ (
      if deleted ((1 ∷ []), (8 ∷ [])) writes_at_5.deletes
      then none
      else or_else
          (last_upsert ((1 ∷ []), (8 ∷ [])) writes_at_5.upserts)
          (storage_get empty (1 ∷ []) (8 ∷ [])))
storage_get-commit_example = storage_get-commit toy_blake2b empty writes_at_5 (1 ∷ []) (8 ∷ [])

projected_root-commit_example :
    (projected_root toy_blake2b empty writes_at_5 ≡ (commit_block toy_blake2b empty writes_at_5).1)
    × (compute_root toy_blake2b (commit_block toy_blake2b empty writes_at_5).0
        ≡ (commit_block toy_blake2b empty writes_at_5).1)
projected_root-commit_example = projected_root-commit toy_blake2b empty writes_at_5 empty-IsValid
