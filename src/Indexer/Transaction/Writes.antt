-- ===== src/Indexer/Transaction/Writes.antt =====
-- What the writes of a call add to the commit of a block, for `apply_write` of
-- crates/zalkanes-indexer/src/lib.rs.
use zalkanes.Base.{ℕ, ◌+◌, ◌≤◌, ◌≡◌, List, [], ◌∷◌, length, All, All-append, length-append, arith}
use zalkanes.Base.Bytes.{Bytes}
use zalkanes.Core.{ContractId}
use zalkanes.Runtime.{
  CallResult, success, trap, fuel_exhausted, invalid_module, contract_not_found, StorageWrite, set,
  delete,
}
use zalkanes.Runtime.Execute.Bounds.{WriteFits, IsLimited}
use zalkanes.State.{BlockCommit}
use zalkanes.Indexer.Transaction.{Summary, apply_write, apply_writes, summary}

abbrev pub UpsertFits : ContractId × Bytes × Bytes → Type 0
UpsertFits (id, key, value) = (length key ≤ 256) × (length value ≤ 65536)

abbrev pub DeleteFits : ContractId × Bytes → Type 0
DeleteFits (id, key) = length key ≤ 256

-- What the writes of a call add to a commit.
pub record Applied (commit commit' : BlockCommit) (n : ℕ) : Type 0 where
  pub count :
      length commit'.upserts + length commit'.deletes
      ≡ length commit.upserts + length commit.deletes + n
  pub upserts : All UpsertFits commit.upserts → All UpsertFits commit'.upserts
  pub deletes : All DeleteFits commit.deletes → All DeleteFits commit'.deletes

apply_write-Applied :
    (cid : ContractId) (commit : BlockCommit) (w : StorageWrite)
    → WriteFits cid w
    → Applied commit (apply_write commit w) 1
unfolding apply_write
apply_write-Applied cid commit (set id key value) (_, k, v) = record {
  count = omega (arith, length-append commit.upserts ((id, key, value) ∷ []));
  upserts = λ a. All-append UpsertFits commit.upserts ((id, key, value) ∷ []) a ((k, v), tt);
  deletes = λ a. a;
}
apply_write-Applied cid commit (delete id key) (_, k) = record {
  count = omega (arith, length-append commit.deletes ((id, key) ∷ []));
  upserts = λ a. a;
  deletes = λ a. All-append DeleteFits commit.deletes ((id, key) ∷ []) a (k, tt);
}

pub apply_writes-Applied :
    (cid : ContractId) (commit : BlockCommit) (ws : List StorageWrite)
    → All (WriteFits cid) ws
    → Applied commit (apply_writes commit ws) (length ws)
unfolding apply_writes
apply_writes-Applied cid commit [] a = record {
  count = omega arith;
  upserts = λ a. a;
  deletes = λ a. a;
}
apply_writes-Applied cid commit (w ∷ ws) (fit, fits) =
    let one = apply_write-Applied cid commit w fit in
    let rest = apply_writes-Applied cid (apply_write commit w) ws fits in
    record {
      count = omega (arith, one.count, rest.count);
      upserts = λ a. rest.upserts (one.upserts a);
      deletes = λ a. rest.deletes (one.deletes a);
    }

-- The limits of a call, read off its summary.
pub record SummaryFits (cid : ContractId) (limit : ℕ) (s : Summary) : Type 0 where
  pub fuel : s.fuel_used ≤ limit
  pub count : length s.writes ≤ 256
  pub fits : All (WriteFits cid) s.writes

pub summary-Fits :
    (cid : ContractId) (limit : ℕ) (r : CallResult)
    → IsLimited cid limit r
    → SummaryFits cid limit (summary r)
unfolding summary
summary-Fits cid limit (success output fuel_used writes) (_, count, fits, fuel) = record {
  fuel = fuel;
  count = count;
  fits = fits;
}
summary-Fits cid limit (trap reason fuel_used) fuel = record {
  fuel = fuel;
  count = omega arith;
  fits = tt;
}
summary-Fits cid limit (fuel_exhausted fuel_used) fuel = record {
  fuel = fuel;
  count = omega arith;
  fits = tt;
}
summary-Fits cid limit (invalid_module reason) l = record {
  fuel = omega arith;
  count = omega arith;
  fits = tt;
}
summary-Fits cid limit contract_not_found l = record {
  fuel = omega arith;
  count = omega arith;
  fits = tt;
}
