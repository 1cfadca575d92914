-- ===== src/State/Memory/Undoing.antt =====
-- The undo operations that a commit records take its writes back.
use zalkanes.Base.{◌≡◌, refl, ap, ◌∙◌, sym, Option-cases, List, [], ◌∷◌, ◌++◌, inl, inr}
use zalkanes.Base.Bytes.{Bytes}
use zalkanes.Base.Order.{bytes_order, pair_order}
use zalkanes.Base.OrdMap.{
  lookup, insert, remove, put_back, IsSorted, insert-IsSorted, remove-IsSorted, put_back-insert,
  put_back-remove, remove_absent,
}
use zalkanes.Core.{ContractId, CodeHash}
use zalkanes.State.{BlockCommit, UndoOp, set, delete, deploy, Contracts, Storage}
use zalkanes.State.Memory.{
  MemoryState, apply_deploys, apply_upserts, apply_deletes, apply_commit, undo_op, undo_all,
}

pub undo_all-append :
    (xs ys : List UndoOp) (m : Contracts × Storage)
    → undo_all (xs ++ ys) m ≡ undo_all xs (undo_all ys m)
unfolding undo_all
undo_all-append [] ys m = refl
undo_all-append (x ∷ xs) ys m = ap (undo_op x) (undo_all-append xs ys m)

pub apply_deploys-IsSorted :
    (m : Contracts) (ds : List (ContractId × CodeHash × Bytes))
    → IsSorted m
    → IsSorted (apply_deploys m ds).0
unfolding apply_deploys
apply_deploys-IsSorted m [] s = s
apply_deploys-IsSorted m ((id, h, w) ∷ ds) s =
    apply_deploys-IsSorted (insert id (h, w) m) ds (insert-IsSorted id (h, w) m s)

pub apply_upserts-IsSorted :
    (m : Storage) (us : List (ContractId × Bytes × Bytes))
    → IsSorted m
    → IsSorted (apply_upserts m us).0
unfolding apply_upserts
apply_upserts-IsSorted m [] s = s
apply_upserts-IsSorted m ((cid, k, v) ∷ us) s =
    apply_upserts-IsSorted (insert (cid, k) v m) us (insert-IsSorted (cid, k) v m s)

pub apply_deletes-IsSorted :
    (m : Storage) (ds : List (ContractId × Bytes)) → IsSorted m → IsSorted (apply_deletes m ds).0
unfolding apply_deletes
apply_deletes-IsSorted m [] s = s
apply_deletes-IsSorted m ((cid, k) ∷ ds) s =
    apply_deletes-IsSorted (remove (cid, k) m) ds (remove-IsSorted (cid, k) m s)

undo_deploys :
    (c : Contracts) (m : Storage) (ds : List (ContractId × CodeHash × Bytes))
    → IsSorted c
    → undo_all (apply_deploys c ds).1 ((apply_deploys c ds).0, m) ≡ (c, m)
unfolding apply_deploys undo_all undo_op
undo_deploys c m [] s = refl
undo_deploys c m ((id, h, w) ∷ ds) s =
    ap (undo_op (deploy id (lookup id c)))
      (undo_deploys (insert id (h, w) c) m ds (insert-IsSorted id (h, w) c s))
    ∙ ap (λ x. (x, m)) (put_back-insert id (h, w) c s)

undo_upserts :
    (c : Contracts) (m : Storage) (us : List (ContractId × Bytes × Bytes))
    → IsSorted m
    → undo_all (apply_upserts m us).1 (c, (apply_upserts m us).0) ≡ (c, m)
unfolding apply_upserts undo_all undo_op
undo_upserts c m [] s = refl
undo_upserts c m ((cid, k, v) ∷ us) s =
    ap (undo_op (set cid k (lookup (cid, k) m)))
      (undo_upserts c (insert (cid, k) v m) us (insert-IsSorted (cid, k) v m s))
    ∙ ap (λ x. (c, x)) (put_back-insert (cid, k) v m s)

undo_deletes :
    (c : Contracts) (m : Storage) (ds : List (ContractId × Bytes))
    → IsSorted m
    → undo_all (apply_deletes m ds).1 (c, (apply_deletes m ds).0) ≡ (c, m)
unfolding apply_deletes undo_all undo_op
undo_deletes c m [] s = refl
undo_deletes c m ((cid, k) ∷ ds) s =
    let rest = undo_deletes c (remove (cid, k) m) ds (remove-IsSorted (cid, k) m s) in
    elim (Option-cases (lookup (cid, k) m)) [
      | inl e ↦ rw (e, undo_all) (rest ∙ ap (λ x. (c, x)) (remove_absent (cid, k) m s e))
      | inr (prev, e) ↦
          rw (e, undo_all)
            (ap (undo_op (delete cid k prev)) rest
              ∙ ap (λ x. (c, x))
                  (ap (λ o. put_back (cid, k) o (remove (cid, k) m)) (sym e)
                    ∙ put_back-remove (cid, k) m s))
    ]

-- Undoing what a commit recorded restores both maps.
pub undo_all-commit :
    (s : MemoryState) (commit : BlockCommit)
    → IsSorted s.contracts
    → IsSorted s.storage
    → undo_all
        (apply_commit s commit).1
        ((apply_commit s commit).0.contracts, (apply_commit s commit).0.storage)
      ≡ (s.contracts, s.storage)
unfolding apply_commit
undo_all-commit s commit sc ss =
    let c = apply_deploys s.contracts commit.deploys in
    let m = apply_upserts s.storage commit.upserts in
    let d = apply_deletes m.0 commit.deletes in
    undo_all-append m.1 (d.1 ++ c.1) (c.0, d.0)
    ∙ ap (undo_all m.1) (
        undo_all-append d.1 c.1 (c.0, d.0)
        ∙ ap (undo_all d.1) (undo_deploys s.contracts d.0 commit.deploys sc)
        ∙ undo_deletes s.contracts m.0 commit.deletes
            (apply_upserts-IsSorted s.storage commit.upserts ss))
    ∙ undo_upserts s.contracts s.storage commit.upserts ss
