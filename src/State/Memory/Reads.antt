-- ===== src/State/Memory/Reads.antt =====
-- What the store reads after a commit, in terms of the commit's lists.
use zalkanes.Base.{
  ◌≡◌, refl, ap, ◌∙◌, Bool, false, Option, some, none, List, [], ◌∷◌, arith, if◌then◌else◌, ◌||◌,
}
use zalkanes.Base.Bytes.{Bytes}
use zalkanes.Base.Order.{bytes_order, pair_order, same}
use zalkanes.Base.OrdMap.{lookup, insert, remove, lookup-insert, lookup-remove}
use zalkanes.Core.{ContractId, CodeHash}
use zalkanes.State.{BlockCommit, Contracts, Storage}
use zalkanes.State.Memory.{
  MemoryState, apply_deploys, apply_upserts, apply_deletes, apply_commit, commit_block, storage_get,
  get_contract,
}

abbrev pub or_else {ℓ} : {A : Type ℓ} → Option A → Option A → Option A
or_else (some a) b = some a
or_else none b = b

-- The value of the last upsert of a key.
unfoldable pub last_upsert : ContractId × Bytes → List (ContractId × Bytes × Bytes) → Option Bytes
last_upsert q [] = none
last_upsert q ((cid, key, value) ∷ us) =
    or_else (last_upsert q us) (if same q (cid, key) then some value else none)

unfoldable pub deleted : ContractId × Bytes → List (ContractId × Bytes) → Bool
deleted q [] = false
deleted q (k ∷ ds) = same q k || deleted q ds

unfoldable pub last_deploy :
    ContractId → List (ContractId × CodeHash × Bytes) → Option (CodeHash × Bytes)
last_deploy q [] = none
last_deploy q ((id, code_hash, wasm) ∷ ds) =
    or_else (last_deploy q ds) (if same q id then some (code_hash, wasm) else none)

lookup-apply_upserts :
    (q : ContractId × Bytes) (m : Storage) (us : List (ContractId × Bytes × Bytes))
    → lookup q (apply_upserts m us).0 ≡ or_else (last_upsert q us) (lookup q m)
unfolding apply_upserts last_upsert
lookup-apply_upserts q m [] = refl
lookup-apply_upserts q m ((cid, k, v) ∷ us) =
    ground (arith, lookup-apply_upserts q (insert (cid, k) v m) us, lookup-insert (cid, k) v q m)

lookup-apply_deletes :
    (q : ContractId × Bytes) (m : Storage) (ds : List (ContractId × Bytes))
    → lookup q (apply_deletes m ds).0 ≡ (if deleted q ds then none else lookup q m)
unfolding apply_deletes deleted
lookup-apply_deletes q m [] = refl
lookup-apply_deletes q m ((cid, k) ∷ ds) =
    ground (arith, lookup-apply_deletes q (remove (cid, k) m) ds, lookup-remove (cid, k) q m)

lookup-apply_deploys :
    (q : ContractId) (m : Contracts) (ds : List (ContractId × CodeHash × Bytes))
    → lookup q (apply_deploys m ds).0 ≡ or_else (last_deploy q ds) (lookup q m)
unfolding apply_deploys last_deploy
lookup-apply_deploys q m [] = refl
lookup-apply_deploys q m ((id, h, w) ∷ ds) =
    ground (arith, lookup-apply_deploys q (insert id (h, w) m) ds, lookup-insert id (h, w) q m)

module _ (blake2b : Bytes → Bytes → Bytes) (s : MemoryState) (c : BlockCommit) where
  -- After a commit a storage key reads as missing if the commit deletes it, whether or not it
  -- also upserts it; else it reads its last upsert, and else what it read before.
  pub storage_get-commit :
      (id : ContractId) (key : Bytes)
      → storage_get (commit_block blake2b s c).0 id key ≡ (
          if deleted (id, key) c.deletes
          then none
          else or_else (last_upsert (id, key) c.upserts) (storage_get s id key))
  unfolding storage_get commit_block apply_commit
  storage_get-commit id key =
      lookup-apply_deletes (id, key) (apply_upserts s.storage c.upserts).0 c.deletes
      ∙ ap (λ o. if deleted (id, key) c.deletes then none else o)
          (lookup-apply_upserts (id, key) s.storage c.upserts)

  -- After a commit a contract id reads its last deployment in the commit, and else what it read
  -- before.
  pub get_contract-commit :
      (id : ContractId)
      → get_contract (commit_block blake2b s c).0 id
        ≡ or_else (last_deploy id c.deploys) (get_contract s id)
  unfolding get_contract commit_block apply_commit
  get_contract-commit id = lookup-apply_deploys id s.contracts c.deploys
