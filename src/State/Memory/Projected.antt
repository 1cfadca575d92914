-- ===== src/State/Memory/Projected.antt =====
-- `projected_root` foretells the root that `commit_block` computes.
use zalkanes.Base.{◌≡◌, refl, ap, ap₂, ◌∙◌, some, none, List, [], ◌∷◌, arith}
use zalkanes.Base.Bytes.{Bytes}
use zalkanes.Base.Order.{KeyOrder, bytes_order, pair_order}
use zalkanes.Base.OrdMap.{
  OrdMap, lookup, insert, remove, IsSorted, insert-IsSorted, lookup-insert, lookup-Above,
  eq_of_lookup,
}
use zalkanes.Core.{ContractId, CodeHash}
use zalkanes.State.{BlockCommit, Contracts, Storage, root_from_leaves, collect_leaves}
use zalkanes.State.Memory.{
  MemoryState, apply_deploys, apply_upserts, apply_deletes, apply_commit, commit_block,
  insert_deploys, insert_upserts, remove_deletes, copy_entries, projected_root, compute_root,
}
use zalkanes.State.Memory.Rollback.{IsValid}

module _ {ℓ κ} {K : Type ℓ} {V : Type κ} ⦃o : KeyOrder K⦄ where
  copy_entries-IsSorted : (acc m : OrdMap K V) → IsSorted acc → IsSorted (copy_entries acc m)
  unfolding copy_entries
  copy_entries-IsSorted acc [] s = s
  copy_entries-IsSorted acc ((k, v) ∷ m) s =
      copy_entries-IsSorted (insert k v acc) m (insert-IsSorted k v acc s)

  lookup-copy_entries :
      (q : K) (acc m : OrdMap K V)
      → IsSorted m
      → lookup q (copy_entries acc m) ≡ elim (lookup q m) [ some v ↦ some v | none ↦ lookup q acc ]
  unfolding copy_entries lookup
  lookup-copy_entries q acc [] s = refl
  lookup-copy_entries q acc ((k, v) ∷ m) s = ground (
    arith,
    lookup-copy_entries q (insert k v acc) m s.1,
    lookup-insert k v q acc,
    lookup-Above k m s.0,
    o.cmp_eq q k,
  )

  copy_entries_lem : (m : OrdMap K V) → IsSorted m → copy_entries [] m ≡ m
  copy_entries_lem m s =
      eq_of_lookup _ m (copy_entries-IsSorted [] m tt) s
        λ q. unfold lookup in ground (arith, lookup-copy_entries q [] m s)

insert_deploys_lem :
    (m : Contracts) (ds : List (ContractId × CodeHash × Bytes))
    → insert_deploys m ds ≡ (apply_deploys m ds).0
unfolding insert_deploys apply_deploys
insert_deploys_lem m [] = refl
insert_deploys_lem m ((id, h, w) ∷ ds) = insert_deploys_lem (insert id (h, w) m) ds

insert_upserts_lem :
    (m : Storage) (us : List (ContractId × Bytes × Bytes))
    → insert_upserts m us ≡ (apply_upserts m us).0
unfolding insert_upserts apply_upserts
insert_upserts_lem m [] = refl
insert_upserts_lem m ((cid, k, v) ∷ us) = insert_upserts_lem (insert (cid, k) v m) us

remove_deletes_lem :
    (m : Storage) (ds : List (ContractId × Bytes)) → remove_deletes m ds ≡ (apply_deletes m ds).0
unfolding remove_deletes apply_deletes
remove_deletes_lem m [] = refl
remove_deletes_lem m ((cid, k) ∷ ds) = remove_deletes_lem (remove (cid, k) m) ds

-- On a well-formed store the projected root of a commit is the root that the commit returns, and
-- the root of the store after it.
pub projected_root-commit :
    (blake2b : Bytes → Bytes → Bytes) (s : MemoryState) (c : BlockCommit)
    → IsValid s
    → (projected_root blake2b s c ≡ (commit_block blake2b s c).1)
      × (compute_root blake2b (commit_block blake2b s c).0 ≡ (commit_block blake2b s c).1)
unfolding projected_root commit_block compute_root apply_commit
projected_root-commit blake2b s c v = (
  ap₂ (λ x y. root_from_leaves blake2b (collect_leaves blake2b x y))
      (ap (λ m. insert_deploys m c.deploys) (copy_entries_lem s.contracts v.contracts_sorted)
        ∙ insert_deploys_lem s.contracts c.deploys)
      (ap (λ m. remove_deletes m c.deletes)
          (ap (λ m. insert_upserts m c.upserts) (copy_entries_lem s.storage v.storage_sorted)
            ∙ insert_upserts_lem s.storage c.upserts)
        ∙ remove_deletes_lem _ c.deletes),
  refl,
)
