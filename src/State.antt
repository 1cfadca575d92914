-- ===== src/State.antt =====
-- crates/zalkanes-state/src/lib.rs: the commit of a block, the undo journal's operations and the
-- hashing of state leaves. `Memory` is the in-memory store, `Undo` the journal's binary form.
-- BLAKE2b-256 with a personalization is the parameter `blake2b`.
pub mod Memory
pub mod Undo
use Prim.Native.Nat.Ordering.{gt}
use zalkanes.Base.{ℕ, ◌%◌, ◌^◌, Option, List, [], ◌∷◌, ◌++◌, length, map, if◌then◌else◌}
use zalkanes.Base.Bytes.{Bytes, to_be_16, to_be_32}
use zalkanes.Base.Order.{cmp_bytes, bytes_order}
use zalkanes.Base.OrdMap.{OrdMap}
use zalkanes.Core.{ContractId, CodeHash, BlockHash, BlockHeight, StateRoot}

-- `deploys`, `upserts` and `deletes` keep the order of the source's vectors.
pub record BlockCommit : Type 0 where
  pub height : BlockHeight
  pub zcash_block_hash : BlockHash
  pub deploys : List (ContractId × CodeHash × Bytes)
  pub upserts : List (ContractId × Bytes × Bytes)
  pub deletes : List (ContractId × Bytes)

pub data UndoOp : Type 0 where
  set : ContractId → Bytes → Option Bytes → UndoOp
  delete : ContractId → Bytes → Bytes → UndoOp
  deploy : ContractId → Option (CodeHash × Bytes) → UndoOp

pub record HeightRecord : Type 0 where
  pub height : BlockHeight
  pub zcash_block_hash : BlockHash
  pub state_root : StateRoot

-- The two maps of the state engine: contracts by id, and storage by id and key.
abbrev pub Contracts : Type 0
Contracts = OrdMap ContractId (CodeHash × Bytes)

abbrev pub Storage : Type 0
Storage = OrdMap (ContractId × Bytes) Bytes

abbrev pub state_leaf_personalization : Bytes
state_leaf_personalization =
    b'Z' ∷ b'a' ∷ b'l' ∷ b'k' ∷ b'S' ∷ b't' ∷ b'a' ∷ b't' ∷ b'e' ∷ b'L' ∷ b'e' ∷ b'a' ∷ b'f' ∷ b'0'
    ∷ 0x20 ∷ 0x20 ∷ []

abbrev pub state_root_personalization : Bytes
state_root_personalization =
    b'Z' ∷ b'a' ∷ b'l' ∷ b'k' ∷ b'S' ∷ b't' ∷ b'a' ∷ b't' ∷ b'e' ∷ b'R' ∷ b'o' ∷ b'o' ∷ b't' ∷ b'0'
    ∷ 0x20 ∷ 0x20 ∷ []

-- What the leaf hashes read: `contract_leaf` and `storage_leaf`.
unfoldable pub contract_input : ContractId → CodeHash → Bytes → Bytes
contract_input contract_id code_hash wasm =
    contract_id ++ (code_hash ++ (to_be_32 (length wasm % 2 ^ 32) ++ wasm))

unfoldable pub storage_input : ContractId → Bytes → Bytes → Bytes
storage_input contract_id key value =
    contract_id
    ++ (to_be_16 (length key % 2 ^ 16) ++ (key ++ (to_be_32 (length value % 2 ^ 32) ++ value)))

-- `sort_unstable` on leaves.
unfoldable pub insert_leaf : Bytes → List Bytes → List Bytes
insert_leaf x [] = x ∷ []
insert_leaf x (y ∷ ys) = elim (cmp_bytes x y) [ gt ↦ y ∷ insert_leaf x ys | _ ↦ x ∷ y ∷ ys ]

unfoldable pub sort_leaves : List Bytes → List Bytes
sort_leaves [] = []
sort_leaves (x ∷ xs) = insert_leaf x (sort_leaves xs)

unfoldable pub join_leaves : List Bytes → Bytes
join_leaves [] = []
join_leaves (x ∷ xs) = x ++ join_leaves xs

module _ (blake2b : Bytes → Bytes → Bytes) where
  unfoldable pub contract_leaf : ContractId → CodeHash → Bytes → Bytes
  contract_leaf contract_id code_hash wasm =
      blake2b state_leaf_personalization (contract_input contract_id code_hash wasm)

  unfoldable pub storage_leaf : ContractId → Bytes → Bytes → Bytes
  storage_leaf contract_id key value =
      blake2b state_leaf_personalization (storage_input contract_id key value)

  unfoldable pub root_from_leaves : List Bytes → StateRoot
  root_from_leaves leaves = blake2b state_root_personalization (join_leaves (sort_leaves leaves))

  -- The leaves of all contracts, then of all storage entries.
  unfoldable pub collect_leaves : Contracts → Storage → List Bytes
  collect_leaves contracts storage =
      map (λ e. contract_leaf e.0 e.1.0 e.1.1) contracts
      ++ map (λ e. storage_leaf e.0.0 e.0.1 e.1) storage
