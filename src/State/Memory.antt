-- ===== src/State/Memory.antt =====
-- `MemoryState` of crates/zalkanes-state/src/lib.rs, with `projected_root`. A method that changes
-- the store returns the new store; `commit_block` and `rollback_to` of this store never fail.
pub mod Reads
pub mod Undoing
pub mod Heights
pub mod Rollback
pub mod Projected
mod Tests
use zalkanes.Base.{
  ℕ, ◌<◌, ltb, leb, ◌==◌, Bool, true, false, Option, none, some, List, [], ◌∷◌, ◌++◌, map,
  if◌then◌else◌,
}
use zalkanes.Base.Bytes.{Bytes}
use zalkanes.Base.Order.{KeyOrder, nat_order, bytes_order, pair_order}
use zalkanes.Base.OrdMap.{OrdMap, lookup, insert, remove, put_back}
use zalkanes.Core.{ContractId, CodeHash, BlockHash, BlockHeight, StateRoot, TxId, Execution}
use zalkanes.State.{
  BlockCommit, UndoOp, set, delete, deploy, HeightRecord, Contracts, Storage, collect_leaves,
  root_from_leaves,
}

pub record Metadata : Type 0 where
  pub indexed_height : Option BlockHeight
  pub indexed_block_hash : Option BlockHash
  pub persisted_root : Option StateRoot

abbrev pub no_metadata : Metadata
no_metadata = record { indexed_height = none; indexed_block_hash = none; persisted_root = none }

pub record MemoryState : Type 0 where
  pub contracts : Contracts
  pub storage : Storage
  pub metadata : Metadata
  pub history : List HeightRecord
  pub undo : OrdMap BlockHeight (List UndoOp)
  pub executions : OrdMap TxId Execution

-- `MemoryState::new`
abbrev pub empty : MemoryState
empty = record {
  contracts = [];
  storage = [];
  metadata = no_metadata;
  history = [];
  undo = [];
  executions = [];
}

-- The readers of `StateStore`.
unfoldable pub get_contract : MemoryState → ContractId → Option (CodeHash × Bytes)
get_contract s id = lookup id s.contracts

unfoldable pub has_contract : MemoryState → ContractId → Bool
has_contract s id = elim (lookup id s.contracts) [ some _ ↦ true | none ↦ false ]

unfoldable pub storage_get : MemoryState → ContractId → Bytes → Option Bytes
storage_get s contract key = lookup (contract, key) s.storage

-- The three loops of `commit_block` over the maps, each with what it records for undo.
unfoldable pub apply_deploys :
    Contracts → List (ContractId × CodeHash × Bytes) → Contracts × List UndoOp
apply_deploys m [] = (m, [])
apply_deploys m ((id, code_hash, wasm) ∷ ds) =
    let (m', ops) = apply_deploys (insert id (code_hash, wasm) m) ds in
    (m', deploy id (lookup id m) ∷ ops)

unfoldable pub apply_upserts : Storage → List (ContractId × Bytes × Bytes) → Storage × List UndoOp
apply_upserts m [] = (m, [])
apply_upserts m ((cid, key, value) ∷ us) =
    let (m', ops) = apply_upserts (insert (cid, key) value m) us in
    (m', set cid key (lookup (cid, key) m) ∷ ops)

-- A deletion of a missing key records nothing.
unfoldable pub apply_deletes : Storage → List (ContractId × Bytes) → Storage × List UndoOp
apply_deletes m [] = (m, [])
apply_deletes m ((cid, key) ∷ ds) =
    let (m', ops) = apply_deletes (remove (cid, key) m) ds in
    (m', elim (lookup (cid, key) m) [ some prev ↦ delete cid key prev ∷ ops | none ↦ ops ])

-- One undo operation, on both maps.
unfoldable pub undo_op : UndoOp → Contracts × Storage → Contracts × Storage
undo_op (set contract key prev) (c, s) = (c, put_back (contract, key) prev s)
undo_op (delete contract key prev) (c, s) = (c, insert (contract, key) prev s)
undo_op (deploy contract prev) (c, s) = (put_back contract prev c, s)

-- `for op in ops.into_iter().rev()`: the last operation is undone first.
unfoldable pub undo_all : List UndoOp → Contracts × Storage → Contracts × Storage
undo_all [] m = m
undo_all (op ∷ ops) m = undo_op op (undo_all ops m)

abbrev pub keys : OrdMap BlockHeight (List UndoOp) → List BlockHeight
keys [] = []
keys ((h, ops) ∷ m) = h ∷ keys m

-- `filter(|h| *h > target_height)`
unfoldable pub heights_above : BlockHeight → List BlockHeight → List BlockHeight
heights_above target [] = []
heights_above target (h ∷ hs) =
    let rest = heights_above target hs in if ltb target h then h ∷ rest else rest

-- `sort_unstable_by(|a, b| b.cmp(a))`
unfoldable pub insert_descending : BlockHeight → List BlockHeight → List BlockHeight
insert_descending x [] = x ∷ []
insert_descending x (y ∷ ys) =
    let rest = insert_descending x ys in if ltb x y then y ∷ rest else x ∷ y ∷ ys

unfoldable pub sort_descending : List BlockHeight → List BlockHeight
sort_descending [] = []
sort_descending (x ∷ xs) = insert_descending x (sort_descending xs)

-- `history.retain(|r| r.height <= target_height)`
unfoldable pub retain : BlockHeight → List HeightRecord → List HeightRecord
retain target [] = []
retain target (r ∷ rs) =
    let rest = retain target rs in if leb r.height target then r ∷ rest else rest

-- The body of the loop of `rollback_to`.
unfoldable pub rollback_height : BlockHeight → BlockHeight → MemoryState → MemoryState
rollback_height target h s = elim (lookup h s.undo) [
  | none ↦ record s { history = retain target s.history }
  | some ops ↦
      let (c, m) = undo_all ops (s.contracts, s.storage) in
      record s {
        contracts = c;
        storage = m;
        undo = remove h s.undo;
        history = retain target s.history;
      }
]

unfoldable pub rollback_loop : BlockHeight → List BlockHeight → MemoryState → MemoryState
rollback_loop target [] s = s
rollback_loop target (h ∷ hs) s = rollback_loop target hs (rollback_height target h s)

-- The metadata that the last record of the history gives.
unfoldable pub last_metadata : List HeightRecord → Metadata
last_metadata [] = no_metadata
last_metadata (r ∷ []) = record {
  indexed_height = some r.height;
  indexed_block_hash = some r.zcash_block_hash;
  persisted_root = some r.state_root;
}
last_metadata (r ∷ r' ∷ rs) = last_metadata (r' ∷ rs)

unfoldable pub rollback_to : MemoryState → BlockHeight → MemoryState
rollback_to s target =
    let s' = rollback_loop target (sort_descending (heights_above target (keys s.undo))) s in
    record s' { metadata = last_metadata s'.history }

unfoldable pub save_executions : MemoryState → List Execution → MemoryState
save_executions s [] = s
save_executions s (e ∷ es) =
    save_executions (record s { executions = insert e.txid e s.executions }) es

unfoldable pub execution : MemoryState → TxId → Option Execution
execution s txid = lookup txid s.executions

-- `values().filter(|e| e.block_height == height)`
unfoldable pub at_height : BlockHeight → OrdMap TxId Execution → List Execution
at_height height [] = []
at_height height ((txid, e) ∷ es) =
    let rest = at_height height es in if e.block_height == height then e ∷ rest else rest

unfoldable pub executions_at_height : MemoryState → BlockHeight → List Execution
executions_at_height s height = at_height height s.executions

-- Copying a store's entries into a new map, one `insert` for each.
unfoldable pub copy_entries {ℓ κ} :
    {K : Type ℓ} {V : Type κ} ⦃o : KeyOrder K⦄ → OrdMap K V → OrdMap K V → OrdMap K V
copy_entries acc [] = acc
copy_entries acc ((k, v) ∷ m) = copy_entries (insert k v acc) m

-- What `commit_block` writes before the root is taken.
unfoldable pub apply_commit : MemoryState → BlockCommit → MemoryState × List UndoOp
apply_commit s commit =
    let (c, deploy_ops) = apply_deploys s.contracts commit.deploys in
    let (m, set_ops) = apply_upserts s.storage commit.upserts in
    let (m', delete_ops) = apply_deletes m commit.deletes in
    (record s { contracts = c; storage = m' }, set_ops ++ (delete_ops ++ deploy_ops))

-- The loops of `projected_root`.
unfoldable pub insert_deploys : Contracts → List (ContractId × CodeHash × Bytes) → Contracts
insert_deploys m [] = m
insert_deploys m ((id, code_hash, wasm) ∷ ds) = insert_deploys (insert id (code_hash, wasm) m) ds

unfoldable pub insert_upserts : Storage → List (ContractId × Bytes × Bytes) → Storage
insert_upserts m [] = m
insert_upserts m ((cid, key, value) ∷ us) = insert_upserts (insert (cid, key) value m) us

unfoldable pub remove_deletes : Storage → List (ContractId × Bytes) → Storage
remove_deletes m [] = m
remove_deletes m ((cid, key) ∷ ds) = remove_deletes (remove (cid, key) m) ds

module _ (blake2b : Bytes → Bytes → Bytes) where
  unfoldable pub compute_root : MemoryState → StateRoot
  compute_root s = root_from_leaves blake2b (collect_leaves blake2b s.contracts s.storage)

  unfoldable pub commit_block : MemoryState → BlockCommit → MemoryState × StateRoot
  commit_block s commit =
      let (s', ops) = apply_commit s commit in
      let root = compute_root s' in
      (
        record s' {
          metadata = record {
            indexed_height = some commit.height;
            indexed_block_hash = some commit.zcash_block_hash;
            persisted_root = some root;
          };
          history =
              s.history
              ++ (record {
                height = commit.height;
                zcash_block_hash = commit.zcash_block_hash;
                state_root = root;
              }
                  ∷ []);
          undo = insert commit.height ops s.undo;
        },
        root,
      )

  -- `projected_root`: the root after `commit`, worked out on copies of the maps.
  unfoldable pub projected_root : MemoryState → BlockCommit → StateRoot
  projected_root s commit =
      let c = insert_deploys (copy_entries [] s.contracts) commit.deploys in
      let m = insert_upserts (copy_entries [] s.storage) commit.upserts in
      root_from_leaves blake2b (collect_leaves blake2b c (remove_deletes m commit.deletes))
