-- ===== src/State/Undo.antt =====
-- `encode_undo` and `decode_undo` of crates/zalkanes-state/src/lib.rs. A `break` of the decoding
-- loop is `none`: the operations read so far are kept.
pub mod RoundTrip
mod Tests
use zalkanes.Base.{
  ℕ, zero, suc, ◌+◌, ◌%◌, ◌^◌, Bool, true, false, not, ◌&&◌, Option, none, some, List, [], ◌∷◌,
  ◌++◌, ltb, ◌==◌, if◌then◌else◌, length, take, drop, get_or,
}
use zalkanes.Base.Bytes.{Bytes, to_be_16, to_be_32, from_be_16, from_be_32}
use zalkanes.Base.Order.{same, bytes_order}
use zalkanes.State.{UndoOp, set, delete, deploy}

abbrev pub undo_v2_marker : Bytes
undo_v2_marker = 0xFF ∷ 0xFF ∷ 0xFF ∷ 0xFE ∷ []

-- A length of four bytes and the bytes.
abbrev pub sized : Bytes → Bytes
sized b = to_be_32 (length b % 2 ^ 32) ++ b

unfoldable pub encode_op : UndoOp → Bytes
encode_op (set contract key none) =
    0x01 ∷ (contract ++ (to_be_16 (length key % 2 ^ 16) ++ (key ++ (0x00 ∷ []))))
encode_op (set contract key (some p)) =
    0x01 ∷ (contract ++ (to_be_16 (length key % 2 ^ 16) ++ (key ++ (0x01 ∷ sized p))))
encode_op (delete contract key prev) =
    0x02 ∷ (contract ++ (to_be_16 (length key % 2 ^ 16) ++ (key ++ sized prev)))
encode_op (deploy contract none) = 0x03 ∷ (contract ++ (0x00 ∷ []))
encode_op (deploy contract (some (code_hash, wasm))) =
    0x03 ∷ (contract ++ (0x01 ∷ (code_hash ++ sized wasm)))

unfoldable pub encode_ops : List UndoOp → Bytes
encode_ops [] = []
encode_ops (op ∷ ops) = encode_op op ++ encode_ops ops

unfoldable pub encode_undo : List UndoOp → Bytes
encode_undo ops = undo_v2_marker ++ (to_be_32 (length ops % 2 ^ 32) ++ encode_ops ops)

abbrev pub be_32 : Bytes → ℕ
be_32 b = from_be_32 (get_or b 0 0) (get_or b 1 0) (get_or b 2 0) (get_or b 3 0)

-- Four bytes of length, that many bytes, and what is left.
unfoldable pub read_sized : Bytes → Option (Bytes × Bytes)
read_sized b =
    let n = be_32 b in
    let rest = drop 4 b in
    if ltb (length b) 4
    then none
    else if ltb (length rest) n
    then none
    else some (take n rest, drop n rest)

-- The optional replaced contract of a deployment.
unfoldable pub read_deploy : Bytes → Bytes → Option (UndoOp × Bytes)
read_deploy cid [] = none
read_deploy cid (has_prev ∷ b) =
    if has_prev == 0x01
    then (if ltb (length b) 36 then none else elim (read_sized (drop 32 b)) [
      | none ↦ none
      | some (wasm, rest) ↦ some (deploy cid (some (take 32 b, wasm)), rest)
    ])
    else some (deploy cid none, b)

-- A legacy journal writes a deployment as a `Set` of the empty key with no value before it.
unfoldable pub read_set : Bool → Bytes → Bytes → Bytes → Option (UndoOp × Bytes)
read_set legacy cid key [] = none
read_set legacy cid key (has_prev ∷ b) =
    if has_prev == 0x01
    then elim (read_sized b) [ none ↦ none | some (p, rest) ↦ some (set cid key (some p), rest) ]
    else if legacy && (length key == 0)
    then some (deploy cid none, b)
    else some (set cid key none, b)

-- What follows the key, by tag.
unfoldable pub read_tagged : Bool → ℕ → Bytes → Bytes → Bytes → Option (UndoOp × Bytes)
read_tagged legacy tag cid key b =
    if tag == 0x01
    then read_set legacy cid key b
    else if tag == 0x02
    then elim (read_sized b) [ none ↦ none | some (prev, rest) ↦ some (delete cid key prev, rest) ]
    else none

-- The key, and what follows it.
unfoldable pub read_keyed : Bool → ℕ → Bytes → Bytes → Option (UndoOp × Bytes)
read_keyed legacy tag cid b =
    let key_len = from_be_16 (get_or b 0 0) (get_or b 1 0) in
    let rest = drop 2 b in
    if ltb (length b) 2
    then none
    else if ltb (length rest) key_len
    then none
    else read_tagged legacy tag cid (take key_len rest) (drop key_len rest)

-- One round of the decoding loop.
unfoldable pub decode_op : Bool → Bytes → Option (UndoOp × Bytes)
decode_op legacy [] = none
decode_op legacy (tag ∷ b) =
    if ltb (length b) 32
    then none
    else if tag == 0x03
    then read_deploy (take 32 b) (drop 32 b)
    else read_keyed legacy tag (take 32 b) (drop 32 b)

unfoldable pub decode_ops : Bool → ℕ → Bytes → List UndoOp
decode_ops legacy zero b = []
decode_ops legacy (suc n) b = elim (decode_op legacy b) [
  | none ↦ []
  | some (op, rest) ↦ op ∷ decode_ops legacy n rest
]

-- The count and the operations behind it.
unfoldable pub decode_counted : Bool → Bytes → List UndoOp
decode_counted legacy b = decode_ops legacy (be_32 b) (drop 4 b)

unfoldable pub decode_undo : Bytes → List UndoOp
decode_undo b =
    if ltb (length b) 4
    then []
    else if not (same (take 4 b) undo_v2_marker)
    then decode_counted true b
    else if ltb (length (drop 4 b)) 4
    then []
    else decode_counted false (drop 4 b)
