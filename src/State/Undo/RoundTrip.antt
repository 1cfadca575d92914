-- ===== src/State/Undo/RoundTrip.antt =====
-- A journal that is written is read back, for crates/zalkanes-state/src/lib.rs.
use zalkanes.Base.{
  ℕ, ◌+◌, ◌*◌, ◌/◌, ◌≡◌, ◌≢◌, ◌≤◌, ◌<◌, ◌%◌, ◌^◌, refl, sym, ap, ◌∙◌, Bool, false, none, some, List,
  [], ◌∷◌, ◌++◌, length, length-append, take-append, drop-append, arith, All,
}
use mathlib.Core.List.{append_assoc, append-nil}
use zalkanes.Base.Bytes.{Bytes, to_be_16, to_be_32}
use zalkanes.Base.Order.{bytes_order, cmp_bytes}
use zalkanes.State.{UndoOp, set, delete, deploy}
use zalkanes.State.Undo.{
  encode_op, encode_ops, encode_undo, sized, read_sized, read_deploy, read_set, read_tagged,
  read_keyed, decode_op, decode_ops, decode_counted, decode_undo, be_32, undo_v2_marker,
}

-- The widths of the journal's fields.
abbrev pub OpFits : UndoOp → Type 0
OpFits (set contract key none) = (length contract ≡ 32) × (length key < 2 ^ 16)
OpFits (set contract key (some p)) =
    (length contract ≡ 32) × (length key < 2 ^ 16) × (length p < 2 ^ 32)
OpFits (delete contract key prev) =
    (length contract ≡ 32) × (length key < 2 ^ 16) × (length prev < 2 ^ 32)
OpFits (deploy contract none) = length contract ≡ 32
OpFits (deploy contract (some (code_hash, wasm))) =
    (length contract ≡ 32) × (length code_hash ≡ 32) × (length wasm < 2 ^ 32)

read_sized_lem :
    (p rest : Bytes) → length p < 2 ^ 32 → read_sized (sized p ++ rest) ≡ some (p, rest)
unfolding read_sized
read_sized_lem p rest h = ground (
  arith,
  length-append p rest,
  take-append (length p) p rest refl,
  drop-append (length p) p rest refl,
)

read_keyed_lem :
    (legacy : Bool) (tag : ℕ) (cid key tail : Bytes)
    → length key < 2 ^ 16
    → read_keyed legacy tag cid (to_be_16 (length key % 2 ^ 16) ++ (key ++ tail))
      ≡ read_tagged legacy tag cid key tail
unfolding read_keyed
read_keyed_lem legacy tag cid key tail h =
    let e : length key % 2 ^ 16 ≡ length key = omega arith in
    let w : length key / 256 % 256 * 256 + length key % 256 ≡ length key = omega arith in
    rw e (
      ground (
        arith,
        w,
        length-append key tail,
        take-append (length key) key tail refl,
        drop-append (length key) key tail refl,
      ))

decode_keyed :
    (legacy : Bool) (tag : ℕ) (cid tail : Bytes)
    → length cid ≡ 32
    → tag ≢ 3
    → decode_op legacy (tag ∷ (cid ++ tail)) ≡ read_keyed legacy tag cid tail
unfolding decode_op
decode_keyed legacy tag cid tail h n =
    rw (take-append 32 cid tail h, drop-append 32 cid tail h)
      (ground (arith, length-append cid tail))

decode_deploy :
    (legacy : Bool) (cid tail : Bytes)
    → length cid ≡ 32
    → decode_op legacy (3 ∷ (cid ++ tail)) ≡ read_deploy cid tail
unfolding decode_op
decode_deploy legacy cid tail h =
    rw (take-append 32 cid tail h, drop-append 32 cid tail h)
      (ground (arith, length-append cid tail))

-- A tagged operation with a key, in front of whatever follows.
keyed_assoc :
    (cid key x rest : Bytes)
    → (cid ++ (to_be_16 (length key % 2 ^ 16) ++ (key ++ x))) ++ rest
      ≡ cid ++ (to_be_16 (length key % 2 ^ 16) ++ (key ++ (x ++ rest)))
keyed_assoc cid key x rest =
    append_assoc cid (to_be_16 (length key % 2 ^ 16) ++ (key ++ x)) rest
    ∙ ap (λ t. cid ++ (to_be_16 (length key % 2 ^ 16) ++ t)) (append_assoc key x rest)

decode-keyed_op :
    (tag : ℕ) (cid key x rest : Bytes)
    → length cid ≡ 32
    → length key < 2 ^ 16
    → tag ≢ 3
    → decode_op false ((tag ∷ (cid ++ (to_be_16 (length key % 2 ^ 16) ++ (key ++ x)))) ++ rest)
      ≡ read_tagged false tag cid key (x ++ rest)
decode-keyed_op tag cid key x rest hc hk n =
    ap (λ t. decode_op false (tag ∷ t)) (keyed_assoc cid key x rest)
    ∙ decode_keyed false tag cid _ hc n
    ∙ read_keyed_lem false tag cid key (x ++ rest) hk

read_tagged-set_none :
    (cid key rest : Bytes)
    → read_tagged false 1 cid key ((0 ∷ []) ++ rest) ≡ some (set cid key none, rest)
unfolding read_tagged read_set
read_tagged-set_none cid key rest = refl

read_tagged-set_some :
    (cid key p rest : Bytes)
    → length p < 2 ^ 32
    → read_tagged false 1 cid key ((1 ∷ sized p) ++ rest) ≡ some (set cid key (some p), rest)
read_tagged-set_some cid key p rest h =
    let e = read_sized_lem p rest h in unfold read_tagged read_set in rw (e, read_set)

read_tagged-delete :
    (cid key p rest : Bytes)
    → length p < 2 ^ 32
    → read_tagged false 2 cid key (sized p ++ rest) ≡ some (delete cid key p, rest)
read_tagged-delete cid key p rest h =
    let e = read_sized_lem p rest h in unfold read_tagged in rw (e, read_tagged)

read_deploy-none :
    (cid rest : Bytes) → read_deploy cid ((0 ∷ []) ++ rest) ≡ some (deploy cid none, rest)
unfolding read_deploy
read_deploy-none cid rest = refl

read_deploy-known :
    (cid code_hash tail wasm rest : Bytes)
    → length code_hash ≡ 32
    → 4 ≤ length tail
    → read_sized tail ≡ some (wasm, rest)
    → read_deploy cid (1 ∷ (code_hash ++ tail)) ≡ some (deploy cid (some (code_hash, wasm)), rest)
unfolding read_deploy
read_deploy-known cid code_hash tail wasm rest hc ht e = ground (
  arith,
  length-append code_hash tail,
  take-append 32 code_hash tail hc,
  drop-append 32 code_hash tail hc,
)

read_deploy-some :
    (cid code_hash wasm rest : Bytes)
    → length code_hash ≡ 32
    → length wasm < 2 ^ 32
    → read_deploy cid ((1 ∷ (code_hash ++ sized wasm)) ++ rest)
      ≡ some (deploy cid (some (code_hash, wasm)), rest)
read_deploy-some cid code_hash wasm rest hc hw =
    ap (λ t. read_deploy cid (1 ∷ t)) (append_assoc code_hash (sized wasm) rest)
    ∙ read_deploy-known cid code_hash (sized wasm ++ rest) wasm rest hc sized-le
        (read_sized_lem wasm rest hw)
  where
    sized-le : 4 ≤ length (sized wasm ++ rest)
    sized-le = omega arith

-- Any operation whose fields fit their widths is read back, whatever follows it.
pub decode-encode_op :
    (op : UndoOp) (rest : Bytes)
    → OpFits op
    → decode_op false (encode_op op ++ rest) ≡ some (op, rest)
unfolding encode_op
decode-encode_op (set contract key none) rest f =
    decode-keyed_op 1 contract key (0 ∷ []) rest f.0 f.1 (omega arith)
    ∙ read_tagged-set_none contract key rest
decode-encode_op (set contract key (some p)) rest f =
    decode-keyed_op 1 contract key (1 ∷ sized p) rest f.0 f.1 (omega arith)
    ∙ read_tagged-set_some contract key p rest f.2
decode-encode_op (delete contract key prev) rest f =
    decode-keyed_op 2 contract key (sized prev) rest f.0 f.1 (omega arith)
    ∙ read_tagged-delete contract key prev rest f.2
decode-encode_op (deploy contract none) rest f =
    ap (λ t. decode_op false (3 ∷ t)) (append_assoc contract (0 ∷ []) rest)
    ∙ decode_deploy false contract ((0 ∷ []) ++ rest) f
    ∙ read_deploy-none contract rest
decode-encode_op (deploy contract (some (code_hash, wasm))) rest f =
    ap (λ t. decode_op false (3 ∷ t)) (append_assoc contract (1 ∷ (code_hash ++ sized wasm)) rest)
    ∙ decode_deploy false contract ((1 ∷ (code_hash ++ sized wasm)) ++ rest) f.0
    ∙ read_deploy-some contract code_hash wasm rest f.1 f.2

pub decode-encode_ops :
    (ops : List UndoOp) (rest : Bytes)
    → All OpFits ops
    → decode_ops false (length ops) (encode_ops ops ++ rest) ≡ ops
unfolding decode_ops encode_ops
decode-encode_ops [] rest f = refl
decode-encode_ops (op ∷ ops) rest f =
    let e = decode-encode_op op (encode_ops ops ++ rest) f.0 in
    rw (append_assoc (encode_op op) (encode_ops ops) rest, e, decode_ops)
      (ap (λ t. op ∷ t) (decode-encode_ops ops rest f.1))

decode_undo-v2 :
    (a b c d : ℕ) (rest : Bytes)
    → decode_undo (undo_v2_marker ++ (a ∷ b ∷ c ∷ d ∷ rest))
      ≡ decode_counted false (a ∷ b ∷ c ∷ d ∷ rest)
unfolding decode_undo cmp_bytes
decode_undo-v2 a b c d rest = ground arith

decode_counted_lem :
    (ops : List UndoOp)
    → length ops < 2 ^ 32
    → decode_counted false (to_be_32 (length ops % 2 ^ 32) ++ encode_ops ops)
      ≡ decode_ops false (length ops) (encode_ops ops)
unfolding decode_counted
decode_counted_lem ops h = ap (λ t. decode_ops false t (encode_ops ops)) count
  where
    count : be_32 (to_be_32 (length ops % 2 ^ 32) ++ encode_ops ops) ≡ length ops
    count = omega arith

-- Decoding an encoded journal returns its operations, in order, when every field fits its width
-- and there are fewer than 2^32 of them.
pub decode_undo-encode :
    (ops : List UndoOp) → All OpFits ops → length ops < 2 ^ 32 → decode_undo (encode_undo ops) ≡ ops
unfolding encode_undo
decode_undo-encode ops f h =
    decode_undo-v2 _ _ _ _ (encode_ops ops)
    ∙ decode_counted_lem ops h
    ∙ ap (decode_ops false (length ops)) (sym (append-nil (encode_ops ops)))
    ∙ decode-encode_ops ops [] f
