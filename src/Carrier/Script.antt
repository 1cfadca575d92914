-- ===== src/Carrier/Script.antt =====
-- The readers of pushes in crates/zalkanes-carrier/src/lib.rs. `some (bytes, n)` says that `n`
-- bytes of the script are consumed.
use zalkanes.Base.{
  ℕ, zero, suc, ◌+◌, ◌*◌, ◌-◌, ◌&&◌, not, Option, none, some, List, [], ◌∷◌, ◌++◌, ltb, leb, ◌==◌,
  if◌then◌else◌, length, take, drop, get_or, ◌>>=◌,
}
use zalkanes.Base.Bytes.{Bytes}

-- `script.get(i)?`
unfoldable pub byte? : Bytes → ℕ → Option ℕ
byte? script i = if ltb i (length script) then some (get_or script i 0) else none

-- `n` bytes behind an opcode and its length field of `head` bytes.
unfoldable pub pushed : Bytes → ℕ → ℕ → Option (Bytes × ℕ)
pushed script head n =
    if ltb (length script) (head + n) then none else some (take n (drop head script), head + n)

-- The `match op`.
unfoldable pub parse_opcode : ℕ → Bytes → Option (Bytes × ℕ)
unfolding byte? pushed
parse_opcode op script =
    if op == 0x00
    then some ([], 1)
    else if leb 0x01 op && leb op 0x4b
    then pushed script 1 op
    else if op == 0x4c
    then (byte? script 1 >>= λ n. pushed script 2 n)
    else if op == 0x4d
    then (do a ← byte? script 1; b ← byte? script 2; pushed script 3 (a + b * 256))
    else if op == 0x4e
    then (do
      a ← byte? script 1
      b ← byte? script 2
      c ← byte? script 3
      d ← byte? script 4
      pushed script 5 (a + b * 256 + c * 65536 + d * 16777216))
    else none

unfoldable pub parse_push : Bytes → Option (Bytes × ℕ)
unfolding byte? parse_opcode
parse_push script = byte? script 0 >>= λ op. parse_opcode op script

unfoldable pub extract_op_return_data : Bytes → Option Bytes
extract_op_return_data [] = none
extract_op_return_data (op ∷ rest) = if not (op == 0x6a) then none else elim rest [
  | [] ↦ some []
  | b ∷ more ↦ do
    (payload, consumed) ← parse_push (b ∷ more)
    if consumed == length (b ∷ more) then some payload else none
]

-- The `while` loop; each round consumes a byte at least, so the script's length is fuel enough.
unfoldable pub push_loop : ℕ → Bytes → List Bytes
push_loop zero script = []
push_loop (suc fuel) [] = []
push_loop (suc fuel) (b ∷ script) = elim (parse_push (b ∷ script)) [
  | none ↦ []
  | some (payload, consumed) ↦ payload ∷ push_loop fuel (drop consumed (b ∷ script))
]

unfoldable pub parse_script_pushes : Bytes → List Bytes
parse_script_pushes script = push_loop (length script) script

unfoldable pub concat : List Bytes → Bytes
concat [] = []
concat (b ∷ bs) = b ++ concat bs

-- The first push, if it is a single byte.
unfoldable pub single_byte : Bytes → Option ℕ
single_byte (b ∷ []) = some b
single_byte _ = none

unfoldable pub chunk_from_pushes : List Bytes → Option (ℕ × Bytes)
chunk_from_pushes [] = none
chunk_from_pushes (first ∷ pushes) = if ltb (length (first ∷ pushes)) 4 then none else (do
  index ← single_byte first
  some (index, concat (take (length (first ∷ pushes) - 2 - 1) pushes)))

unfoldable pub chunk_from_script_sig : Bytes → Option (ℕ × Bytes)
chunk_from_script_sig script = chunk_from_pushes (parse_script_pushes script)
