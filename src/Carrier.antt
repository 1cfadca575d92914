-- ===== src/Carrier.antt =====
-- crates/zalkanes-carrier/src/lib.rs: chunk splitting and reconstruction (here), and the readers
-- of OP_RETURN and scriptSig pushes (`Script`). SHA-256 is the parameter `sha256`.
pub mod Script
pub mod Pieces
pub mod Reconstruct
pub mod Placing
pub mod Reorder
pub mod Accepted
mod Tests
use zalkanes.Base.{
  ℕ, zero, suc, ◌+◌, ◌%◌, ◌^◌, ◌≤◌, Bool, true, false, not, ◌||◌, Option, none, some, List, [], ◌∷◌,
  ◌++◌, ltb, leb, ◌==◌, if◌then◌else◌, length, take, drop, replicate, Result, ok, err, and_then,
}
use zalkanes.Base.Bytes.{Bytes}
use zalkanes.Base.Order.{same, bytes_order}
use zalkanes.Core.{CodeHash, max_code_bytes}

pub record Chunk : Type 0 where
  pub index : ℕ
  pub payload : Bytes

-- `HashMismatch` holds the two hashes; the source holds their hexadecimal texts.
pub data CarrierError : Type 0 where
  invalid_length : ℕ → CarrierError
  wrong_chunk_count : ℕ → ℕ → CarrierError
  chunk_out_of_range : ℕ → ℕ → CarrierError
  duplicate_chunk : ℕ → CarrierError
  missing_chunk : ℕ → CarrierError
  length_mismatch : ℕ → ℕ → CarrierError
  hash_mismatch : CodeHash → CodeHash → CarrierError

abbrev pub Slots : Type 0
Slots = List (Option Bytes)

abbrev pub slot : Slots → ℕ → Option Bytes
slot [] i = none
slot (s ∷ ss) zero = s
slot (s ∷ ss) (suc i) = slot ss i

abbrev pub fill : Slots → ℕ → Bytes → Slots
fill [] i b = []
fill (s ∷ ss) zero b = some b ∷ ss
fill (s ∷ ss) (suc i) b = s ∷ fill ss i b

-- One round of the loop over the chunks.
unfoldable pub place : ℕ → Slots → Chunk → Result Slots CarrierError
place chunk_count indexed chunk =
    if leb chunk_count chunk.index
    then err (chunk_out_of_range chunk.index chunk_count)
    else elim (slot indexed chunk.index) [
      | some _ ↦ err (duplicate_chunk chunk.index)
      | none ↦ ok (fill indexed chunk.index chunk.payload)
    ]

unfoldable pub place_all : ℕ → Slots → List Chunk → Result Slots CarrierError
place_all chunk_count indexed [] = ok indexed
place_all chunk_count indexed (c ∷ cs) =
    and_then (place chunk_count indexed c) (λ slots. place_all chunk_count slots cs)

-- The loop over the slots: `i` counts them, `wasm` holds what is collected.
unfoldable pub gather : ℕ → Bytes → Slots → Result Bytes CarrierError
gather i wasm [] = ok wasm
gather i wasm (none ∷ slots) = err (missing_chunk (i % 2 ^ 8))
gather i wasm (some b ∷ slots) = gather (i + 1) (wasm ++ b) slots

-- The length and hash checks at the end.
unfoldable pub verify : (Bytes → CodeHash) → ℕ → CodeHash → Bytes → Result Bytes CarrierError
verify sha256 expected_length expected_hash wasm =
    if not (length wasm == expected_length)
    then err (length_mismatch expected_length (length wasm % 2 ^ 32))
    else if same (sha256 wasm) expected_hash
    then ok wasm
    else err (hash_mismatch expected_hash (sha256 wasm))

unfoldable pub reconstruct :
    (Bytes → CodeHash) → List Chunk → ℕ → ℕ → CodeHash → Result Bytes CarrierError
reconstruct sha256 chunks chunk_count expected_length expected_hash =
    if expected_length == 0 || ltb max_code_bytes expected_length
    then err (invalid_length expected_length)
    else if not (length chunks == chunk_count)
    then err (wrong_chunk_count chunk_count (length chunks % 2 ^ 8))
    else and_then (place_all chunk_count (replicate chunk_count none) chunks)
        (λ slots. and_then (gather 0 [] slots) (verify sha256 expected_length expected_hash))

-- `slice.chunks(n)`: the fuel is the length of the slice, of which each round takes a byte.
unfoldable pub pieces : ℕ → ℕ → Bytes → List Bytes
pieces zero n xs = []
pieces (suc fuel) n [] = []
pieces (suc fuel) n (x ∷ xs) = take n (x ∷ xs) ∷ pieces fuel n (drop n (x ∷ xs))

abbrev pub chunks_of : ℕ → Bytes → List Bytes
chunks_of n xs = pieces (length xs) n xs

-- `enumerate` with the index cut to a byte.
unfoldable pub number_from : ℕ → List Bytes → List Chunk
number_from i [] = []
number_from i (b ∷ bs) = record { index = i % 2 ^ 8; payload = b } ∷ number_from (i + 1) bs

-- `none` is the failed assertion on the chunk size.
unfoldable pub split : Bytes → ℕ → Option (List Chunk)
split wasm chunk_size =
    if chunk_size == 0 then none else some (number_from 0 (chunks_of chunk_size wasm))
