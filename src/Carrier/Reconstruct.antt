-- ===== src/Carrier/Reconstruct.antt =====
-- `split` and `reconstruct` of crates/zalkanes-carrier/src/lib.rs, in the order of `split`.
use zalkanes.Base.{
  ℕ, suc, ◌+◌, ◌%◌, ◌^◌, ◌≡◌, ◌≤◌, ◌<◌, refl, sym, ap, ◌∙◌, Option, some, none, List, [], ◌∷◌, ◌++◌,
  length, replicate, map, ok, and_then, and_then-ok, subst, arith, length-append,
}
use mathlib.Core.List.{append_assoc, append-nil}
use zalkanes.Base.Bytes.{Bytes}
use zalkanes.Base.Order.{same_refl, same_eq, bytes_order}
use zalkanes.Core.{CodeHash, max_code_bytes}
use zalkanes.Carrier.Script.{concat}
use zalkanes.Carrier.Pieces.{concat-pieces}
use zalkanes.Carrier.{
  Chunk, Slots, slot, fill, place, place_all, gather, verify, reconstruct, chunks_of, number_from,
  split,
}

slot-append : (xs ys : Slots) (s : Option Bytes) → slot (xs ++ (s ∷ ys)) (length xs) ≡ s
slot-append [] ys s = refl
slot-append (x ∷ xs) ys s = slot-append xs ys s

fill-append :
    (xs ys : Slots) (s : Option Bytes) (b : Bytes)
    → fill (xs ++ (s ∷ ys)) (length xs) b ≡ xs ++ (some b ∷ ys)
fill-append [] ys s b = refl
fill-append (x ∷ xs) ys s b = ap (λ t. x ∷ t) (fill-append xs ys s b)

place-next :
    (count : ℕ) (done rest : Slots) (b : Bytes)
    → length done < count
    → count ≤ 256
    → place count (done ++ (none ∷ rest)) (record { index = length done % 2 ^ 8; payload = b })
      ≡ ok (done ++ (some b ∷ rest))
unfolding place
place-next count done rest b h k =
    let e : length done % 2 ^ 8 ≡ length done = omega arith in
    rw e (ground (arith, slot-append done rest none, fill-append done rest none b))

place_all-number_from :
    (count i : ℕ) (done : Slots) (bs : List Bytes)
    → i ≡ length done
    → length done + length bs ≤ count
    → count ≤ 256
    → place_all count (done ++ replicate (length bs) none) (number_from i bs)
      ≡ ok (done ++ map some bs)
unfolding place_all number_from
place_all-number_from count i done [] ei h k = refl
place_all-number_from count i done (b ∷ bs) ei h k =
    rw (ei, place-next count done (replicate (length bs) none) b (omega arith) k)
      (ap (λ t. place_all count t (number_from (length done + 1) bs))
          (sym (append_assoc done (some b ∷ []) (replicate (length bs) none)))
        ∙ place_all-number_from count (length done + 1) (done ++ (some b ∷ [])) bs
            (omega (arith, length-append done (some b ∷ [])))
            (omega (arith, length-append done (some b ∷ []))) k
        ∙ ap ok (append_assoc done (some b ∷ []) (map some bs)))

gather-some :
    (i : ℕ) (wasm : Bytes) (bs : List Bytes) → gather i wasm (map some bs) ≡ ok (wasm ++ concat bs)
unfolding gather concat
gather-some i wasm [] = ap ok (sym (append-nil wasm))
gather-some i wasm (b ∷ bs) =
    gather-some (i + 1) (wasm ++ b) bs ∙ ap ok (append_assoc wasm b (concat bs))

length-number_from : (i : ℕ) (bs : List Bytes) → length (number_from i bs) ≡ length bs
unfolding number_from
length-number_from i [] = refl
length-number_from i (b ∷ bs) = ap suc (length-number_from (i + 1) bs)

module _ (sha256 : Bytes → CodeHash) where
  verify_lem : (wasm : Bytes) → verify sha256 (length wasm) (sha256 wasm) wasm ≡ ok wasm
  unfolding verify
  verify_lem wasm = ground (arith, same_refl (sha256 wasm))

  -- Any list of byte strings, numbered from 0, is joined.
  pub reconstruct-number_from :
      (bs : List Bytes)
      → length bs ≤ 255
      → 0 < length (concat bs)
      → length (concat bs) ≤ max_code_bytes
      → reconstruct sha256 (number_from 0 bs) (length bs) (length (concat bs)) (sha256 (concat bs))
        ≡ ok (concat bs)
  unfolding reconstruct
  reconstruct-number_from bs hb hp hm = ground (
    arith,
    length-number_from 0 bs,
    place_all-number_from (length bs) 0 [] bs refl (omega arith) (omega arith),
    gather-some 0 [] bs,
    verify_lem (concat bs),
  )

  -- Reconstruction returns the module that was split, for a module that is not empty, within the
  -- size limit and cut into at most 255 chunks.
  pub reconstruct-split :
      (wasm : Bytes) (chunk_size : ℕ) (chunks : List Chunk)
      → split wasm chunk_size ≡ some chunks
      → 0 < length wasm
      → length wasm ≤ max_code_bytes
      → length chunks ≤ 255
      → reconstruct sha256 chunks (length chunks) (length wasm) (sha256 wasm) ≡ ok wasm
  reconstruct-split wasm chunk_size chunks e hp hm hc =
      let (n0, ec) = of_split in
      let joined = concat-pieces (length wasm) chunk_size wasm n0 (omega arith) in
      let bs = chunks_of chunk_size wasm in
      rw (ec, length-number_from 0 bs)
        (subst (λ w. reconstruct sha256 (number_from 0 bs) (length bs) (length w) (sha256 w) ≡ ok w)
          joined
          (reconstruct-number_from bs (omega (arith, ap length ec, length-number_from 0 bs))
            (rw joined hp) (rw joined hm)))
    where
      of_split : (0 < chunk_size) × (chunks ≡ number_from 0 (chunks_of chunk_size wasm))
      of_split = unfold split in ground arith

  verify_sound :
      (expected_length : ℕ) (expected_hash : CodeHash) (joined wasm : Bytes)
      → verify sha256 expected_length expected_hash joined ≡ ok wasm
      → (joined ≡ wasm) × (length wasm ≡ expected_length) × (sha256 wasm ≡ expected_hash)
  unfolding verify
  verify_sound expected_length expected_hash joined wasm e =
      ground (arith, same_eq (sha256 joined) expected_hash)

  -- A module that is accepted comes from placing every chunk in an empty slot of its own and
  -- joining the slots in order; it has the declared length and hash, the length is positive and
  -- within the limit, and there are as many chunks as declared.
  pub reconstruct-ok :
      (chunks : List Chunk) (chunk_count expected_length : ℕ) (expected_hash : CodeHash)
      (wasm : Bytes)
      → reconstruct sha256 chunks chunk_count expected_length expected_hash ≡ ok wasm
      → (slots : Slots) × (place_all chunk_count (replicate chunk_count none) chunks ≡ ok slots)
        × (gather 0 [] slots ≡ ok wasm)
        × (length wasm ≡ expected_length)
        × (sha256 wasm ≡ expected_hash)
        × (0 < expected_length)
        × (expected_length ≤ max_code_bytes)
        × (length chunks ≡ chunk_count)
  reconstruct-ok chunks chunk_count expected_length expected_hash wasm e =
      let (lo, hi, count, run) = guards in
      let (slots, placed, rest) = and_then-ok _ _ run in
      let (joined, gathered, checked) = and_then-ok _ _ rest in
      let (same_bytes, len, hash) =
        verify_sound expected_length expected_hash joined wasm checked in
      (slots, placed, gathered ∙ ap ok same_bytes, len, hash, lo, hi, count)
    where
      guards :
          (0 < expected_length)
          × (expected_length ≤ max_code_bytes)
          × (length chunks ≡ chunk_count)
          × (and_then (place_all chunk_count (replicate chunk_count none) chunks) (λ slots.
                and_then (gather 0 [] slots) (verify sha256 expected_length expected_hash))
              ≡ ok wasm)
      guards = unfold reconstruct in ground arith

  -- The same steps give an accepted module.
  pub reconstruct_of :
      (chunks : List Chunk) (chunk_count expected_length : ℕ) (expected_hash : CodeHash)
      (wasm : Bytes) (slots : Slots)
      → place_all chunk_count (replicate chunk_count none) chunks ≡ ok slots
      → gather 0 [] slots ≡ ok wasm
      → length wasm ≡ expected_length
      → sha256 wasm ≡ expected_hash
      → 0 < expected_length
      → expected_length ≤ max_code_bytes
      → length chunks ≡ chunk_count
      → reconstruct sha256 chunks chunk_count expected_length expected_hash ≡ ok wasm
  unfolding reconstruct verify
  reconstruct_of chunks chunk_count expected_length expected_hash wasm slots p g l h lo hi c =
      ground (arith, same_refl expected_hash)
