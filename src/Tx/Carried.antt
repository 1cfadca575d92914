-- ===== src/Tx/Carried.antt =====
-- From the sender to the indexer: the chunks that crates/zalkanes-tx/src/lib.rs puts into carrier
-- inputs are what crates/zalkanes-indexer/src/lib.rs collects and crates/zalkanes-carrier/src/lib.rs
-- puts together.
use zalkanes.Base.{
  ℕ, zero, suc, ◌+◌, ◌%◌, ◌^◌, ◌≤◌, ◌<◌, ◌≡◌, refl, subst, sym, some, List, [], ◌∷◌, length, drop,
  All, ok, arith, length-take,
}
use zalkanes.Base.Bytes.{Bytes}
use zalkanes.Core.{CodeHash}
use zalkanes.Carrier.{pieces, chunks_of, number_from, reconstruct}
use zalkanes.Carrier.Pieces.{concat-pieces, length-pieces}
use zalkanes.Carrier.Reconstruct.{reconstruct-number_from}
use zalkanes.Tx.{carrier_script_sig, carrier_input_count, split_chunks, div_ceil}
use zalkanes.Tx.ScriptRoundTrip.{chunk-carrier_script_sig}
use zalkanes.Indexer.Transaction.{collect_chunks}

-- The inputs of a transaction that carries chunks from the `i`-th on, with their indices; each input
-- has a signature of its own, and all spend outputs of the one redeem script.
abbrev pub carried : (ℕ → Bytes) → Bytes → ℕ → List Bytes → List (ℕ × Bytes)
carried signature redeem i [] = []
carried signature redeem i (b ∷ bs) =
    (i, carrier_script_sig i b (signature i) redeem) ∷ carried signature redeem (i + 1) bs

pieces-nonempty : (fuel n : ℕ) (xs : Bytes) → 0 < n → All (λ b. 0 < length b) (pieces fuel n xs)
unfolding pieces
pieces-nonempty zero n xs hn = tt
pieces-nonempty (suc fuel) n [] hn = tt
pieces-nonempty (suc fuel) n (x ∷ xs) hn =
    (omega (arith, length-take n (x ∷ xs)), pieces-nonempty fuel n (drop n (x ∷ xs)) hn)

module _ (signature : ℕ → Bytes) (redeem : Bytes) (hs : (i : ℕ) → length (signature i) < 65536)
    (hr : length redeem < 65536) where
  collect_chunks-carried :
      (i : ℕ) (bs : List Bytes)
      → All (λ b. 0 < length b) bs
      → i + length bs ≤ 256
      → collect_chunks (carried signature redeem i bs) ≡ number_from i bs
  unfolding collect_chunks number_from
  collect_chunks-carried i [] a h = refl
  collect_chunks-carried i (b ∷ bs) (p, a) h =
      let small : i % 2 ^ 8 ≡ i = omega arith in
      let rest = collect_chunks-carried (i + 1) bs a (omega arith) in
      rw
        (
          small,
          sym rest,
          chunk-carrier_script_sig i b (signature i) redeem p (hs i) hr,
          collect_chunks,
        )
        refl

-- What `split_chunks` has checked.
split_chunks-some :
    (wasm : Bytes) (bs : List Bytes)
    → split_chunks wasm ≡ some bs
    → (0 < length wasm) × (length wasm ≤ 262144) × (bs ≡ chunks_of 1400 wasm)
unfolding split_chunks carrier_input_count div_ceil
split_chunks-some wasm bs h = (ground arith, ground arith, ground arith)

-- A module that `split_chunks` cuts into chunks, carried by one input for each chunk, is what the
-- indexer reconstructs from those inputs, for signatures and a redeem script shorter than 65536 bytes.
pub reconstruct-carried :
    (sha256 : Bytes → CodeHash) (wasm redeem : Bytes) (signature : ℕ → Bytes) (bs : List Bytes)
    → ((i : ℕ) → length (signature i) < 65536)
    → length redeem < 65536
    → split_chunks wasm ≡ some bs
    → reconstruct sha256
        (collect_chunks (carried signature redeem 0 bs))
        (length bs)
        (length wasm)
        (sha256 wasm)
      ≡ ok wasm
reconstruct-carried sha256 wasm redeem signature bs hs hr h =
    let (lo, hi, e) = split_chunks-some wasm bs h in
    let (_, count) = length-pieces (length wasm) 1400 wasm (omega arith) (omega arith) in
    let few : length (chunks_of 1400 wasm) ≤ 255 = omega arith in
    let joined = concat-pieces (length wasm) 1400 wasm (omega arith) (omega arith) in
    let collected =
      collect_chunks-carried signature redeem hs hr 0 (chunks_of 1400 wasm)
        (pieces-nonempty (length wasm) 1400 wasm (omega arith)) (omega arith) in
    rw (e, collected)
      (subst
        (λ w.
          reconstruct sha256 (number_from 0 (chunks_of 1400 wasm)) (length (chunks_of 1400 wasm))
            (length w) (sha256 w)
          ≡ ok w)
        joined
        (reconstruct-number_from sha256 (chunks_of 1400 wasm) few (rw joined lo) (rw joined hi)))
