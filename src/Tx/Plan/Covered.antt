-- ===== src/Tx/Plan/Covered.antt =====
-- The size that crates/zalkanes-tx/src/lib.rs charges for a carrier input covers the script that is
-- built for it.
use zalkanes.Base.{
  ℕ, zero, suc, ◌≡◌, ◌≤◌, ◌+◌, ◌-◌, min, refl, ap, ap₂, sym, ◌∙◌, [], ◌∷◌, ◌++◌, length, take, drop,
  length-append, length-take, length-drop, arith,
}
use zalkanes.Base.Bytes.{Bytes}
use zalkanes.Carrier.{pieces, chunks_of}
use zalkanes.Carrier.Script.{concat}
use zalkanes.Tx.{push_data, push_all, push_overhead, carrier_script_sig}
use zalkanes.Tx.Plan.{pushes_len, carrier_script_sig_len}

length-push_data : (b : Bytes) → length (push_data b) ≡ push_overhead (length b) + length b
unfolding push_data push_overhead
length-push_data b = ground arith

push_overhead_mono : (m n : ℕ) → m ≤ n → push_overhead m ≤ push_overhead n
unfolding push_overhead
push_overhead_mono m n h = ground arith

-- One round of the loop.
pushes_len-suc :
    (fuel n : ℕ)
    → pushes_len (suc fuel) (suc n)
      ≡ push_overhead (min (suc n) 520)
        + min (suc n) 520
        + pushes_len fuel (suc n - min (suc n) 520)
unfolding pushes_len
pushes_len-suc fuel n = ground arith

length-push_all :
    (fuel : ℕ) (xs : Bytes)
    → length xs ≤ fuel
    → length (push_all (pieces fuel 520 xs)) ≡ pushes_len fuel (length xs)
unfolding push_all concat pieces
length-push_all zero xs h = unfold pushes_len in refl
length-push_all (suc fuel) [] h = unfold pushes_len in ground arith
length-push_all (suc fuel) (x ∷ xs) h =
    let n = length xs in
    let e1 : length (x ∷ take 519 xs) ≡ min (suc n) 520 = omega (arith, length-take 519 xs) in
    let e2 : length (drop 519 xs) ≡ suc n - min (suc n) 520 = omega (arith, length-drop 519 xs) in
    length-append (push_data (x ∷ take 519 xs)) (push_all (pieces fuel 520 (drop 519 xs)))
    ∙ ap₂ (λ a b. a + b) (length-push_data (x ∷ take 519 xs) ∙ ap (λ m. push_overhead m + m) e1)
        (length-push_all fuel (drop 519 xs) (omega (arith, length-drop 519 xs))
          ∙ ap (pushes_len fuel) e2)
    ∙ sym (pushes_len-suc fuel n)

-- The scriptSig of a carrier input, with a signature of at most 73 bytes and a redeem script of at
-- most 36, is at most as long as the length that the fee is computed from.
pub carrier_script_sig-covered :
    (index : ℕ) (chunk signature redeem : Bytes)
    → length signature ≤ 73
    → length redeem ≤ 36
    → length (carrier_script_sig index chunk signature redeem)
      ≤ carrier_script_sig_len (length chunk)
unfolding carrier_script_sig carrier_script_sig_len push_overhead
carrier_script_sig-covered index chunk signature redeem hs hr =
    let i = length-push_data (index ∷ []) in
    let c = length-push_all (length chunk) chunk (omega arith) in
    let s = length-push_data signature in
    let r = length-push_data redeem in
    let a =
      length-append (push_data (index ∷ []))
        (push_all (chunks_of 520 chunk) ++ (push_data signature ++ push_data redeem)) in
    let b =
      length-append (push_all (chunks_of 520 chunk)) (push_data signature ++ push_data redeem) in
    let d = length-append (push_data signature) (push_data redeem) in
    let o1 = push_overhead_mono (length signature) 73 hs in
    let o2 = push_overhead_mono (length redeem) 36 hr in omega (arith, i, c, s, r, a, b, d, o1, o2)
