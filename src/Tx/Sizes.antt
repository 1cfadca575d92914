-- ===== src/Tx/Sizes.antt =====
-- Sizes of the carrier scripts that crates/zalkanes-tx/src/lib.rs builds.
use zalkanes.Base.{
  ℕ, zero, suc, ◌+◌, ◌-◌, ◌*◌, min, ◌≤◌, ◌≡◌, [], ◌∷◌, ◌++◌, map, length, take, drop, length-append,
  length-take, length-drop, arith,
}
use zalkanes.Base.Bytes.{Bytes}
use zalkanes.Carrier.{pieces, chunks_of}
use zalkanes.Carrier.Script.{concat}
use zalkanes.Tx.{push_data, push_all, carrier_script_sig}

length-push_data : (b : Bytes) → length (push_data b) ≤ length b + 3
unfolding push_data
length-push_data b = ground arith

length-push_data_short : (b : Bytes) → length b ≤ 75 → length (push_data b) ≡ length b + 1
unfolding push_data
length-push_data_short b h = ground arith

-- The arithmetic of one push of at most 520 bytes, in front of the rest.
push_bound :
    (whole piece left pushed rest : ℕ)
    → piece ≡ min 520 (suc whole)
    → left ≡ suc whole - 520
    → pushed ≤ piece + 3
    → rest * 520 ≤ left * 523 + 1557
    → (left ≡ 0 → rest ≡ 0)
    → (pushed + rest) * 520 ≤ suc whole * 523 + 1557
push_bound whole piece left pushed rest e1 e2 h1 h2 h3 = ground arith

push_none : (fuel : ℕ) (xs : Bytes) → length xs ≡ 0 → length (push_all (pieces fuel 520 xs)) ≡ 0
unfolding push_all concat pieces
push_none zero xs h = omega arith
push_none (suc fuel) [] h = omega arith
push_none (suc fuel) (x ∷ xs) h = absurd (omega arith)

length-push_all :
    (fuel : ℕ) (xs : Bytes) → length (push_all (pieces fuel 520 xs)) * 520 ≤ length xs * 523 + 1557
unfolding push_all concat pieces
length-push_all zero xs = omega arith
length-push_all (suc fuel) [] = omega arith
length-push_all (suc fuel) (x ∷ xs) =
    let piece = x ∷ take 519 xs in
    let left = drop 519 xs in
    rw (length-append (push_data piece) (concat (map push_data (pieces fuel 520 left)))) (
      push_bound (length xs) (length piece) (length left) (length (push_data piece)) _
        (omega (arith, length-take 519 xs)) (omega (arith, length-drop 519 xs))
        (length-push_data piece) (length-push_all fuel left) (push_none fuel left))

-- The scriptSig of a carrier input with a chunk of at most 1400 bytes, a signature of at most 73 and a
-- redeem script of at most 36 is at most 1650 bytes long, the relay limit.
pub carrier_script_sig-standard :
    (index : ℕ) (chunk signature redeem : Bytes)
    → length chunk ≤ 1400
    → length signature ≤ 73
    → length redeem ≤ 36
    → length (carrier_script_sig index chunk signature redeem) ≤ 1650
unfolding carrier_script_sig
carrier_script_sig-standard index chunk signature redeem hc hs hr =
    let i = length-push_data_short (index ∷ []) (omega arith) in
    let p = length-push_all (length chunk) chunk in
    let s = length-push_data_short signature (omega arith) in
    let r = length-push_data_short redeem (omega arith) in
    let tail = length-append (push_data signature) (push_data redeem) in
    let mid =
      length-append (push_all (chunks_of 520 chunk)) (push_data signature ++ push_data redeem) in
    let all =
      length-append (push_data (index ∷ []))
        (push_all (chunks_of 520 chunk) ++ (push_data signature ++ push_data redeem)) in
    omega arith
