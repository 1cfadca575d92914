-- ===== src/Protocol/Skip.antt =====
-- Which payloads crates/zalkanes-protocol/src/lib.rs skips in silence. An unknown version or type is an
-- error, where docs/threat-model/parser.md has a skip, and so is a payload that is shorter than the
-- magic and begins it, where the comment of `parse_op_return` has a skip.
use zalkanes.Base.{
  ℕ, zero, suc, ◌≡◌, ◌≢◌, ◌↔◌, ◌⊎◌, inl, inr, ◌≤◌, refl, sym, ◌∙◌, ap, true, none, [], ◌∷◌, length,
  take, drop, get_or, length-take, ok, arith, min, Bool-cases, ◌==◌,
}
use zalkanes.Base.Bytes.{Bytes}
use zalkanes.Base.Order.{same_eq, same_refl, bytes_order}
use zalkanes.Protocol.{starts_with, parse_body, parse_op_return}
use zalkanes.Core.{protocol_magic}

starts_with_iff : (xs ps : Bytes) → (starts_with xs ps ≡ true) ↔ (take (length ps) xs ≡ ps)
unfolding starts_with
starts_with_iff xs [] = (λ _. refl, λ _. refl)
starts_with_iff [] (p ∷ ps) = ((λ e. cc), λ e. cc)
starts_with_iff (x ∷ xs) (p ∷ ps) = (
  (λ e. ground (arith, (starts_with_iff xs ps).0)),
  λ e. ground (arith, (starts_with_iff xs ps).1),
)

-- As much of the magic as the payload has room for.
abbrev pub magic_prefix : Bytes → Bytes
magic_prefix payload = take (min (length payload) 4) protocol_magic

take-min : (n : ℕ) (xs : Bytes) → take (min (length xs) n) xs ≡ take n xs
take-min zero xs = let e : min (length xs) 0 ≡ 0 = omega arith in rw e
take-min (suc n) [] = let e : min 0 (suc n) ≡ 0 = omega arith in rw e
take-min (suc n) (x ∷ xs) =
    let e : min (suc (length xs)) (suc n) ≡ suc (min (length xs) n) = omega arith in
    rw e (ap (λ t. x ∷ t) (take-min n xs))

length-magic_prefix : (payload : Bytes) → length (magic_prefix payload) ≡ min (length payload) 4
length-magic_prefix payload = omega (arith, length-take (min (length payload) 4) protocol_magic)

starts_with-magic :
    (payload : Bytes)
    → (starts_with payload (magic_prefix payload) ≡ true) ↔ (take 4 payload ≡ magic_prefix payload)
starts_with-magic payload =
    let cut : take (length (magic_prefix payload)) payload ≡ take 4 payload =
      ap (λ n. take n payload) (length-magic_prefix payload) ∙ take-min 4 payload in
    let both = starts_with_iff payload (magic_prefix payload) in
    ((λ h. sym cut ∙ both.0 h), λ h. both.1 (cut ∙ h))

magic_prefix_long : (payload : Bytes) → 6 ≤ length payload → magic_prefix payload ≡ protocol_magic
magic_prefix_long payload h = let e : min (length payload) 4 ≡ 4 = omega arith in rw e

parse_body-ne-none : (t : ℕ) (body : Bytes) → parse_body t body ≢ ok none
unfolding parse_body
parse_body-ne-none t body e = ground arith

skip_if :
    (payload : Bytes)
    → parse_op_return payload ≡ ok none
    → (length payload ≡ 0) ⊎ (take 4 payload ≢ magic_prefix payload)
unfolding parse_op_return
skip_if payload h = elim (Bool-cases (length payload == 0)) [
  | inl e ↦ inl (ground arith)
  | inr more ↦ inr λ same_front. ground (
    arith,
    (starts_with-magic payload).1 same_front,
    magic_prefix_long payload,
    same_refl (take 4 payload),
    parse_body-ne-none (get_or payload 5 0) (drop 6 payload),
  )
]

skip_of_front :
    (payload : Bytes) → take 4 payload ≢ magic_prefix payload → parse_op_return payload ≡ ok none
unfolding parse_op_return
skip_of_front payload n = ground (
  arith,
  (starts_with-magic payload).0,
  magic_prefix_long payload,
  same_eq (take 4 payload) protocol_magic,
)

-- A payload is skipped in silence exactly when it is empty or does not begin with the magic, cut
-- to the payload's length.
pub parse_op_return-skip_iff :
    (payload : Bytes)
    → (parse_op_return payload ≡ ok none)
      ↔ ((length payload ≡ 0) ⊎ (take 4 payload ≢ magic_prefix payload))
parse_op_return-skip_iff payload = (
  skip_if payload,
  λ c. elim c [ inl e ↦ unfold parse_op_return in ground arith | inr n ↦ skip_of_front payload n ],
)
