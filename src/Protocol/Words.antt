-- ===== src/Protocol/Words.antt =====
-- Words of two and four bytes at a position of a body, as crates/zalkanes-protocol/src/lib.rs reads
-- them.
use zalkanes.Base.{
  ℕ, zero, suc, ◌+◌, ◌≡◌, ◌≤◌, ◌<◌, refl, ap, ◌∙◌, [], ◌∷◌, ◌++◌, length, take, drop, get_or,
  length-take, All-take, arith, All,
}
use zalkanes.Base.Bytes.{
  Bytes, IsByte, to_be_16, to_be_32, from_be_16, from_be_32, to_be-from_be_16, to_be-from_be_32,
}
use zalkanes.Base.Order.{bytes_order}
use zalkanes.Core.{Is32}

get_or-IsByte : (xs : Bytes) (i : ℕ) → All IsByte xs → IsByte (get_or xs i 0)
get_or-IsByte [] i a = omega arith
get_or-IsByte (x ∷ xs) zero a = a.0
get_or-IsByte (x ∷ xs) (suc i) a = get_or-IsByte xs i a.1

-- The rest from a position on begins with the entry there.
pub uncons_at : (n : ℕ) (xs : Bytes) → n < length xs → get_or xs n 0 ∷ drop (suc n) xs ≡ drop n xs
uncons_at n [] h = absurd (omega arith)
uncons_at zero (x ∷ xs) h = refl
uncons_at (suc n) (x ∷ xs) h = uncons_at n xs (omega arith)

pub drop_end : (n : ℕ) (xs : Bytes) → length xs ≤ n → drop n xs ≡ []
drop_end zero [] h = refl
drop_end zero (x ∷ xs) h = absurd (omega arith)
drop_end (suc n) [] h = refl
drop_end (suc n) (x ∷ xs) h = drop_end n xs (omega arith)

pub drop-drop : (n k : ℕ) (xs : Bytes) → drop k (drop n xs) ≡ drop (n + k) xs
drop-drop zero k xs = let e : zero + k ≡ k = omega arith in rw e refl
drop-drop (suc n) zero [] = let e : suc n + 0 ≡ suc n = omega arith in rw e refl
drop-drop (suc n) (suc k) [] = let e : suc n + suc k ≡ suc (suc n + k) = omega arith in rw e refl
drop-drop (suc n) k (x ∷ xs) =
    let e : suc n + k ≡ suc (n + k) = omega arith in rw e (drop-drop n k xs)

pub take-Is32 : (body : Bytes) → All IsByte body → 32 ≤ length body → Is32 (take 32 body)
take-Is32 body a h = (omega (arith, length-take 32 body), All-take IsByte 32 body a)

module _ (body : Bytes) (bytes : All IsByte body) where
  pub IsByte-at : (i : ℕ) → IsByte (get_or body i 0)
  IsByte-at i = get_or-IsByte body i bytes

  -- Two and four bytes from a position on, as a word in front of the rest.
  pub word_at :
      (n : ℕ)
      → suc n < length body
      → to_be_16 (from_be_16 (get_or body n 0) (get_or body (suc n) 0)) ++ drop (suc (suc n)) body
        ≡ drop n body
  word_at n h =
      ap (λ t. t ++ drop (suc (suc n)) body)
        (to_be-from_be_16 _ _ (IsByte-at n) (IsByte-at (suc n)))
      ∙ ap (λ t. get_or body n 0 ∷ t) (uncons_at (suc n) body h)
      ∙ uncons_at n body (omega arith)

  pub long_at :
      (n : ℕ)
      → suc (suc (suc n)) < length body
      → to_be_32 (
            from_be_32
              (get_or body n 0)
              (get_or body (suc n) 0)
              (get_or body (suc (suc n)) 0)
              (get_or body (suc (suc (suc n))) 0))
          ++ drop (suc (suc (suc (suc n)))) body
        ≡ drop n body
  long_at n h =
      ap (λ t. t ++ drop (suc (suc (suc (suc n)))) body)
        (to_be-from_be_32 _ _ _ _ (IsByte-at n) (IsByte-at (suc n)) (IsByte-at (suc (suc n)))
          (IsByte-at (suc (suc (suc n)))))
      ∙ ap (λ t. get_or body n 0 ∷ get_or body (suc n) 0 ∷ get_or body (suc (suc n)) 0 ∷ t)
          (uncons_at (suc (suc (suc n))) body h)
      ∙ ap (λ t. get_or body n 0 ∷ get_or body (suc n) 0 ∷ t)
          (uncons_at (suc (suc n)) body (omega arith))
      ∙ ap (λ t. get_or body n 0 ∷ t) (uncons_at (suc n) body (omega arith))
      ∙ uncons_at n body (omega arith)
