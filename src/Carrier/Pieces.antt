-- ===== src/Carrier/Pieces.antt =====
-- `slice.chunks(n)` as the source uses it: the pieces join to the slice and have at most `n` bytes.
use zalkanes.Base.{
  ℕ, zero, suc, ◌+◌, ◌*◌, ◌-◌, ◌≡◌, ◌≤◌, ◌<◌, refl, ap, ◌∙◌, [], ◌∷◌, ◌++◌, length, take, drop,
  length-take, length-drop, take-append-drop, arith, All,
}
use zalkanes.Base.Bytes.{Bytes}
use zalkanes.Carrier.Script.{concat}
use zalkanes.Carrier.{pieces}

pub concat-pieces :
    (fuel n : ℕ) (xs : Bytes) → 0 < n → length xs ≤ fuel → concat (pieces fuel n xs) ≡ xs
unfolding concat pieces
concat-pieces zero n [] hn h = refl
concat-pieces zero n (x ∷ xs) hn h = absurd (omega arith)
concat-pieces (suc fuel) n [] hn h = refl
concat-pieces (suc fuel) n (x ∷ xs) hn h =
    ap (λ t. take n (x ∷ xs) ++ t)
      (concat-pieces fuel n (drop n (x ∷ xs)) hn (omega (arith, length-drop n (x ∷ xs))))
    ∙ take-append-drop n (x ∷ xs)

pub pieces-le : (fuel n : ℕ) (xs : Bytes) → All (λ b. length b ≤ n) (pieces fuel n xs)
unfolding pieces
pieces-le zero n xs = tt
pieces-le (suc fuel) n [] = tt
pieces-le (suc fuel) n (x ∷ xs) =
    (omega (arith, length-take n (x ∷ xs)), pieces-le fuel n (drop n (x ∷ xs)))

times_small : (n l : ℕ) → n * l < n → n * l ≡ 0
times_small n zero h = omega arith
times_small n (suc l) h = absurd (omega arith)

count_step : (n l len r : ℕ) → r ≡ len - n → n * l < r + n → 0 < len → n * suc l < len + n
count_step n l len r e h p = grind (arith, times_small n l)

-- The number of pieces is the length divided by `n`, rounded up.
pub length-pieces :
    (fuel n : ℕ) (xs : Bytes)
    → 0 < n
    → length xs ≤ fuel
    → (length xs ≤ n * length (pieces fuel n xs)) × (n * length (pieces fuel n xs) < length xs + n)
unfolding pieces
length-pieces zero n [] hn h = (omega arith, omega arith)
length-pieces zero n (x ∷ xs) hn h = absurd (omega arith)
length-pieces (suc fuel) n [] hn h = (omega arith, omega arith)
length-pieces (suc fuel) n (x ∷ xs) hn h =
    let (lo, hi) =
      length-pieces fuel n (drop n (x ∷ xs)) hn (omega (arith, length-drop n (x ∷ xs))) in
    (
      grind (arith, lo, length-drop n (x ∷ xs)),
      count_step n (length (pieces fuel n (drop n (x ∷ xs)))) (length (x ∷ xs))
          (length (drop n (x ∷ xs))) (length-drop n (x ∷ xs)) hi (omega arith),
    )

pub pieces-pos :
    (fuel n : ℕ) (xs : Bytes) → 0 < length xs → length xs ≤ fuel → 0 < length (pieces fuel n xs)
unfolding pieces
pieces-pos fuel n [] p h = absurd (omega arith)
pieces-pos zero n (x ∷ xs) p h = absurd (omega arith)
pieces-pos (suc fuel) n (x ∷ xs) p h = omega arith
