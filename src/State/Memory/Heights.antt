-- ===== src/State/Memory/Heights.antt =====
-- Which heights `rollback_to` undoes, and in which order.
use zalkanes.Base.{◌≡◌, ◌≤◌, ◌<◌, refl, ap, ◌∙◌, none, List, [], ◌∷◌, ◌++◌, arith, All}
use zalkanes.Base.Order.{nat_order}
use zalkanes.Base.OrdMap.{OrdMap, lookup, insert}
use zalkanes.Core.{BlockHeight}
use zalkanes.State.{UndoOp, HeightRecord}
use zalkanes.State.Memory.{keys, heights_above, insert_descending, sort_descending, retain}

abbrev pub Undos : Type 0
Undos = OrdMap BlockHeight (List UndoOp)

-- A new highest height goes to the end of the journal.
pub keys-insert_last :
    (h : BlockHeight) (ops : List UndoOp) (m : Undos)
    → All (λ k. k < h) (keys m)
    → keys (insert h ops m) ≡ keys m ++ (h ∷ [])
unfolding insert
keys-insert_last h ops [] a = refl
keys-insert_last h ops ((k, o) ∷ m) a = ground (arith, keys-insert_last h ops m a.1)

pub lookup_fresh : (h : BlockHeight) (m : Undos) → All (λ k. k < h) (keys m) → lookup h m ≡ none
unfolding lookup
lookup_fresh h [] a = refl
lookup_fresh h ((k, o) ∷ m) a = ground (arith, lookup_fresh h m a.1)

pub heights_above-append :
    (t : BlockHeight) (xs ys : List BlockHeight)
    → heights_above t (xs ++ ys) ≡ heights_above t xs ++ heights_above t ys
unfolding heights_above
heights_above-append t [] ys = refl
heights_above-append t (x ∷ xs) ys = ground (arith, heights_above-append t xs ys)

pub heights_above-none :
    (t : BlockHeight) (xs : List BlockHeight) → All (λ k. k ≤ t) xs → heights_above t xs ≡ []
unfolding heights_above
heights_above-none t [] a = refl
heights_above-none t (x ∷ xs) a = ground (arith, heights_above-none t xs a.1)

pub heights_above-All {ℓ} :
    (P : BlockHeight → Type ℓ) (t : BlockHeight) (xs : List BlockHeight)
    → All P xs
    → All P (heights_above t xs)
unfolding heights_above
heights_above-All P t [] a = tt
heights_above-All P t (x ∷ xs) a = ground (arith, heights_above-All P t xs a.1)

insert_descending-above :
    (x h : BlockHeight) (ys : List BlockHeight)
    → x < h
    → insert_descending x (h ∷ ys) ≡ h ∷ insert_descending x ys
unfolding insert_descending
insert_descending-above x h ys p = ground arith

-- The highest height, last in the journal, comes first.
pub sort_descending-last :
    (h : BlockHeight) (xs : List BlockHeight)
    → All (λ k. k < h) xs
    → sort_descending (xs ++ (h ∷ [])) ≡ h ∷ sort_descending xs
unfolding sort_descending
sort_descending-last h [] a = unfold insert_descending in refl
sort_descending-last h (x ∷ xs) a =
    ap (insert_descending x) (sort_descending-last h xs a.1)
    ∙ insert_descending-above x h (sort_descending xs) a.0

pub retain-append :
    (t : BlockHeight) (xs ys : List HeightRecord) → retain t (xs ++ ys) ≡ retain t xs ++ retain t ys
unfolding retain
retain-append t [] ys = refl
retain-append t (x ∷ xs) ys = ground (arith, retain-append t xs ys)

pub retain-All :
    (t : BlockHeight) (xs : List HeightRecord) → All (λ r. r.height ≤ t) xs → retain t xs ≡ xs
unfolding retain
retain-All t [] a = refl
retain-All t (x ∷ xs) a = ground (arith, retain-All t xs a.1)
