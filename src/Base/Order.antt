-- ===== src/Base/Order.antt =====
-- Rust's `Ord` on map keys: a three-way comparison and its laws, for numbers, byte strings
-- and pairs.
use Prim.Native.Nat.{ℕ, compare, Ordering}
use Prim.Native.Nat.Ordering.{lt, eq, gt}
use mathlib.Core.Path.{◌≡◌, refl}
use mathlib.Core.Bool.{Bool, true, false}
use mathlib.Core.List.{List, [], ◌∷◌}
use native.Mathlib.Omega.{arith}

abbrev pub reverse : Ordering → Ordering
reverse lt = gt
reverse eq = eq
reverse gt = lt

pub record KeyOrder {ℓ} (K : Type ℓ) : Type ℓ where
  pub cmp : K → K → Ordering
  pub cmp_refl : (a : K) → cmp a a ≡ eq
  pub cmp_eq : (a b : K) → cmp a b ≡ eq → a ≡ b
  pub cmp_reverse : (a b : K) → cmp b a ≡ reverse (cmp a b)
  pub cmp_trans : (a b c : K) → cmp a b ≡ lt → cmp b c ≡ lt → cmp a c ≡ lt

pub compare_refl : (a : ℕ) → compare a a ≡ eq
compare_refl a = ground arith

pub compare-eq : (a b : ℕ) → compare a b ≡ eq → a ≡ b
compare-eq a b h = ground arith

pub compare-reverse : (a b : ℕ) → compare b a ≡ reverse (compare a b)
compare-reverse a b = ground arith

pub compare_trans : (a b c : ℕ) → compare a b ≡ lt → compare b c ≡ lt → compare a c ≡ lt
compare_trans a b c p q = ground arith

instance abbrev pub nat_order : KeyOrder ℕ
nat_order = record {
  cmp = compare;
  cmp_refl = compare_refl;
  cmp_eq = compare-eq;
  cmp_reverse = compare-reverse;
  cmp_trans = compare_trans;
}

-- The second comparison decides where the first finds no difference.
abbrev pub then_by : Ordering → Ordering → Ordering
then_by eq c = c
then_by lt c = lt
then_by gt c = gt

-- `Vec<u8>` and `[u8; 32]` compare lexicographically.
unfoldable pub cmp_bytes : List ℕ → List ℕ → Ordering
cmp_bytes [] [] = eq
cmp_bytes [] (b ∷ bs) = lt
cmp_bytes (a ∷ as') [] = gt
cmp_bytes (a ∷ as') (b ∷ bs) = let rest = cmp_bytes as' bs in then_by (compare a b) rest

pub cmp_bytes_refl : (a : List ℕ) → cmp_bytes a a ≡ eq
unfolding cmp_bytes
cmp_bytes_refl [] = refl
cmp_bytes_refl (a ∷ as') = ground (arith, cmp_bytes_refl as')

pub cmp_bytes-eq : (a b : List ℕ) → cmp_bytes a b ≡ eq → a ≡ b
unfolding cmp_bytes
cmp_bytes-eq [] [] h = refl
cmp_bytes-eq [] (b ∷ bs) h = ground arith
cmp_bytes-eq (a ∷ as') [] h = ground arith
cmp_bytes-eq (a ∷ as') (b ∷ bs) h = ground (arith, cmp_bytes-eq as' bs)

pub cmp_bytes-reverse : (a b : List ℕ) → cmp_bytes b a ≡ reverse (cmp_bytes a b)
unfolding cmp_bytes
cmp_bytes-reverse [] [] = refl
cmp_bytes-reverse [] (b ∷ bs) = refl
cmp_bytes-reverse (a ∷ as') [] = refl
cmp_bytes-reverse (a ∷ as') (b ∷ bs) = ground (arith, cmp_bytes-reverse as' bs)

pub cmp_bytes_trans :
    (a b c : List ℕ) → cmp_bytes a b ≡ lt → cmp_bytes b c ≡ lt → cmp_bytes a c ≡ lt
unfolding cmp_bytes
cmp_bytes_trans [] [] c p q = ground arith
cmp_bytes_trans [] (b ∷ bs) [] p q = ground arith
cmp_bytes_trans [] (b ∷ bs) (c ∷ cs) p q = refl
cmp_bytes_trans (a ∷ as') [] c p q = ground arith
cmp_bytes_trans (a ∷ as') (b ∷ bs) [] p q = ground arith
cmp_bytes_trans (a ∷ as') (b ∷ bs) (c ∷ cs) p q = ground (arith, cmp_bytes_trans as' bs cs)

instance abbrev pub bytes_order : KeyOrder (List ℕ)
bytes_order = record {
  cmp = cmp_bytes;
  cmp_refl = cmp_bytes_refl;
  cmp_eq = cmp_bytes-eq;
  cmp_reverse = cmp_bytes-reverse;
  cmp_trans = cmp_bytes_trans;
}

module _ {ℓ κ} {A : Type ℓ} {B : Type κ} ⦃oa : KeyOrder A⦄ ⦃ob : KeyOrder B⦄ where
  abbrev pub cmp_pair : A × B → A × B → Ordering
  cmp_pair p q = then_by (oa.cmp p.0 q.0) (ob.cmp p.1 q.1)

  pub cmp_pair_refl : (p : A × B) → cmp_pair p p ≡ eq
  cmp_pair_refl p = ground (arith, oa.cmp_refl p.0, ob.cmp_refl p.1)

  pub cmp_pair-eq : (p q : A × B) → cmp_pair p q ≡ eq → p ≡ q
  cmp_pair-eq p q h = ground (arith, oa.cmp_eq p.0 q.0, ob.cmp_eq p.1 q.1)

  pub cmp_pair-reverse : (p q : A × B) → cmp_pair q p ≡ reverse (cmp_pair p q)
  cmp_pair-reverse p q = ground (arith, oa.cmp_reverse p.0 q.0, ob.cmp_reverse p.1 q.1)

  pub cmp_pair_trans : (p q r : A × B) → cmp_pair p q ≡ lt → cmp_pair q r ≡ lt → cmp_pair p r ≡ lt
  cmp_pair_trans p q r = ground (
    arith,
    oa.cmp_eq p.0 q.0,
    oa.cmp_eq q.0 r.0,
    oa.cmp_refl p.0,
    oa.cmp_trans p.0 q.0 r.0,
    ob.cmp_trans p.1 q.1 r.1,
  )

  instance abbrev pub pair_order : KeyOrder (A × B)
  pair_order = record {
    cmp = cmp_pair;
    cmp_refl = cmp_pair_refl;
    cmp_eq = cmp_pair-eq;
    cmp_reverse = cmp_pair-reverse;
    cmp_trans = cmp_pair_trans;
  }

-- `==` on keys.
module _ {ℓ} {K : Type ℓ} ⦃o : KeyOrder K⦄ where
  abbrev pub same : K → K → Bool
  same a b = elim (o.cmp a b) [ eq ↦ true | _ ↦ false ]

  pub same_refl : (a : K) → same a a ≡ true
  same_refl a = ground (arith, o.cmp_refl a)

  pub same_eq : (a b : K) → same a b ≡ true → a ≡ b
  same_eq a b h = ground (arith, o.cmp_eq a b)

-- `==` of byte strings.
unfoldable pub bytes_eq : List ℕ → List ℕ → Bool
bytes_eq a b = elim (cmp_bytes a b) [ eq ↦ true | _ ↦ false ]

pub bytes_eq_refl : (a : List ℕ) → bytes_eq a a ≡ true
unfolding bytes_eq
bytes_eq_refl a = rw (cmp_bytes_refl a, bytes_eq) refl

pub eq_of_bytes_eq : (a b : List ℕ) → bytes_eq a b ≡ true → a ≡ b
unfolding bytes_eq
eq_of_bytes_eq a b h = ground (arith, cmp_bytes-eq a b)
