-- ===== src/Base/OrdMap.antt =====
-- `BTreeMap<K, V>`: an association list in ascending key order, with the laws of its operations.
use Prim.Native.Nat.{suc, Ordering}
use Prim.Native.Nat.Ordering.{lt, eq, gt}
use mathlib.Core.Path.{◌≡◌, refl}
use mathlib.Core.Option.{Option, none, some}
use mathlib.Core.List.{List, [], ◌∷◌}
use zalkanes.Base.Lists.{length, All}
use native.Mathlib.Omega.{arith}
use zalkanes.Base.Order.{KeyOrder}

abbrev pub OrdMap {ℓ κ} : Type ℓ → Type κ → Type (ℓ ⊔ κ)
OrdMap K V = List (K × V)

module _ {ℓ κ} {K : Type ℓ} {V : Type κ} ⦃o : KeyOrder K⦄ where
  -- `get`
  unfoldable pub lookup : K → OrdMap K V → Option V
  lookup k [] = none
  lookup k ((j, v) ∷ m) = elim (o.cmp k j) [ eq ↦ some v | _ ↦ lookup k m ]

  -- `insert`
  unfoldable pub insert : K → V → OrdMap K V → OrdMap K V
  insert k v [] = (k, v) ∷ []
  insert k v ((j, w) ∷ m) = elim (o.cmp k j) [
    | lt ↦ (k, v) ∷ (j, w) ∷ m
    | eq ↦ (k, v) ∷ m
    | gt ↦ (j, w) ∷ insert k v m
  ]

  -- `remove`
  unfoldable pub remove : K → OrdMap K V → OrdMap K V
  remove k [] = []
  remove k ((j, w) ∷ m) = elim (o.cmp k j) [ eq ↦ remove k m | _ ↦ (j, w) ∷ remove k m ]

  -- Writing back an optional value: `insert` or `remove`.
  abbrev pub put_back : K → Option V → OrdMap K V → OrdMap K V
  put_back k none m = remove k m
  put_back k (some v) m = insert k v m

  -- Every key of the map lies above `k`.
  abbrev pub Above : K → OrdMap K V → Type 0
  Above k [] = Unit
  Above k ((j, w) ∷ m) = (o.cmp k j ≡ lt) × Above k m

  abbrev pub IsSorted : OrdMap K V → Type 0
  IsSorted [] = Unit
  IsSorted ((j, w) ∷ m) = Above j m × IsSorted m

  pub lookup-insert :
      (k : K) (v : V) (j : K) (m : OrdMap K V)
      → lookup j (insert k v m) ≡ elim (o.cmp j k) [ eq ↦ some v | _ ↦ lookup j m ]
  unfolding lookup insert
  lookup-insert k v j [] = refl
  lookup-insert k v j ((i, w) ∷ m) =
      ground (arith, o.cmp_eq k i, o.cmp_eq j i, o.cmp_eq j k, o.cmp_refl k, lookup-insert k v j m)

  pub lookup-remove :
      (k j : K) (m : OrdMap K V)
      → lookup j (remove k m) ≡ elim (o.cmp j k) [ eq ↦ none | _ ↦ lookup j m ]
  unfolding lookup remove
  lookup-remove k j [] = ground arith
  lookup-remove k j ((i, w) ∷ m) =
      ground (arith, o.cmp_eq k i, o.cmp_eq j i, o.cmp_eq j k, o.cmp_refl k, lookup-remove k j m)

  Above-lower : (k j : K) (m : OrdMap K V) → o.cmp k j ≡ lt → Above j m → Above k m
  Above-lower k j [] h a = tt
  Above-lower k j ((i, w) ∷ m) h a = (o.cmp_trans k j i h a.0, Above-lower k j m h a.1)

  Above-insert :
      (b k : K) (v : V) (m : OrdMap K V) → o.cmp b k ≡ lt → Above b m → Above b (insert k v m)
  unfolding insert
  Above-insert b k v [] h a = (h, tt)
  Above-insert b k v ((i, w) ∷ m) h a = ground (arith, Above-insert b k v m h a.1)

  Above-remove : (b k : K) (m : OrdMap K V) → Above b m → Above b (remove k m)
  unfolding remove
  Above-remove b k [] a = tt
  Above-remove b k ((i, w) ∷ m) a = ground (arith, Above-remove b k m a.1)

  pub insert-IsSorted : (k : K) (v : V) (m : OrdMap K V) → IsSorted m → IsSorted (insert k v m)
  unfolding insert
  insert-IsSorted k v [] s = (tt, tt)
  insert-IsSorted k v ((i, w) ∷ m) s = ground (
    arith,
    insert-IsSorted k v m s.1,
    Above-insert i k v m,
    Above-lower k i m,
    o.cmp_reverse k i,
    o.cmp_eq k i,
  )

  pub remove-IsSorted : (k : K) (m : OrdMap K V) → IsSorted m → IsSorted (remove k m)
  unfolding remove
  remove-IsSorted k [] s = tt
  remove-IsSorted k ((i, w) ∷ m) s = ground (arith, remove-IsSorted k m s.1, Above-remove i k m s.0)

  pub put_back-IsSorted :
      (k : K) (v : Option V) (m : OrdMap K V) → IsSorted m → IsSorted (put_back k v m)
  put_back-IsSorted k none m s = remove-IsSorted k m s
  put_back-IsSorted k (some v) m s = insert-IsSorted k v m s

  pub lookup-Above : (k : K) (m : OrdMap K V) → Above k m → lookup k m ≡ none
  unfolding lookup
  lookup-Above k [] a = refl
  lookup-Above k ((i, w) ∷ m) a = ground (arith, lookup-Above k m a.1)

  -- The entries behind the first key, looked up, for a map whose other keys lie above it.
  lookup_tail :
      (k : K) (v : V) (m : OrdMap K V) (q : K)
      → Above k m
      → lookup q m ≡ elim (o.cmp q k) [ eq ↦ none | _ ↦ lookup q ((k, v) ∷ m) ]
  unfolding lookup
  lookup_tail k v m q a = ground (arith, o.cmp_eq q k, lookup-Above k m a)

  same_head :
      (k : K) (v : V) (m : OrdMap K V) (j : K) (w : V) (n : OrdMap K V)
      → Above k m
      → Above j n
      → lookup k ((k, v) ∷ m) ≡ lookup k ((j, w) ∷ n)
      → lookup j ((k, v) ∷ m) ≡ lookup j ((j, w) ∷ n)
      → o.cmp k j ≡ eq
  unfolding lookup
  same_head k v m j w n a b hk hj = ground (
    arith,
    o.cmp_refl k,
    o.cmp_refl j,
    o.cmp_reverse k j,
    lookup-Above k n,
    Above-lower k j n,
    lookup-Above j m,
    Above-lower j k m,
  )

  -- Sorted maps that read alike are equal.
  pub eq_of_lookup :
      (m n : OrdMap K V) → IsSorted m → IsSorted n → ((k : K) → lookup k m ≡ lookup k n) → m ≡ n
  eq_of_lookup [] [] s t h = refl
  eq_of_lookup [] ((j, w) ∷ n) s t h = unfold lookup in ground (arith, h j, o.cmp_refl j)
  eq_of_lookup ((k, v) ∷ m) [] s t h = unfold lookup in ground (arith, h k, o.cmp_refl k)
  eq_of_lookup ((k, v) ∷ m) ((j, w) ∷ n) s t h = join (eq_of_lookup m n s.1 t.1 tails)
    where
      head : o.cmp k j ≡ eq
      head = same_head k v m j w n s.0 t.0 (h k) (h j)

      tails : (q : K) → lookup q m ≡ lookup q n
      tails q =
          ground (arith, head, o.cmp_eq k j, h q, lookup_tail k v m q s.0, lookup_tail j w n q t.0)

      join : m ≡ n → ((k, v) ∷ m) ≡ ((j, w) ∷ n)
      join e = unfold lookup in ground (arith, e, head, o.cmp_eq k j, o.cmp_refl k, h k)

  pub lookup-put_back :
      (k : K) (w : Option V) (q : K) (m : OrdMap K V)
      → lookup q (put_back k w m) ≡ elim (o.cmp q k) [ eq ↦ w | _ ↦ lookup q m ]
  lookup-put_back k none q m = lookup-remove k q m
  lookup-put_back k (some v) q m = lookup-insert k v q m

  -- Writing back the value that a write replaced restores the map.
  pub put_back-insert :
      (k : K) (v : V) (m : OrdMap K V) → IsSorted m → put_back k (lookup k m) (insert k v m) ≡ m
  put_back-insert k v m s =
      eq_of_lookup _ m (put_back-IsSorted k (lookup k m) _ (insert-IsSorted k v m s)) s λ q.
        ground (
          arith,
          o.cmp_eq q k,
          lookup-put_back k (lookup k m) q (insert k v m),
          lookup-insert k v q m,
        )

  pub put_back-remove :
      (k : K) (m : OrdMap K V) → IsSorted m → put_back k (lookup k m) (remove k m) ≡ m
  put_back-remove k m s =
      eq_of_lookup _ m (put_back-IsSorted k (lookup k m) _ (remove-IsSorted k m s)) s λ q.
        ground
          (arith, o.cmp_eq q k, lookup-put_back k (lookup k m) q (remove k m), lookup-remove k q m)

  pub remove_absent : (k : K) (m : OrdMap K V) → IsSorted m → lookup k m ≡ none → remove k m ≡ m
  remove_absent k m s e =
      eq_of_lookup _ m (remove-IsSorted k m s) s
        λ q. ground (arith, o.cmp_eq q k, lookup-remove k q m)

  pub length-insert :
      (k : K) (v : V) (m : OrdMap K V)
      → IsSorted m
      → length (insert k v m) ≡ elim (lookup k m) [ some _ ↦ length m | none ↦ suc (length m) ]
  unfolding insert lookup
  length-insert k v [] h = refl
  length-insert k v ((j, w) ∷ m) h =
      let above : o.cmp k j ≡ lt → lookup k m ≡ none =
        λ l. lookup-Above k m (Above-lower k j m l h.0) in
      let rest = length-insert k v m h.1 in ground (arith, above, rest)

  pub All-insert {μ} :
      (P : K × V → Type μ) (k : K) (v : V) (m : OrdMap K V)
      → P (k, v)
      → All P m
      → All P (insert k v m)
  unfolding insert
  All-insert P k v [] p h = (p, tt)
  All-insert P k v ((j, w) ∷ m) p h = go (o.cmp k j) (All-insert P k v m p h.1)
    where
      go :
          (c : Ordering)
          → All P (insert k v m)
          → All P
              (elim c [ lt ↦ (k, v) ∷ (j, w) ∷ m | eq ↦ (k, v) ∷ m | gt ↦ (j, w) ∷ insert k v m ])
      go lt rest = (p, h)
      go eq rest = (p, h.1)
      go gt rest = (h.0, rest)
