-- ===== src/Wallet/Plan/Encoding.antt =====
-- Encodings of crates/zalkanes-wallet/src/plan.rs that can be read from the front of a byte string.
use zalkanes.Base.{
  ℕ, zero, suc, ◌/◌, ◌%◌, ◌≡◌, ◌<◌, refl, ap₂, sym, ◌∙◌, List, [], ◌∷◌, ◌++◌, length, arith, All,
}
use mathlib.Core.List.{append_assoc}
use zalkanes.Base.Bytes.{Bytes}
use zalkanes.Wallet.Plan.{to_le, counted, each, listed}

-- An encoding that can be taken off the front of a byte string, for values within bounds.
pub record Splits {A : Type 0} (f : A → Bytes) (V : A → Type 0) : Type 0 where
  pub split : (a b : A) (x y : Bytes) → V a → V b → f a ++ x ≡ f b ++ y → (a ≡ b) × (x ≡ y)

abbrev pub Any : {A : Type 0} → A → Type 0
Any a = Unit

pub byte-Splits : Splits (λ n. n ∷ []) Any
byte-Splits = record { split = λ a b x y va vb h. (cc, cc) }

abbrev pub Fits : ℕ → ℕ → Type 0
Fits zero n = n ≡ 0
Fits (suc k) n = Fits k (n / 256)

to_le_split :
    (k a b : ℕ) (x y : Bytes)
    → Fits k a
    → Fits k b
    → to_le k a ++ x ≡ to_le k b ++ y
    → (a ≡ b) × (x ≡ y)
to_le_split zero a b x y va vb h = (omega (arith, va, vb), h)
to_le_split (suc k) a b x y va vb h =
    let e0 : a % 256 ≡ b % 256 = cc in
    let h' : to_le k (a / 256) ++ x ≡ to_le k (b / 256) ++ y = cc in
    let (e1, ex) = to_le_split k (a / 256) (b / 256) x y va vb h' in (omega (arith, e0, e1), ex)

pub to_le-Splits : (k : ℕ) → Splits (to_le k) (Fits k)
to_le-Splits k = record { split = to_le_split k }

-- Byte strings of one length.
pub same_length : (a b x y : Bytes) → length a ≡ length b → a ++ x ≡ b ++ y → (a ≡ b) × (x ≡ y)
same_length [] [] x y l h = (refl, h)
same_length [] (b ∷ bs) x y l h = absurd (omega arith)
same_length (a ∷ as') [] x y l h = absurd (omega arith)
same_length (a ∷ as') (b ∷ bs) x y l h =
    let e0 : a ≡ b = cc in
    let h' : as' ++ x ≡ bs ++ y = cc in
    let (e1, ex) = same_length as' bs x y (omega arith) h' in (ap₂ (λ p q. p ∷ q) e0 e1, ex)

abbrev pub Is32Long : Bytes → Type 0
Is32Long b = length b ≡ 32

pub hash-Splits : Splits (λ b. b) Is32Long
hash-Splits = record { split = λ a b x y va vb h. same_length a b x y (va ∙ sym vb) h }

abbrev pub IsU16Long {ℓ} : {A : Type ℓ} → List A → Type 0
IsU16Long xs = length xs < 65536

pub two_bytes_lem : (n : ℕ) → n < 65536 → Fits 2 n
two_bytes_lem n h = omega arith

pub counted-Splits : Splits counted IsU16Long
unfolding counted
counted-Splits = record {
  split = λ a b x y va vb h.
      let h' =
        sym (append_assoc (to_le 2 (length a)) a x) ∙ (h ∙ append_assoc (to_le 2 (length b)) b y) in
      let (el, h'') =
        to_le_split 2 (length a) (length b) (a ++ x) (b ++ y) (two_bytes_lem _ va)
          (two_bytes_lem _ vb) h' in
      same_length a b x y el h'';
}

-- One encoding behind another.
pub both :
    {A B : Type 0} {f : A → Bytes} {g : B → Bytes} {V : A → Type 0} {W : B → Type 0}
    → Splits f V
    → Splits g W
    → Splits (λ (p : A × B). f p.0 ++ g p.1) (λ p. V p.0 × W p.1)
both {f = f} {g = g} s t = record {
  split = λ (a, b) (a', b') x y (va, wb) (va', wb') h.
      let h' = sym (append_assoc (f a) (g b) x) ∙ (h ∙ append_assoc (f a') (g b') y) in
      let (ea, h'') = s.split a a' (g b ++ x) (g b' ++ y) va va' h' in
      let (eb, ex) = t.split b b' x y wb wb' h'' in (ap₂ (λ p q. (p, q)) ea eb, ex);
}

each_split :
    {A : Type 0} {f : A → Bytes} {V : A → Type 0}
    → Splits f V
    → (as' bs : List A) (x y : Bytes) → length as' ≡ length bs
    → All V as'
    → All V bs
    → each f as' ++ x ≡ each f bs ++ y
    → (as' ≡ bs) × (x ≡ y)
unfolding each
each_split s [] [] x y l va vb h = (refl, h)
each_split s [] (b ∷ bs) x y l va vb h = absurd (omega arith)
each_split s (a ∷ as') [] x y l va vb h = absurd (omega arith)
each_split {f = f} s (a ∷ as') (b ∷ bs) x y l (va, vas) (vb, vbs) h =
    let h' = sym (append_assoc (f a) (each f as') x) ∙ (h ∙ append_assoc (f b) (each f bs) y) in
    let (e0, h'') = s.split a b (each f as' ++ x) (each f bs ++ y) va vb h' in
    let (e1, ex) = each_split s as' bs x y (omega arith) vas vbs h'' in
    (ap₂ (λ p q. p ∷ q) e0 e1, ex)

pub listed-Splits :
    {A : Type 0} {f : A → Bytes} {V : A → Type 0}
    → Splits f V
    → Splits (listed f) (λ xs. IsU16Long xs × All V xs)
unfolding listed
listed-Splits {f = f} s = record {
  split = λ as' bs x y (la, va) (lb, vb) h.
      let h' =
        sym (append_assoc (to_le 2 (length as')) (each f as') x)
        ∙ (h ∙ append_assoc (to_le 2 (length bs)) (each f bs) y) in
      let (el, h'') =
        to_le_split 2 (length as') (length bs) (each f as' ++ x) (each f bs ++ y)
          (two_bytes_lem _ la) (two_bytes_lem _ lb) h' in
      each_split s as' bs x y el va vb h'';
}
