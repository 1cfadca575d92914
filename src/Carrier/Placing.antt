-- ===== src/Carrier/Placing.antt =====
-- One round of the loop of `reconstruct` of crates/zalkanes-carrier/src/lib.rs: a chunk into its slot.
use zalkanes.Base.{ℕ, zero, suc, ◌≡◌, ◌≢◌, ◌<◌, refl, ap, some, none, [], ◌∷◌, length, ok, arith}
use zalkanes.Base.Bytes.{Bytes}
use zalkanes.Carrier.{Chunk, Slots, slot, fill, place}

pub slot-fill_ne : (s : Slots) (i j : ℕ) (a : Bytes) → i ≢ j → slot (fill s i a) j ≡ slot s j
slot-fill_ne [] i j a n = refl
slot-fill_ne (x ∷ s) zero zero a n = absurd (n refl)
slot-fill_ne (x ∷ s) zero (suc j) a n = refl
slot-fill_ne (x ∷ s) (suc i) zero a n = refl
slot-fill_ne (x ∷ s) (suc i) (suc j) a n = slot-fill_ne s i j a (λ e. n (ap suc e))

pub slot-fill_self : (s : Slots) (i : ℕ) (a : Bytes) → i < length s → slot (fill s i a) i ≡ some a
slot-fill_self [] i a h = absurd (omega arith)
slot-fill_self (x ∷ s) zero a h = refl
slot-fill_self (x ∷ s) (suc i) a h = slot-fill_self s i a (omega arith)

pub length-fill : (s : Slots) (i : ℕ) (a : Bytes) → length (fill s i a) ≡ length s
length-fill [] i a = refl
length-fill (x ∷ s) zero a = refl
length-fill (x ∷ s) (suc i) a = ap suc (length-fill s i a)

pub slot-fill-none :
    (s : Slots) (i j : ℕ) (a : Bytes) → slot (fill s i a) j ≡ none → slot s j ≡ none
slot-fill-none [] i j a h = h
slot-fill-none (x ∷ s) zero zero a h = cc
slot-fill-none (x ∷ s) zero (suc j) a h = h
slot-fill-none (x ∷ s) (suc i) zero a h = h
slot-fill-none (x ∷ s) (suc i) (suc j) a h = slot-fill-none s i j a h

-- What a round has checked and done.
pub place-ok :
    (count : ℕ) (s t : Slots) (c : Chunk)
    → place count s c ≡ ok t
    → (c.index < count) × (slot s c.index ≡ none) × (t ≡ fill s c.index c.payload)
unfolding place
place-ok count s t c e = ground arith
