-- ===== src/Carrier/Reorder.antt =====
-- The order of the carrier inputs does not matter to `reconstruct`.
use zalkanes.Base.{
  ℕ, zero, suc, ◌≡◌, ◌≢◌, ◌<◌, refl, sym, ap, ◌∙◌, none, List, [], ◌∷◌, length, replicate,
  length-replicate, ok, and_then-ok, arith,
}
use zalkanes.Base.Bytes.{Bytes}
use zalkanes.Core.{CodeHash}
use zalkanes.Carrier.{Chunk, Slots, slot, fill, place, place_all, reconstruct}
use zalkanes.Carrier.Placing.{slot-fill_ne, slot-fill_self, length-fill, place-ok}
use zalkanes.Carrier.Reconstruct.{reconstruct-ok, reconstruct_of}

-- Lists that differ by exchanges of neighbours.
pub data Reordered : List Chunk → List Chunk → Type 0 where
  same_order : {cs : List Chunk} → Reordered cs cs
  exchange : {a b : Chunk} {cs : List Chunk} → Reordered (a ∷ b ∷ cs) (b ∷ a ∷ cs)
  keep : {a : Chunk} {cs ds : List Chunk} → Reordered cs ds → Reordered (a ∷ cs) (a ∷ ds)
  then_again : {cs ds es : List Chunk} → Reordered cs ds → Reordered ds es → Reordered cs es

fill_comm :
    (s : Slots) (i j : ℕ) (a b : Bytes) → i ≢ j → fill (fill s i a) j b ≡ fill (fill s j b) i a
fill_comm [] i j a b n = refl
fill_comm (x ∷ s) zero zero a b n = absurd (n refl)
fill_comm (x ∷ s) zero (suc j) a b n = refl
fill_comm (x ∷ s) (suc i) zero a b n = refl
fill_comm (x ∷ s) (suc i) (suc j) a b n = ap (λ t. x ∷ t) (fill_comm s i j a b (λ e. n (ap suc e)))

module _ (count : ℕ) where
  place_lem :
      (s : Slots) (c : Chunk)
      → c.index < count
      → slot s c.index ≡ none
      → place count s c ≡ ok (fill s c.index c.payload)
  unfolding place
  place_lem s c h e = ground arith

  place-length : (s t : Slots) (c : Chunk) → place count s c ≡ ok t → length t ≡ length s
  place-length s t c e =
      let (_, _, et) = place-ok count s t c e in rw et (length-fill s c.index c.payload)

  -- Two chunks that are placed one after the other are placed in the other order, too.
  place-exchange :
      (s t u : Slots) (a b : Chunk)
      → length s ≡ count
      → place count s a ≡ ok t
      → place count t b ≡ ok u
      → (v : Slots) × (place count s b ≡ ok v) × (place count v a ≡ ok u)
  place-exchange s t u a b hs ea eb =
      let (ia, na, et) = place-ok count s t a ea in
      let (ib, nb, eu) = place-ok count t u b eb in
      let apart : a.index ≢ b.index = λ e. clash ia na et nb e in
      let free : slot s b.index ≡ none =
        sym (slot-fill_ne s a.index b.index a.payload apart)
        ∙ ap (λ x. slot x b.index) (sym et)
        ∙ nb in
      (
        fill s b.index b.payload,
        place_lem s b ib free,
        place_lem (fill s b.index b.payload) a ia
              (slot-fill_ne s b.index a.index b.payload (λ e. apart (sym e)) ∙ na)
            ∙ ap ok (
                fill_comm s b.index a.index b.payload a.payload (λ e. apart (sym e))
                ∙ sym (eu ∙ ap (λ x. fill x b.index b.payload) et)),
      )
    where
      clash :
          a.index < count
          → slot s a.index ≡ none
          → t ≡ fill s a.index a.payload
          → slot t b.index ≡ none
          → a.index ≡ b.index
          → ⊥
      clash ia na et nb e = ground (
        arith,
        slot-fill_self s a.index a.payload,
        ap (λ x. slot x b.index) et,
        ap (λ i. slot (fill s a.index a.payload) i) e,
      )

  place_all-cons :
      (s u : Slots) (c : Chunk) (cs : List Chunk)
      → place_all count s (c ∷ cs) ≡ ok u
      → (t : Slots) × (place count s c ≡ ok t) × (place_all count t cs ≡ ok u)
  unfolding place_all
  place_all-cons s u c cs e = and_then-ok (place count s c) (λ t. place_all count t cs) e

  place_all-step :
      (s t : Slots) (c : Chunk) (cs : List Chunk)
      → place count s c ≡ ok t
      → place_all count s (c ∷ cs) ≡ place_all count t cs
  unfolding place_all
  place_all-step s t c cs e = rw e

  place_all-Reordered :
      {cs ds : List Chunk}
      → Reordered cs ds
      → (s u : Slots) → length s ≡ count
      → place_all count s cs ≡ ok u
      → place_all count s ds ≡ ok u
  place_all-Reordered same_order s u hs e = e
  place_all-Reordered (exchange {a = a} {b = b} {cs = cs}) s u hs e =
      let (t, ea, r) = place_all-cons s u a (b ∷ cs) e in
      let (w, eb, rest) = place_all-cons t u b cs r in
      let (v, fb, fa) = place-exchange s t w a b hs ea eb in
      place_all-step s v b (a ∷ cs) fb ∙ place_all-step v w a cs fa ∙ rest
  place_all-Reordered (keep {a = a} {cs = cs} {ds = ds} r) s u hs e =
      let (t, ea, rest) = place_all-cons s u a cs e in
      place_all-step s t a ds ea ∙ place_all-Reordered r t u (place-length s t a ea ∙ hs) rest
  place_all-Reordered (then_again r q) s u hs e =
      place_all-Reordered q s u hs (place_all-Reordered r s u hs e)

length-Reordered : {cs ds : List Chunk} → Reordered cs ds → length cs ≡ length ds
length-Reordered same_order = refl
length-Reordered exchange = refl
length-Reordered (keep r) = ap suc (length-Reordered r)
length-Reordered (then_again r q) = length-Reordered r ∙ length-Reordered q

-- Chunks that are accepted in one order are accepted in every order, with the same module.
pub reconstruct-Reordered :
    (sha256 : Bytes → CodeHash) {cs ds : List Chunk} (count len : ℕ) (hash : CodeHash)
    (wasm : Bytes)
    → Reordered cs ds
    → reconstruct sha256 cs count len hash ≡ ok wasm
    → reconstruct sha256 ds count len hash ≡ ok wasm
reconstruct-Reordered sha256 {cs = cs} {ds = ds} count len hash wasm r e =
    let (slots, placed, gathered, el, eh, lo, hi, ec) =
      reconstruct-ok sha256 cs count len hash wasm e in
    reconstruct_of sha256 ds count len hash wasm slots
      (place_all-Reordered count r (replicate count none) slots (length-replicate count none)
        placed)
      gathered el eh lo hi (sym (length-Reordered r) ∙ ec)
