-- ===== src/Carrier/Accepted.antt =====
-- What `reconstruct` of crates/zalkanes-carrier/src/lib.rs accepts, said of the chunks themselves.
use zalkanes.Base.{
  ℕ, suc, ◌+◌, ◌≡◌, ◌≢◌, ◌≤◌, ◌<◌, refl, sym, ap, ◌∙◌, some, none, List, [], ◌∷◌, ◌++◌, length,
  replicate, length-replicate, map, ok, and_then-ok, All, All-imp, arith,
}
use mathlib.Core.List.{append_assoc, append-nil}
use zalkanes.Base.Bytes.{Bytes}
use zalkanes.Core.{CodeHash, max_code_bytes}
use zalkanes.Carrier.Script.{concat}
use zalkanes.Carrier.{Chunk, Slots, slot, place_all, gather, reconstruct}
use zalkanes.Carrier.Placing.{slot-fill_ne, slot-fill_self, slot-fill-none, length-fill, place-ok}
use zalkanes.Carrier.Reconstruct.{reconstruct-ok}

-- No number twice.
abbrev pub Distinct : List ℕ → Type 0
Distinct [] = Unit
Distinct (n ∷ ns) = All (λ m. n ≢ m) ns × Distinct ns

abbrev pub indices : List Chunk → List ℕ
indices cs = map (λ c. c.index) cs

-- What the slots hold after all rounds, from the slots before.
record Placed (count : ℕ) (s s' : Slots) (cs : List Chunk) : Type 0 where
  size : length s' ≡ length s
  kept : (j : ℕ) (x : Bytes) → slot s j ≡ some x → slot s' j ≡ some x
  in_range : All (λ c. c.index < count) cs
  was_empty : All (λ c. slot s c.index ≡ none) cs
  filled : All (λ c. slot s' c.index ≡ some c.payload) cs
  distinct : Distinct (indices cs)

All-indices : (P : ℕ → Type 0) (cs : List Chunk) → All (λ c. P c.index) cs → All P (indices cs)
All-indices P [] a = tt
All-indices P (c ∷ cs) (p, a) = (p, All-indices P cs a)

place_all-Placed :
    (count : ℕ) (s s' : Slots) (cs : List Chunk)
    → length s ≡ count
    → place_all count s cs ≡ ok s'
    → Placed count s s' cs
unfolding place_all
place_all-Placed count s s' [] hl h =
    let e : s' ≡ s = ground arith in
    record {
      size = ap length e;
      kept = λ j x at. ap (λ t. slot t j) e ∙ at;
      in_range = tt;
      was_empty = tt;
      filled = tt;
      distinct = tt;
    }
place_all-Placed count s s' (c ∷ cs) hl h =
    let (s1, one, rest) = and_then-ok _ _ h in
    let (hi, he, ef) = place-ok count s s1 c one in
    let own : slot s1 c.index ≡ some c.payload =
      rw ef (slot-fill_self s c.index c.payload (omega arith)) in
    let r =
      place_all-Placed count s1 s' cs (ap length ef ∙ length-fill s c.index c.payload ∙ hl) rest in
    record {
      size = r.size ∙ ap length ef ∙ length-fill s c.index c.payload;
      kept = λ j x e. r.kept j x (
          ap (λ t. slot t j) ef
          ∙ slot-fill_ne s c.index j c.payload
              (λ same. let at : slot s c.index ≡ some x = ap (slot s) same ∙ e in cc)
          ∙ e);
      in_range = (hi, r.in_range);
      was_empty = (
        he,
        All-imp _
            (λ d e.
              slot-fill-none s c.index d.index c.payload (ap (λ t. slot t d.index) (sym ef) ∙ e))
            cs r.was_empty,
      );
      filled = (r.kept c.index c.payload own, r.filled);
      distinct = (
        All-indices (λ m. c.index ≢ m) cs
            (All-imp (λ d. slot s1 d.index ≡ none)
              (λ d e same.
                let at : slot s1 d.index ≡ some c.payload = ap (slot s1) (sym same) ∙ own in cc)
              cs r.was_empty),
        r.distinct,
      );
    }

-- Slots that are joined are all full.
gather-ok :
    (i : ℕ) (joined wasm : Bytes) (s : Slots)
    → gather i joined s ≡ ok wasm
    → (bs : List Bytes) × (s ≡ map some bs) × (wasm ≡ joined ++ concat bs)
unfolding gather concat
gather-ok i joined wasm [] h =
    let e : joined ≡ wasm = ground arith in ([], refl, sym e ∙ sym (append-nil joined))
gather-ok i joined wasm (none ∷ s) h = absurd (ground arith)
gather-ok i joined wasm (some b ∷ s) h =
    let (bs, e, w) = gather-ok (i + 1) (joined ++ b) wasm s h in
    (b ∷ bs, ap (λ t. some b ∷ t) e, w ∙ append_assoc joined b (concat bs))

length-map-some : (bs : List Bytes) → length (map some bs) ≡ length bs
length-map-some [] = refl
length-map-some (b ∷ bs) = ap suc (length-map-some bs)

-- Of the chunks that are accepted no two have one index, the indices are below the declared number
-- of chunks, of which there are as many, and the module is the payloads joined in the order of the
-- indices; it has the declared length and hash, and the length is positive and within the limit.
pub reconstruct-Accepted :
    (sha256 : Bytes → CodeHash) (chunks : List Chunk) (chunk_count expected_length : ℕ)
    (expected_hash : CodeHash) (wasm : Bytes)
    → reconstruct sha256 chunks chunk_count expected_length expected_hash ≡ ok wasm
    → (length chunks ≡ chunk_count)
      × Distinct (indices chunks)
      × All (λ c. c.index < chunk_count) chunks
      × ((payloads : List Bytes) × (length payloads ≡ chunk_count)
          × (wasm ≡ concat payloads)
          × All (λ c. slot (map some payloads) c.index ≡ some c.payload) chunks)
      × (length wasm ≡ expected_length)
      × (sha256 wasm ≡ expected_hash)
      × (0 < expected_length)
      × (expected_length ≤ max_code_bytes)
reconstruct-Accepted sha256 chunks chunk_count expected_length expected_hash wasm e =
    let (slots, placed, gathered, len, hash, lo, hi, count) =
      reconstruct-ok sha256 chunks chunk_count expected_length expected_hash wasm e in
    let p =
      place_all-Placed chunk_count (replicate chunk_count none) slots chunks
        (length-replicate chunk_count none) placed in
    let (payloads, full, joined) = gather-ok 0 [] wasm slots gathered in
    (
      count,
      p.distinct,
      p.in_range,
      (
        payloads,
        sym (length-map-some payloads)
            ∙ ap length (sym full)
            ∙ p.size
            ∙ length-replicate chunk_count none,
        joined,
        All-imp _ (λ c at. ap (λ s. slot s c.index) (sym full) ∙ at) chunks p.filled,
      ),
      len,
      hash,
      lo,
      hi,
    )
