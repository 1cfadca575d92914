-- ===== src/Wallet/Journal/Table.antt =====
-- Well-formed tables of crates/zalkanes-wallet/src/journal.rs, and the rows that its queries read.
use Prim.Native.String.{String}
use zalkanes.Base.{
  ℕ, ◌<◌, ◌≡◌, refl, arith, true, false, Option, none, some, [], ◌∷◌, Bool-cases, All, inl, inr,
  ltb,
}
use zalkanes.Base.Text.{text_eq, text_eq_refl, eq_of_text_eq}
use zalkanes.Wallet.Journal.{
  Plan, Row, Journal, find_row, update_rows, insert_by_time, sort_by_time,
}
use zalkanes.Wallet.Journal.Stage.{JournalStage, as_str}

-- `u32`
abbrev pub IsU32 : ℕ → Type 0
IsU32 n = n < 4294967296

abbrev pub IsU32Option : Option ℕ → Type 0
IsU32Option none = Unit
IsU32Option (some n) = IsU32 n

abbrev pub IsPlan : Plan → Type 0
IsPlan p = IsU32 p.tip_height × IsU32 p.target_height × IsU32Option p.expiry

-- A row that the journal wrote.
pub record IsStored (r : Row) : Type 0 where
  pub stage : JournalStage
  pub stage_text : r.stage ≡ as_str stage
  pub bounded : IsPlan r.plan

-- The keys of the rows differ from the one of `x`.
abbrev pub Differs : String → Journal → Type 0
Differs id rows = All (λ r. text_eq id r.plan.plan_id ≡ false) rows

abbrev pub IsTable : Journal → Type 0
IsTable [] = Unit
IsTable (r ∷ rs) = IsStored r × Differs r.plan.plan_id rs × IsTable rs

pub text_eq_sym : (s t : String) → text_eq s t ≡ false → text_eq t s ≡ false
text_eq_sym s t h = elim (Bool-cases (text_eq t s)) [
  | inr other ↦ other
  | inl own ↦
      let e = eq_of_text_eq t s own in let p : text_eq s t ≡ true = rw e (text_eq_refl s) in cc
]

-- The table after an update.
Differs-update_rows :
    (id i : String) (to : JournalStage) (txid e : Option String) (rows : Journal)
    → Differs id rows
    → Differs id (update_rows i to txid e rows)
unfolding update_rows
Differs-update_rows id i to txid e [] d = tt
Differs-update_rows id i to txid e (r ∷ rows) d =
    ground (arith, Differs-update_rows id i to txid e rows d.1)

pub update_rows-IsTable :
    (i : String) (to : JournalStage) (txid e : Option String) (rows : Journal)
    → IsTable rows
    → IsTable (update_rows i to txid e rows)
unfolding update_rows
update_rows-IsTable i to txid e [] t = tt
update_rows-IsTable i to txid e (r ∷ rows) (st, d, t) =
    elim (Bool-cases (text_eq r.plan.plan_id i)) [
      | inl own ↦
          rw (own, update_rows)
            (
              record { stage = to; stage_text = refl; bounded = st.bounded },
              Differs-update_rows r.plan.plan_id i to txid e rows d,
              update_rows-IsTable i to txid e rows t,
            )
      | inr other ↦
          rw (other, update_rows)
            (
              st,
              Differs-update_rows r.plan.plan_id i to txid e rows d,
              update_rows-IsTable i to txid e rows t,
            )
    ]

pub find_row-Differs : (id : String) (rows : Journal) → Differs id rows → find_row id rows ≡ none
unfolding find_row
find_row-Differs id [] d = refl
find_row-Differs id (r ∷ rows) (h, d) =
    rw (text_eq_sym id r.plan.plan_id h, find_row) (find_row-Differs id rows d)

-- Inserting by time changes the order alone.
All-insert_by_time :
    (P : Row → Type 0) (x : Row) (ys : Journal) → P x → All P ys → All P (insert_by_time x ys)
unfolding insert_by_time
All-insert_by_time P x [] px p = (px, tt)
All-insert_by_time P x (y ∷ ys) px p = ground (arith, All-insert_by_time P x ys px p.1)

pub insert_by_time-IsTable :
    (x : Row) (ys : Journal) → IsTable (x ∷ ys) → IsTable (insert_by_time x ys)
unfolding insert_by_time
insert_by_time-IsTable x [] t = t
insert_by_time-IsTable x (y ∷ ys) (sx, (dxy, dx), (sy, dy, t)) =
    elim (Bool-cases (ltb y.created_at x.created_at)) [
      | inr later ↦ rw (later, insert_by_time) (sx, (dxy, dx), (sy, dy, t))
      | inl before ↦
          rw (before, insert_by_time)
            (
              sy,
              All-insert_by_time _ x ys (text_eq_sym x.plan.plan_id y.plan.plan_id dxy) dy,
              insert_by_time-IsTable x ys (sx, dx, t),
            )
    ]

pub find_row-insert_by_time :
    (id : String) (x : Row) (ys : Journal)
    → Differs x.plan.plan_id ys
    → find_row id (insert_by_time x ys) ≡ find_row id (x ∷ ys)
unfolding insert_by_time find_row
find_row-insert_by_time id x [] d = refl
find_row-insert_by_time id x (y ∷ ys) (h, d) = ground (
  arith,
  find_row-insert_by_time id x ys d,
  eq_of_text_eq x.plan.plan_id id,
  eq_of_text_eq y.plan.plan_id id,
  text_eq_refl id,
)

pub Differs-sort_by_time :
    (rows : Journal) (x : Row)
    → Differs x.plan.plan_id rows
    → Differs x.plan.plan_id (sort_by_time rows)
unfolding sort_by_time
Differs-sort_by_time [] x d = tt
Differs-sort_by_time (y ∷ ys) x d =
    All-insert_by_time _ y (sort_by_time ys) d.0 (Differs-sort_by_time ys x d.1)

pub sort_by_time-IsTable : (rows : Journal) → IsTable rows → IsTable (sort_by_time rows)
unfolding sort_by_time
sort_by_time-IsTable [] t = tt
sort_by_time-IsTable (r ∷ rows) (st, d, t) =
    insert_by_time-IsTable r (sort_by_time rows)
      (st, Differs-sort_by_time rows r d, sort_by_time-IsTable rows t)
