-- ===== src/Wallet/Journal/Queries.antt =====
-- What the queries of crates/zalkanes-wallet/src/journal.rs read from a well-formed table.
use Prim.Native.String.{String}
use zalkanes.Base.{
  ℕ, ◌≡◌, refl, ap, ◌∙◌, subst, arith, not, Option, none, some, List, [], ◌∷◌, ok, if◌then◌else◌,
  Bool-cases, inl, inr, lt→ltb,
}
use zalkanes.Base.Text.{text_eq, eq_of_text_eq}
use zalkanes.Wallet.Journal.{
  Row, Journal, find_row, is_open, open_rows, sort_by_time, to_u32, to_u32_option, OperationRow,
  row_to_operation, to_operations, non_terminal_rows,
}
use zalkanes.Wallet.Journal.Stage.{
  JournalStage, as_str, parse_stage, planned, reserved, proving, proven, signing, signed, extracted,
  verified, broadcasting, broadcast_unknown, broadcast_accepted, mined, cancelled, expired,
  rejected, reorged,
}
use zalkanes.Wallet.Journal.Diagram.{parse_stage-as_str, is_terminal}
use zalkanes.Wallet.Journal.Table.{
  IsU32, IsU32Option, IsStored, Differs, IsTable, find_row-Differs, find_row-insert_by_time,
  Differs-sort_by_time, sort_by_time-IsTable,
}

find_row-sort_by_time :
    (id : String) (rows : Journal)
    → IsTable rows
    → find_row id (sort_by_time rows) ≡ find_row id rows
unfolding sort_by_time find_row
find_row-sort_by_time id [] t = refl
find_row-sort_by_time id (r ∷ rows) (st, d, t) =
    let s = sort_by_time-IsTable (r ∷ rows) (st, d, t) in
    find_row-insert_by_time id r (sort_by_time rows) (Differs-sort_by_time rows r d)
    ∙ (rw (find_row-sort_by_time id rows t) refl)

open_rows-Differs : (id : String) (rows : Journal) → Differs id rows → Differs id (open_rows rows)
unfolding open_rows
open_rows-Differs id [] d = tt
open_rows-Differs id (r ∷ rows) d = ground (arith, open_rows-Differs id rows d.1)

open_rows-IsTable : (rows : Journal) → IsTable rows → IsTable (open_rows rows)
unfolding open_rows
open_rows-IsTable [] t = tt
open_rows-IsTable (r ∷ rows) (st, d, t) = elim (Bool-cases (is_open r)) [
  | inl o ↦
      rw (o, open_rows) (st, open_rows-Differs r.plan.plan_id rows d, open_rows-IsTable rows t)
  | inr c ↦ rw (c, open_rows) (open_rows-IsTable rows t)
]

abbrev pub if_open : Option Row → Option Row
if_open none = none
if_open (some r) = if is_open r then some r else none

find_row-open_rows :
    (id : String) (rows : Journal)
    → IsTable rows
    → find_row id (open_rows rows) ≡ if_open (find_row id rows)
unfolding open_rows find_row
find_row-open_rows id [] t = refl
find_row-open_rows id (r ∷ rows) (st, d, t) =
    let ih = find_row-open_rows id rows t in
    elim (Bool-cases (text_eq r.plan.plan_id id)) [
      | inr other ↦ ground (arith, ih, other)
      | inl own ↦
          let gone = find_row-Differs id (open_rows rows) (
            subst (λ k. Differs k (open_rows rows)) (eq_of_text_eq r.plan.plan_id id own)
              (open_rows-Differs r.plan.plan_id rows d)) in
          ground (arith, own, gone)
    ]

-- The row as the query gives it.
abbrev pub as_operation : Row → JournalStage → OperationRow
as_operation r s = record { plan = r.plan; stage = s; txid = r.txid; last_error = r.last_error }

to_u32-ok : (n : ℕ) → IsU32 n → to_u32 n ≡ ok n
unfolding to_u32
to_u32-ok n h = rw (lt→ltb n 4294967296 h) refl

to_u32_option-ok : (o : Option ℕ) → IsU32Option o → to_u32_option o ≡ ok o
unfolding to_u32_option
to_u32_option-ok none h = refl
to_u32_option-ok (some n) h = rw (to_u32-ok n h) refl

row_to_operation-ok :
    (r : Row) (st : IsStored r) → row_to_operation r ≡ ok (as_operation r st.stage)
unfolding row_to_operation
row_to_operation-ok r st =
    let (a, b, c) = st.bounded in
    rw (to_u32-ok r.plan.tip_height a, row_to_operation)
      (rw (to_u32-ok r.plan.target_height b) (
        rw (ap parse_stage st.stage_text ∙ parse_stage-as_str st.stage)
          (rw (to_u32_option-ok r.plan.expiry c) refl)))

abbrev pub operations_of : (rows : Journal) → IsTable rows → List OperationRow
operations_of [] t = []
operations_of (r ∷ rows) (st, d, t) = as_operation r st.stage ∷ operations_of rows t

to_operations-ok :
    (rows : Journal) (t : IsTable rows) → to_operations rows ≡ ok (operations_of rows t)
unfolding to_operations
to_operations-ok [] t = refl
to_operations-ok (r ∷ rows) (st, d, t) =
    rw (row_to_operation-ok r st) (rw (to_operations-ok rows t) refl)

-- The rows that `non_terminal_rows` reads.
abbrev pub read_rows : Journal → Journal
read_rows rows = sort_by_time (open_rows rows)

pub read_rows-IsTable : (rows : Journal) → IsTable rows → IsTable (read_rows rows)
read_rows-IsTable rows t = sort_by_time-IsTable (open_rows rows) (open_rows-IsTable rows t)

pub non_terminal_rows-ok :
    (rows : Journal) (t : IsTable rows)
    → non_terminal_rows rows ≡ ok (operations_of (read_rows rows) (read_rows-IsTable rows t))
unfolding non_terminal_rows
non_terminal_rows-ok rows t = to_operations-ok (read_rows rows) (read_rows-IsTable rows t)

pub find_row-read_rows :
    (id : String) (rows : Journal)
    → IsTable rows
    → find_row id (read_rows rows) ≡ if_open (find_row id rows)
find_row-read_rows id rows t =
    find_row-sort_by_time id (open_rows rows) (open_rows-IsTable rows t)
    ∙ find_row-open_rows id rows t

pub is_open-terminal :
    (s : JournalStage) (r : Row) → r.stage ≡ as_str s → is_open r ≡ not (is_terminal s)
unfolding is_open as_str is_terminal text_eq
is_open-terminal planned r e = rw e refl
is_open-terminal reserved r e = rw e refl
is_open-terminal proving r e = rw e refl
is_open-terminal proven r e = rw e refl
is_open-terminal signing r e = rw e refl
is_open-terminal signed r e = rw e refl
is_open-terminal extracted r e = rw e refl
is_open-terminal verified r e = rw e refl
is_open-terminal broadcasting r e = rw e refl
is_open-terminal broadcast_unknown r e = rw e refl
is_open-terminal broadcast_accepted r e = rw e refl
is_open-terminal mined r e = rw e refl
is_open-terminal cancelled r e = rw e refl
is_open-terminal expired r e = rw e refl
is_open-terminal rejected r e = rw e refl
is_open-terminal reorged r e = rw e refl
