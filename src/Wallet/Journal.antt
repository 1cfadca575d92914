-- ===== src/Wallet/Journal.antt =====
-- crates/zalkanes-wallet/src/journal.rs: the table of operations and its statements. The SQLite
-- table is the list of its rows in insertion order; a transaction that fails leaves the table as it
-- was, so a failing operation returns no table. `now` is the clock's reading. The column
-- `updated_at`, which nothing reads, is left out.
pub mod Stage
pub mod Diagram
pub mod Rows
pub mod Table
pub mod Queries
pub mod History
pub mod Wellformed
use Prim.Native.String.{String}
use zalkanes.Base.{
  ℕ, ltb, Bool, true, false, Option, none, some, List, [], ◌∷◌, ◌++◌, ◌&&◌, ◌==◌, Result, ok, err,
  and_then, if◌then◌else◌,
}
use zalkanes.Base.Text.{text_eq}
use zalkanes.Wallet.Journal.Stage.{
  JournalStage, planned, reserved, JournalError, no_row, illegal_transition, plan_id_conflict,
  corrupt, as_str, parse_stage, can_transition,
}

-- The arguments of `create_plan`, which no statement ever changes.
pub record Plan : Type 0 where
  pub plan_id : String
  pub intent_hash : String
  pub kind : String
  pub funding_mode : String
  pub lock_owner : String
  pub tip_height : ℕ
  pub tip_hash : String
  pub target_height : ℕ
  pub selected_inputs : String
  pub expiry : Option ℕ

-- A row of the table.
pub record Row : Type 0 where
  pub plan : Plan
  pub stage : String
  pub txid : Option String
  pub last_error : Option String
  pub created_at : ℕ

abbrev pub Journal : Type 0
Journal = List Row

-- `SELECT … WHERE plan_id = ?`: the primary key makes it one row at most.
unfoldable pub find_row : String → Journal → Option Row
find_row plan_id [] = none
find_row plan_id (r ∷ rs) =
    let rest = find_row plan_id rs in if text_eq r.plan.plan_id plan_id then some r else rest

-- `u32::try_from` of a stored integer.
unfoldable pub to_u32 : ℕ → Result ℕ JournalError
to_u32 v = if ltb v 4294967296 then ok v else err corrupt

unfoldable pub to_u32_option : Option ℕ → Result (Option ℕ) JournalError
to_u32_option none = ok none
to_u32_option (some v) = and_then (to_u32 v) λ v'. ok (some v')

-- `==` of two `Option<u32>`
unfoldable pub same_expiry : Option ℕ → Option ℕ → Bool
same_expiry none none = true
same_expiry (some a) (some b) = a == b
same_expiry _ _ = false

-- The comparison of the columns, `same` in `create_plan`.
unfoldable pub same_plan : Plan → Plan → Bool
same_plan e p =
    text_eq e.intent_hash p.intent_hash
    && (text_eq e.kind p.kind
        && (text_eq e.funding_mode p.funding_mode
            && (text_eq e.lock_owner p.lock_owner
                && ((e.tip_height == p.tip_height)
                    && (text_eq e.tip_hash p.tip_hash
                        && ((e.target_height == p.target_height)
                            && (text_eq e.selected_inputs p.selected_inputs
                                && same_expiry e.expiry p.expiry)))))))

-- The existing row of a violated primary key.
unfoldable pub compare_existing : Journal → Plan → Row → Result Journal JournalError
compare_existing rows plan r = and_then (to_u32 r.plan.tip_height) λ _.
    and_then (to_u32 r.plan.target_height) λ _.
      and_then (to_u32_option r.plan.expiry)
        λ _. if same_plan r.plan plan then ok rows else err (plan_id_conflict plan.plan_id)

abbrev pub new_row : ℕ → Plan → Row
new_row now plan = record {
  plan = plan;
  stage = "planned";
  txid = none;
  last_error = none;
  created_at = now;
}

unfoldable pub create_plan : ℕ → Plan → Journal → Result Journal JournalError
create_plan now plan rows = elim (find_row plan.plan_id rows) [
  | none ↦ ok (rows ++ (new_row now plan ∷ []))
  | some r ↦ compare_existing rows plan r
]

-- `COALESCE(new, old)`
abbrev pub coalesce : Option String → Option String → Option String
coalesce none old = old
coalesce (some new) old = some new

abbrev pub move_to : JournalStage → Option String → Option String → Row → Row
move_to to txid last_error r = record r {
  stage = as_str to;
  txid = coalesce txid r.txid;
  last_error = coalesce last_error r.last_error;
}

-- `UPDATE … WHERE plan_id = ?`
unfoldable pub update_rows :
    String → JournalStage → Option String → Option String → Journal → Journal
update_rows plan_id to txid last_error [] = []
update_rows plan_id to txid last_error (r ∷ rs) =
    let rest = update_rows plan_id to txid last_error rs in
    if text_eq r.plan.plan_id plan_id then move_to to txid last_error r ∷ rest else r ∷ rest

-- `transition`: the new table, and the previous stage.
unfoldable pub transition :
    String
    → JournalStage
    → Option String
    → Option String
    → Journal
    → Result (Journal × JournalStage) JournalError
transition plan_id to txid last_error rows = elim (find_row plan_id rows) [
  | none ↦ err (no_row plan_id)
  | some r ↦ and_then (parse_stage r.stage) λ from.
      if can_transition from to
      then ok (update_rows plan_id to txid last_error rows, from)
      else err (illegal_transition plan_id r.stage to)
]

unfoldable pub reserve : String → Journal → Result Journal JournalError
reserve plan_id rows = and_then (transition plan_id reserved none none rows) λ r. ok r.0

-- `Journal::stage`
unfoldable pub stage_of : String → Journal → Result (Option JournalStage) JournalError
stage_of plan_id rows = elim (find_row plan_id rows) [
  | none ↦ ok none
  | some r ↦ and_then (parse_stage r.stage) λ s. ok (some s)
]

pub record OperationRow : Type 0 where
  pub plan : Plan
  pub stage : JournalStage
  pub txid : Option String
  pub last_error : Option String

unfoldable pub row_to_operation : Row → Result OperationRow JournalError
row_to_operation r = and_then (to_u32 r.plan.tip_height) λ tip_height.
    and_then (to_u32 r.plan.target_height) λ target_height. and_then (parse_stage r.stage) λ stage.
      and_then (to_u32_option r.plan.expiry) λ expiry. ok record {
        plan = record r.plan {
          tip_height = tip_height;
          target_height = target_height;
          expiry = expiry;
        };
        stage = stage;
        txid = r.txid;
        last_error = r.last_error;
      }

unfoldable pub operation : String → Journal → Result (Option OperationRow) JournalError
operation plan_id rows = elim (find_row plan_id rows) [
  | none ↦ ok none
  | some r ↦ and_then (row_to_operation r) λ o. ok (some o)
]

-- `stage NOT IN (…)`
unfoldable pub is_open : Row → Bool
is_open r =
    if text_eq r.stage "mined"
    then false
    else if text_eq r.stage "cancelled"
    then false
    else if text_eq r.stage "expired"
    then false
    else if text_eq r.stage "rejected"
    then false
    else if text_eq r.stage "reorged"
    then false
    else true

unfoldable pub open_rows : Journal → Journal
open_rows [] = []
open_rows (r ∷ rs) = let rest = open_rows rs in if is_open r then r ∷ rest else rest

-- `ORDER BY created_at ASC`, with equal times in insertion order.
unfoldable pub insert_by_time : Row → Journal → Journal
insert_by_time x [] = x ∷ []
insert_by_time x (y ∷ ys) =
    let rest = insert_by_time x ys in if ltb y.created_at x.created_at then y ∷ rest else x ∷ y ∷ ys

unfoldable pub sort_by_time : Journal → Journal
sort_by_time [] = []
sort_by_time (r ∷ rs) = insert_by_time r (sort_by_time rs)

-- The loop over the rows of a query.
unfoldable pub to_operations : Journal → Result (List OperationRow) JournalError
to_operations [] = ok []
to_operations (r ∷ rs) =
    and_then (row_to_operation r) λ o. and_then (to_operations rs) λ os. ok (o ∷ os)

unfoldable pub non_terminal_rows : Journal → Result (List OperationRow) JournalError
non_terminal_rows rows = to_operations (sort_by_time (open_rows rows))

unfoldable pub plan_ids : Journal → List String
plan_ids [] = []
plan_ids (r ∷ rs) = r.plan.plan_id ∷ plan_ids rs

unfoldable pub non_terminal : Journal → List String
non_terminal rows = plan_ids (open_rows rows)
