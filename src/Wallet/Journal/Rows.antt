-- ===== src/Wallet/Journal/Rows.antt =====
-- What the statements of crates/zalkanes-wallet/src/journal.rs do to the row of a plan.
use Prim.Native.String.{String}
use zalkanes.Base.{
  ℕ, ◌≡◌, refl, arith, true, false, Option, none, some, subst, ◌⊎◌, inl, inr, [], ◌∷◌, ◌++◌, Result,
  ok, err, and_then, if◌then◌else◌, on_if, on_option,
}
use zalkanes.Base.Text.{text_eq, eq_of_text_eq}
use zalkanes.Wallet.Journal.{
  Plan, Row, Journal, find_row, new_row, move_to, update_rows, transition, create_plan,
  compare_existing, same_plan, to_u32, to_u32_option,
}
use zalkanes.Wallet.Journal.Stage.{JournalStage, JournalError, parse_stage, can_transition}

pub find_row-key :
    (id : String) (rows : Journal) (r : Row) → find_row id rows ≡ some r → r.plan.plan_id ≡ id
unfolding find_row
find_row-key id [] r h = cc
find_row-key id (x ∷ rows) r h =
    ground (arith, find_row-key id rows r, eq_of_text_eq x.plan.plan_id id)

pub find_row-append :
    (id : String) (rows ys : Journal) (r : Row)
    → find_row id rows ≡ some r
    → find_row id (rows ++ ys) ≡ some r
unfolding find_row
find_row-append id [] ys r h = cc
find_row-append id (x ∷ rows) ys r h = ground (arith, find_row-append id rows ys r)

pub find_row-append_new :
    (id : String) (rows : Journal) (x : Row)
    → find_row id rows ≡ none
    → find_row id (rows ++ (x ∷ [])) ≡ (if text_eq x.plan.plan_id id then some x else none)
unfolding find_row
find_row-append_new id [] x h = refl
find_row-append_new id (y ∷ rows) x h = ground (arith, find_row-append_new id rows x)

module _ (i : String) (to : JournalStage) (txid last_error : Option String) where
  pub find_row-update_rows :
      (rows : Journal) (r : Row)
      → find_row i rows ≡ some r
      → find_row i (update_rows i to txid last_error rows) ≡ some (move_to to txid last_error r)
  unfolding find_row update_rows
  find_row-update_rows [] r h = cc
  find_row-update_rows (x ∷ rows) r h = ground (arith, find_row-update_rows rows r)

  pub find_row-update_other :
      (j : String) (rows : Journal)
      → text_eq i j ≡ false
      → find_row j (update_rows i to txid last_error rows) ≡ find_row j rows
  unfolding find_row update_rows
  find_row-update_other j [] h = refl
  find_row-update_other j (x ∷ rows) h =
      grind (arith, find_row-update_other j rows h, eq_of_text_eq)

-- A transition that succeeds, taken apart.
pub record Stepped (id : String) (to : JournalStage) (rows : Journal) (from : JournalStage)
    : Type 0 where
  pub row : Row
  pub found : find_row id rows ≡ some row
  pub parsed : parse_stage row.stage ≡ ok from
  pub allowed : can_transition from to ≡ true

abbrev Split :
    String
    → JournalStage
    → Option String
    → Option String
    → Journal
    → Result (Journal × JournalStage) JournalError
    → Type 0
Split id to txid e rows (err _) = Unit
Split id to txid e rows (ok (rows', from)) =
    Stepped id to rows from × (rows' ≡ update_rows id to txid e rows)

transition-Split :
    (id : String) (to : JournalStage) (txid last_error : Option String) (rows : Journal)
    → Split id to txid last_error rows (transition id to txid last_error rows)
unfolding transition
transition-Split id to txid e rows =
    on_option (Split id to txid e rows) (find_row id rows) (λ _. tt)
      (λ r hr. and_then_lem r hr (parse_stage r.stage) refl)
  where
    and_then_lem :
        (r : Row)
        → find_row id rows ≡ some r
        → (m : Result JournalStage JournalError) → parse_stage r.stage ≡ m
        → Split id to txid e rows (
            and_then m λ from.
              if can_transition from to
              then ok (update_rows id to txid e rows, from)
              else err (JournalError.illegal_transition id r.stage to))
    and_then_lem r hr (err _) hm = tt
    and_then_lem r hr (ok from) hm =
        on_if (Split id to txid e rows) (can_transition from to)
          (λ hc. (record { row = r; found = hr; parsed = hm; allowed = hc }, refl)) (λ _. tt)

pub transition-ok :
    (id : String)
    → (to from : JournalStage) → (txid last_error : Option String) → (rows : Journal) → (r : Row)
    → find_row id rows ≡ some r
    → parse_stage r.stage ≡ ok from
    → can_transition from to ≡ true
    → transition id to txid last_error rows ≡ ok (update_rows id to txid last_error rows, from)
unfolding transition
transition-ok id to from txid e rows r hr hp hc =
    rw (hr, transition) (rw (hp, and_then) (rw (hc, if◌then◌else◌) refl))

pub transition-Stepped :
    (id : String)
    → (to from : JournalStage) → (txid last_error : Option String) → (rows rows' : Journal)
    → transition id to txid last_error rows ≡ ok (rows', from)
    → Stepped id to rows from × (rows' ≡ update_rows id to txid last_error rows)
transition-Stepped id to from txid e rows rows' h =
    subst (Split id to txid e rows) h (transition-Split id to txid e rows)

abbrev pub Created : ℕ → Plan → Journal → Result Journal JournalError → Type 0
Created now plan rows (err _) = Unit
Created now plan rows (ok rows') =
    (rows' ≡ rows)
    ⊎ ((find_row plan.plan_id rows ≡ none) × (rows' ≡ rows ++ (new_row now plan ∷ [])))

and_then-Created :
    (now : ℕ) (plan : Plan) (rows : Journal) {A : Type 0} (m : Result A JournalError)
    (f : A → Result Journal JournalError)
    → ((a : A) → Created now plan rows (f a))
    → Created now plan rows (and_then m f)
and_then-Created now plan rows (err _) f c = tt
and_then-Created now plan rows (ok a) f c = c a

compare_existing-Created :
    (now : ℕ) (plan : Plan) (rows : Journal) (r : Row)
    → Created now plan rows (compare_existing rows plan r)
unfolding compare_existing
compare_existing-Created now plan rows r =
    and_then-Created now plan rows (to_u32 r.plan.tip_height) _ λ _.
      and_then-Created now plan rows (to_u32 r.plan.target_height) _ λ _.
        and_then-Created now plan rows (to_u32_option r.plan.expiry) _
          λ _. on_if (Created now plan rows) (same_plan r.plan plan) (λ _. inl refl) (λ _. tt)

pub create_plan-Created :
    (now : ℕ) (plan : Plan) (rows : Journal) → Created now plan rows (create_plan now plan rows)
unfolding create_plan
create_plan-Created now plan rows =
    on_option (Created now plan rows) (find_row plan.plan_id rows) (λ h. inr (h, refl))
      (λ r _. compare_existing-Created now plan rows r)
