-- ===== src/Wallet/Journal/Wellformed.antt =====
-- Every table that the statements of crates/zalkanes-wallet/src/journal.rs write is well formed.
use Prim.Native.String.{String}
use zalkanes.Base.{
  ℕ, ◌≡◌, refl, arith, false, Option, none, List, [], ◌∷◌, inl, inr, ◌++◌, Result, ok, err,
  Bool-cases, All,
}
use zalkanes.Base.Text.{text_eq}
use zalkanes.Wallet.Journal.{Plan, Row, Journal, find_row, new_row, transition, create_plan}
use zalkanes.Wallet.Journal.Stage.{JournalStage, planned, JournalError, as_str}
use zalkanes.Wallet.Journal.Table.{IsPlan, IsTable, IsStored, Differs, update_rows-IsTable}
use zalkanes.Wallet.Journal.Rows.{Created, create_plan-Created, transition-Stepped}
use zalkanes.Wallet.Journal.History.{Statement, create, move, settle, moved, perform, history}

-- The plan of a statement has 32-bit heights.
abbrev pub IsTyped : Statement → Type 0
IsTyped (create now plan) = IsPlan plan
IsTyped (move _ _ _ _) = Unit

Differs-append :
    (id : String) (rows : Journal) (x : Row)
    → Differs id rows
    → text_eq id x.plan.plan_id ≡ false
    → Differs id (rows ++ (x ∷ []))
Differs-append id [] x d h = (h, tt)
Differs-append id (r ∷ rows) x d h = (d.0, Differs-append id rows x d.1 h)

append-IsTable :
    (rows : Journal) (x : Row)
    → IsTable rows
    → IsStored x
    → find_row x.plan.plan_id rows ≡ none
    → IsTable (rows ++ (x ∷ []))
unfolding find_row
append-IsTable [] x t sx h = (sx, tt, tt)
append-IsTable (r ∷ rows) x (st, d, t) sx h =
    elim (Bool-cases (text_eq r.plan.plan_id x.plan.plan_id)) [
      | inl own ↦ ground (arith, own, h)
      | inr other ↦
          let rest : find_row x.plan.plan_id rows ≡ none = ground (arith, other, h) in
          (st, Differs-append r.plan.plan_id rows x d other, append-IsTable rows x t sx rest)
    ]

settle-IsTable :
    (now : ℕ) (plan : Plan) (rows : Journal)
    → IsPlan plan
    → IsTable rows
    → (m : Result Journal JournalError) → Created now plan rows m
    → IsTable (settle rows m)
unfolding as_str
settle-IsTable now plan rows p t (err _) c = t
settle-IsTable now plan rows p t (ok rows') (inl e) = rw e t
settle-IsTable now plan rows p t (ok rows') (inr (h, e)) = rw e (
    append-IsTable rows (new_row now plan) t
      record { stage = planned; stage_text = refl; bounded = p } h)

moved-IsTable :
    (id : String) (to : JournalStage) (txid last_error : Option String) (rows : Journal)
    → IsTable rows
    → (m : Result (Journal × JournalStage) JournalError) → transition id to txid last_error rows ≡ m
    → IsTable (moved rows m)
moved-IsTable id to txid e rows t (err _) h = t
moved-IsTable id to txid e rows t (ok (rows', from)) h =
    rw (transition-Stepped id to from txid e rows rows' h).1
      (update_rows-IsTable id to txid e rows t)

perform-IsTable :
    (s : Statement) (rows : Journal) → IsTyped s → IsTable rows → IsTable (perform s rows)
unfolding perform
perform-IsTable (create now plan) rows p t =
    settle-IsTable now plan rows p t (create_plan now plan rows) (create_plan-Created now plan rows)
perform-IsTable (move id to txid e) rows p t =
    moved-IsTable id to txid e rows t (transition id to txid e rows) refl

-- After any run of statements on the empty table, whether or not they succeed, the plan ids of the
-- rows differ, the stage of every row is the text of a stage, and its heights have 32 bits, when the
-- heights of the plans that were created have.
pub history-IsTable : (ss : List Statement) → All IsTyped ss → IsTable (history ss)
unfolding history
history-IsTable [] a = tt
history-IsTable (s ∷ ss) (typed, a) = perform-IsTable s (history ss) typed (history-IsTable ss a)
