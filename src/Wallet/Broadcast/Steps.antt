-- ===== src/Wallet/Broadcast/Steps.antt =====
-- One journal transition in the calls of crates/zalkanes-wallet/src/broadcast.rs.
use Prim.Native.String.{String}
use zalkanes.Base.{◌≡◌, refl, ap, ◌∙◌, true, Option, some, Result, ok, err}
use zalkanes.Wallet.Journal.{Row, Journal, find_row, move_to, update_rows, transition}
use zalkanes.Wallet.Journal.Stage.{JournalStage, JournalError, as_str, parse_stage, can_transition}
use zalkanes.Wallet.Journal.Diagram.{parse_stage-as_str}
use zalkanes.Wallet.Journal.Rows.{find_row-update_rows, Stepped, transition-Stepped, transition-ok}
use zalkanes.Wallet.Broadcast.{World, Failure, Run, after, stepped, step}

-- The world after a transition of the row of `id`.
abbrev pub with_row : String → JournalStage → Option String → Option String → World → World
with_row id to txid last_error w = record w {
  journal = update_rows id to txid last_error w.journal;
}

abbrev pub StepShape :
    String → JournalStage → Option String → Option String → World → Run JournalStage → Type 0
StepShape id to txid e w (err _, w') = w' ≡ w
StepShape id to txid e w (ok from, w') =
    Stepped id to w.journal from × (w' ≡ with_row id to txid e w)

pub step-StepShape :
    (id : String) (to : JournalStage) (txid last_error : Option String) (w : World)
    → StepShape id to txid last_error w (step id to txid last_error w)
unfolding step
step-StepShape id to txid e w = go (transition id to txid e w.journal) refl
  where
    go :
        (m : Result (Journal × JournalStage) JournalError)
        → transition id to txid e w.journal ≡ m
        → StepShape id to txid e w (stepped w m)
    go (err _) h = refl
    go (ok (rows', from)) h =
        let (s, e') = transition-Stepped id to from txid e w.journal rows' h in
        (s, ap (λ j. record w { journal = j }) e')

pub on_after {ℓ} :
    {A B : Type 0} (P : Run B → Type ℓ) (m : Run A) (k : A → World → Run B)
    → ((e : Failure) (w : World) → m ≡ (err e, w) → P (err e, w))
    → ((a : A) (w : World) → m ≡ (ok a, w) → P (k a w))
    → P (after m k)
on_after P (err e, w) k p q = p e w refl
on_after P (ok a, w) k p q = q a w refl

-- A row at a stage from which the diagram allows the transition.
pub step-ok :
    (id : String)
    → (to from : JournalStage) → (txid last_error : Option String) → (w : World) → (r : Row)
    → find_row id w.journal ≡ some r
    → r.stage ≡ as_str from
    → can_transition from to ≡ true
    → step id to txid last_error w ≡ (ok from, with_row id to txid last_error w)
unfolding step
step-ok id to from txid e w r h hs hc =
    ap (stepped w) (
      transition-ok id to from txid e w.journal r h (ap parse_stage hs ∙ parse_stage-as_str from)
        hc)

pub find_row-step :
    (id : String)
    → (to : JournalStage) → (txid last_error : Option String) → (w : World) → (r : Row)
    → find_row id w.journal ≡ some r
    → find_row id (with_row id to txid last_error w).journal ≡ some (move_to to txid last_error r)
find_row-step id to txid e w r h = find_row-update_rows id to txid e w.journal r h
