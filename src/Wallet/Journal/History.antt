-- ===== src/Wallet/Journal/History.antt =====
-- Runs of the statements of crates/zalkanes-wallet/src/journal.rs on a table.
use Prim.Native.String.{String}
use zalkanes.Base.{
  ℕ, ◌≡◌, refl, ap, sym, ◌∙◌, subst, true, Option, none, some, List, [], ◌∷◌, ◌⊎◌, inl, inr, ◌++◌,
  Result, ok, err, Bool-cases, Option-cases,
}
use zalkanes.Base.Text.{text_eq, eq_of_text_eq}
use zalkanes.Wallet.Journal.{
  Plan, Row, Journal, find_row, new_row, move_to, update_rows, transition, create_plan, coalesce,
}
use zalkanes.Wallet.Journal.Stage.{
  JournalStage, planned, verified, JournalError, as_str, parse_stage, can_transition,
}
use zalkanes.Wallet.Journal.Diagram.{
  is_terminal, is_sent, sent_from, terminal_stays, parse_stage-as_str, parse_stage_iff,
}
use zalkanes.Wallet.Journal.Rows.{
  find_row-append, find_row-append_new, find_row-update_rows, find_row-update_other,
  transition-Stepped, Created, create_plan-Created,
}

-- A statement that writes to the table.
pub data Statement : Type 0 where
  create : ℕ → Plan → Statement
  move : String → JournalStage → Option String → Option String → Statement

-- The table after a statement; one that fails leaves it as it was.
abbrev pub settle : Journal → Result Journal JournalError → Journal
settle rows (ok rows') = rows'
settle rows (err _) = rows

abbrev pub moved : Journal → Result (Journal × JournalStage) JournalError → Journal
moved rows (ok (rows', _)) = rows'
moved rows (err _) = rows

unfoldable pub perform : Statement → Journal → Journal
perform (create now plan) rows = settle rows (create_plan now plan rows)
perform (move id to txid last_error) rows = moved rows (transition id to txid last_error rows)

-- A run of statements on the empty table, the latest first.
unfoldable pub history : List Statement → Journal
history [] = []
history (s ∷ ss) = perform s (history ss)

-- The row of a plan from one table to the next: as it was, or moved along an edge of the diagram,
-- its plan kept.
pub data Advanced (r r' : Row) : Type 0 where
  same : r' ≡ r → Advanced r r'
  moved_on :
      (f t : JournalStage)
      → r.stage ≡ as_str f
      → r'.stage ≡ as_str t
      → can_transition f t ≡ true
      → r'.plan ≡ r.plan
      → ((x : String) → r.txid ≡ some x → (y : String) × (r'.txid ≡ some y))
      → Advanced r r'

coalesce-some :
    (new old : Option String) (x : String)
    → old ≡ some x
    → (y : String) × (coalesce new old ≡ some y)
coalesce-some none old x h = (x, h)
coalesce-some (some y) old x h = (y, refl)

abbrev Next : String → Row → Journal → Type 0
Next id r rows' = (r' : Row) × (find_row id rows' ≡ some r') × Advanced r r'

unchanged : (id : String) (r : Row) (rows : Journal) → find_row id rows ≡ some r → Next id r rows
unchanged id r rows h = (r, h, same refl)

create-Next :
    (id : String) (now : ℕ) (plan : Plan) (rows : Journal) (r : Row)
    → find_row id rows ≡ some r
    → (m : Result Journal JournalError) → Created now plan rows m
    → Next id r (settle rows m)
create-Next id now plan rows r h (err _) c = unchanged id r rows h
create-Next id now plan rows r h (ok rows') (inl e) = rw e (unchanged id r rows h)
create-Next id now plan rows r h (ok rows') (inr (_, e)) =
    rw e (unchanged id r _ (find_row-append id rows _ r h))

move-Next :
    (i id : String)
    → (to : JournalStage) → (txid last_error : Option String) → (rows : Journal) → (r : Row)
    → find_row i rows ≡ some r
    → (m : Result (Journal × JournalStage) JournalError) → transition id to txid last_error rows ≡ m
    → Next i r (moved rows m)
move-Next i id to txid e rows r h (err _) hm = unchanged i r rows h
move-Next i id to txid e rows r h (ok (rows', from)) hm =
    let (s, e') = transition-Stepped id to from txid e rows rows' hm in
    rw e' (elim (Bool-cases (text_eq id i)) [
      | inr other ↦ unchanged i r _ (find_row-update_other id to txid e i rows other ∙ h)
      | inl own ↦
          let ei = eq_of_text_eq id i own in
          let found : find_row id rows ≡ some r = rw ei h in
          let er : s.row ≡ r = cc in
          (
            move_to to txid e r,
            subst (λ k. find_row k (update_rows id to txid e rows) ≡ some (move_to to txid e r)) ei
                (find_row-update_rows id to txid e rows r found),
            moved_on from to
                ((parse_stage_iff from r.stage).0
                  (subst (λ x. parse_stage x.stage ≡ ok from) er s.parsed))
                refl s.allowed refl (coalesce-some txid r.txid),
          )
    ])

-- Every statement takes a row along the diagram at most.
pub perform-Next :
    (id : String) (s : Statement) (rows : Journal) (r : Row)
    → find_row id rows ≡ some r
    → Next id r (perform s rows)
unfolding perform
perform-Next id (create now plan) rows r h =
    create-Next id now plan rows r h _ (create_plan-Created now plan rows)
perform-Next id (move i to txid e) rows r h = move-Next id i to txid e rows r h _ refl

-- The row of a plan that had none: still none, or freshly planned.
abbrev Fresh : String → Journal → Type 0
Fresh id rows' =
    (find_row id rows' ≡ none)
    ⊎ ((r' : Row) × (find_row id rows' ≡ some r') × (r'.stage ≡ as_str planned))

create-Fresh :
    (id : String) (now : ℕ) (plan : Plan) (rows : Journal)
    → find_row id rows ≡ none
    → (m : Result Journal JournalError) → Created now plan rows m
    → Fresh id (settle rows m)
unfolding as_str
create-Fresh id now plan rows h (err _) c = inl h
create-Fresh id now plan rows h (ok rows') (inl e) = inl (ap (find_row id) e ∙ h)
create-Fresh id now plan rows h (ok rows') (inr (_, e)) =
    elim (Bool-cases (text_eq plan.plan_id id)) [
      | inl own ↦ inr (
        new_row now plan,
        ap (find_row id) e ∙ find_row-append_new id rows (new_row now plan) h ∙ (rw own refl),
        refl,
      )
      | inr other ↦
          inl (
            ap (find_row id) e ∙ find_row-append_new id rows (new_row now plan) h ∙ (rw other refl))
    ]

move-Fresh :
    (i id : String)
    → (to : JournalStage) → (txid last_error : Option String) → (rows : Journal)
    → find_row i rows ≡ none
    → (m : Result (Journal × JournalStage) JournalError) → transition id to txid last_error rows ≡ m
    → Fresh i (moved rows m)
move-Fresh i id to txid e rows h (err _) hm = inl h
move-Fresh i id to txid e rows h (ok (rows', from)) hm =
    let (s, e') = transition-Stepped id to from txid e rows rows' hm in
    elim (Bool-cases (text_eq id i)) [
      | inl own ↦
          let ei = eq_of_text_eq id i own in
          let found : find_row i rows ≡ some s.row = rw (sym ei) s.found in cc
      | inr other ↦ inl (ap (find_row i) e' ∙ (find_row-update_other id to txid e i rows other ∙ h))
    ]

perform-Fresh :
    (id : String) (s : Statement) (rows : Journal)
    → find_row id rows ≡ none
    → Fresh id (perform s rows)
unfolding perform
perform-Fresh id (create now plan) rows h =
    create-Fresh id now plan rows h _ (create_plan-Created now plan rows)
perform-Fresh id (move i to txid e) rows h = move-Fresh id i to txid e rows h _ refl

pub as_str-injective : (a b : JournalStage) → as_str a ≡ as_str b → a ≡ b
as_str-injective a b h =
    let pa = parse_stage-as_str a in
    let pb = parse_stage-as_str b in
    let p : parse_stage (as_str a) ≡ parse_stage (as_str b) = ap parse_stage h in cc

-- The plan has a row, at the stage.
abbrev pub AtStage : String → JournalStage → Journal → Type 0
AtStage id s rows = (r : Row) × (find_row id rows ≡ some r) × (r.stage ≡ as_str s)

-- A row at a terminal stage keeps its plan and its stage through all later statements, whatever
-- they ask for.
pub history-terminal :
    (later ss : List Statement) (id : String) (r : Row) (s : JournalStage)
    → is_terminal s ≡ true
    → find_row id (history ss) ≡ some r
    → r.stage ≡ as_str s
    → (r' : Row) × (find_row id (history (later ++ ss)) ≡ some r')
      × (r'.stage ≡ r.stage)
      × (r'.plan ≡ r.plan)
unfolding history
history-terminal [] ss id r s ht h hs = (r, h, refl, refl)
history-terminal (l ∷ later) ss id r s ht h hs =
    let (r', h', hs', hp') = history-terminal later ss id r s ht h hs in
    let (r'', h'', adv) = perform-Next id l (history (later ++ ss)) r' h' in
    let (es, ep) = stay r' r'' adv hs' in (r'', h'', es ∙ hs', ep ∙ hp')
  where
    stay :
        (r' r'' : Row)
        → Advanced r' r''
        → r'.stage ≡ r.stage
        → (r''.stage ≡ r'.stage) × (r''.plan ≡ r'.plan)
    stay r' r'' (same e) hs' = (ap (λ x. x.stage) e, ap (λ x. x.plan) e)
    stay r' r'' (moved_on f t ef et hc ep _) hs' =
        let efs : f ≡ s = as_str-injective f s (sym ef ∙ (hs' ∙ hs)) in
        let ets : t ≡ f = terminal_stays f t hc (rw efs ht) in (et ∙ (ap as_str ets ∙ sym ef), ep)

-- `verified` at some point before.
abbrev VerifiedBefore : String → List Statement → Type 0
VerifiedBefore id ss =
    (later : List Statement) × (earlier : List Statement) × (ss ≡ later ++ earlier)
    × AtStage id verified (history earlier)

one_more :
    (id : String) (x : Statement) (ss : List Statement)
    → VerifiedBefore id ss
    → VerifiedBefore id (x ∷ ss)
one_more id x ss (later, earlier, e, at) = (x ∷ later, earlier, ap (λ t. x ∷ t) e, at)

not-AtStage : (id : String) (s : JournalStage) → ¬ (AtStage id s [])
unfolding find_row
not-AtStage id s (r, h, e) = cc

Fresh-not_sent :
    (id : String) (s : JournalStage) (rows : Journal) (r : Row)
    → is_sent s ≡ true
    → find_row id rows ≡ some r
    → r.stage ≡ as_str s
    → ¬ (Fresh id rows)
Fresh-not_sent id s rows r hs h e (inl n) = cc
Fresh-not_sent id s rows r hs h e (inr (r', h', e')) =
    let er : r' ≡ r = cc in
    let es : planned ≡ s = as_str-injective planned s (sym e' ∙ (ap (λ x. x.stage) er ∙ e)) in
    let p : is_sent planned ≡ true = rw es hs in (unfold is_sent in cc)

step_back :
    (id : String) (x : Statement) (ss : List Statement) (s : JournalStage)
    → is_sent s ≡ true
    → (r0 : Row) → find_row id (history ss) ≡ some r0
    → (r' : Row) → Advanced r0 r'
    → r'.stage ≡ as_str s
    → ((f : JournalStage) → is_sent f ≡ true → r0.stage ≡ as_str f → VerifiedBefore id ss)
    → VerifiedBefore id (x ∷ ss)
step_back id x ss s hs r0 h0 r' (same e') es k =
    one_more id x ss (k s hs (ap (λ y. y.stage) (sym e') ∙ es))
step_back id x ss s hs r0 h0 r' (moved_on f t ef et hc _ _) es k =
    let ets : t ≡ s = as_str-injective t s (sym et ∙ es) in
    elim (sent_from f t hc (rw ets hs)) [
      | inl hf ↦ one_more id x ss (k f hf ef)
      | inr ev ↦ (x ∷ [], ss, refl, (r0, h0, ef ∙ ap as_str ev))
    ]

-- When the row of a plan is at a stage that follows a send, then at some earlier point of the run
-- that row was at `verified`.
pub history-verified_first :
    (ss : List Statement) (id : String) (s : JournalStage)
    → is_sent s ≡ true
    → AtStage id s (history ss)
    → (later : List Statement) × (earlier : List Statement) × (ss ≡ later ++ earlier)
      × AtStage id verified (history earlier)
unfolding history
history-verified_first [] id s hs at = absurd (not-AtStage id s at)
history-verified_first (x ∷ ss) id s hs (r, h, e) = elim (Option-cases (find_row id (history ss))) [
  | inl fresh ↦ absurd (Fresh-not_sent id s _ r hs h e (perform-Fresh id x (history ss) fresh))
  | inr (r0, h0) ↦
      let (r', h', adv) = perform-Next id x (history ss) r0 h0 in
      let er : r' ≡ r = cc in
      step_back id x ss s hs r0 h0 r' adv (ap (λ y. y.stage) er ∙ e)
        λ f hf ef. history-verified_first ss id f hf (r0, h0, ef)
]
