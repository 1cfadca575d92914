-- ===== src/Wallet/Broadcast/Reconcile.antt =====
-- One row of `reconcile` of crates/zalkanes-wallet/src/broadcast.rs, against the stage it is to reach.
pub mod Rounds
pub mod Whole
use Prim.Native.String.{String}
use zalkanes.Base.{
  ◌≡◌, refl, ap, ◌∙◌, Bool, true, false, Option, none, some, List, ◌∷◌, ok, err, if◌then◌else◌,
  Bool-cases, Option-cases, Result-cases, inl, inr,
}
use zalkanes.Base.Text.{text_eq}
use zalkanes.Wallet.Journal.{Row, Journal, find_row, move_to, OperationRow}
use zalkanes.Wallet.Journal.Stage.{
  JournalStage, broadcasting, broadcast_unknown, broadcast_accepted, mined, expired, as_str,
  can_transition, is_edge, discriminant,
}
use zalkanes.Wallet.Journal.Table.{IsTable, update_rows-IsTable}
use zalkanes.Wallet.Journal.Rows.{find_row-update_other}
use zalkanes.Wallet.Broadcast.{
  Node, World, Pass, PassRun, CanonicalTip, TxStatus, mined_at, in_mempool, absent, act,
  definitely_expired, is_broadcast_phase, call_release, expire, resolve, reconcile_row, then_pass,
  free,
}
use zalkanes.Wallet.Broadcast.Steps.{step-ok, find_row-step}

module _ (node : Node) (tip : CanonicalTip) where
  -- The stage that a status stands for, and whether it frees the locks.
  abbrev pub stage_for : JournalStage → Bool → TxStatus → JournalStage
  stage_for stage past (mined_at _) = mined
  stage_for stage past in_mempool = broadcast_accepted
  stage_for stage true absent = expired
  stage_for broadcasting false absent = broadcast_unknown
  stage_for stage false absent = stage

  abbrev frees_for : Bool → TxStatus → Bool
  frees_for past absent = past
  frees_for past _ = false

  -- The same of a row, from what the node says of its transaction.
  unfoldable pub target : OperationRow → JournalStage
  target row =
      if is_broadcast_phase row.stage
      then elim row.txid [
        | none ↦ row.stage
        | some txid ↦ elim (node.tx_status txid) [
          | err _ ↦ row.stage
          | ok observed ↦ stage_for row.stage (definitely_expired row.plan.expiry tip) observed
        ]
      ]
      else row.stage

  unfoldable pub frees : OperationRow → Bool
  frees row =
      if is_broadcast_phase row.stage
      then elim row.txid [
        | none ↦ false
        | some txid ↦ elim (node.tx_status txid) [
          | err _ ↦ false
          | ok observed ↦ frees_for (definitely_expired row.plan.expiry tip) observed
        ]
      ]
      else false

  -- A row of the journal at a stage, its plan and transaction as before.
  pub record Landed (id : String) (to : JournalStage) (r : Row) (j : Journal) : Type 0 where
    pub row : Row
    pub found : find_row id j ≡ some row
    pub at : row.stage ≡ as_str to
    pub plan_kept : row.plan ≡ r.plan
    pub txid_kept : row.txid ≡ r.txid

  abbrev pub released_if : Bool → String → List String → List String
  released_if true id ids = id ∷ ids
  released_if false id ids = ids

  -- What one round does: it succeeds, moves its own row, leaves the others, and releases at most
  -- the locks of its plan.
  pub record Done (id : String) (to : JournalStage) (free : Bool) (r : Row) (p : Pass) (m : PassRun)
      : Type 0 where
    pub succeeds : m.0 ≡ ok tt
    pub landed : Landed id to r m.1.world.journal
    pub others :
        (j : String)
        → text_eq id j ≡ false
        → find_row j m.1.world.journal ≡ find_row j p.world.journal
    pub kept : IsTable p.world.journal → IsTable m.1.world.journal
    pub released : m.1.world.released ≡ released_if free id p.world.released

  stays :
      (id : String) (s : JournalStage) (r : Row) (p p' : Pass)
      → find_row id p.world.journal ≡ some r
      → r.stage ≡ as_str s
      → p'.world ≡ p.world
      → Done id s false r p (ok tt, p')
  stays id s r p p' h hs e = record {
    succeeds = refl;
    landed = record {
      row = r;
      found = ap (λ (w : World). find_row id w.journal) e ∙ h;
      at = hs;
      plan_kept = refl;
      txid_kept = refl;
    };
    others = λ j _. ap (λ (w : World). find_row j w.journal) e;
    kept = λ t. rw e t;
    released = ap (λ (w : World). w.released) e;
  }

  act-Done :
      (id : String) (from to : JournalStage) (e : Option String) (r : Row) (p : Pass)
      → find_row id p.world.journal ≡ some r
      → r.stage ≡ as_str from
      → can_transition from to ≡ true
      → Done id to false r p (act id to e p)
  unfolding act
  act-Done id from to e r p h hs hc =
      rw (step-ok id to from none e p.world r h hs hc, act)
        record {
          succeeds = refl;
          landed = record {
            row = move_to to none e r;
            found = find_row-step id to none e p.world r h;
            at = refl;
            plan_kept = refl;
            txid_kept = refl;
          };
          others = λ j hj. find_row-update_other id to none e j p.world.journal hj;
          kept = update_rows-IsTable id to none e p.world.journal;
          released = refl;
        }

  then_pass-Done :
      (id : String) (mid to : JournalStage) (f : Bool) (r : Row) (p : Pass) (m : PassRun)
      (k : Pass → PassRun)
      → Done id mid false r p m
      → ((r' : Row) (p' : Pass)
          → find_row id p'.world.journal ≡ some r'
          → r'.stage ≡ as_str mid
          → Done id to f r' p' (k p'))
      → Done id to f r p (then_pass m k)
  then_pass-Done id mid to f r p (err _, p') k d next = let s = d.succeeds in cc
  then_pass-Done id mid to f r p (ok _, p') k d next =
      let d' = next d.landed.row p' d.landed.found d.landed.at in
      record {
        succeeds = d'.succeeds;
        landed = record {
          row = d'.landed.row;
          found = d'.landed.found;
          at = d'.landed.at;
          plan_kept = d'.landed.plan_kept ∙ d.landed.plan_kept;
          txid_kept = d'.landed.txid_kept ∙ d.landed.txid_kept;
        };
        others = λ j hj. d'.others j hj ∙ d.others j hj;
        kept = λ t. d'.kept (d.kept t);
        released = d'.released ∙ ap (released_if f id) d.released;
      }

  free-Done :
      (id : String) (s : JournalStage) (r : Row) (p : Pass)
      → node.release id ≡ ok tt
      → find_row id p.world.journal ≡ some r
      → r.stage ≡ as_str s
      → Done id s true r p (free node tip id p)
  unfolding call_release
  free-Done id s r p hr h hs =
      rw (hr, call_release)
        record {
          succeeds = refl;
          landed = record { row = r; found = h; at = hs; plan_kept = refl; txid_kept = refl };
          others = λ _ _. refl;
          kept = λ t. t;
          released = refl;
        }

  -- The end of an expiry, from a stage that may expire.
  expired-Done :
      (id : String) (s : JournalStage) (r : Row) (p : Pass)
      → node.release id ≡ ok tt
      → can_transition s expired ≡ true
      → find_row id p.world.journal ≡ some r
      → r.stage ≡ as_str s
      → Done id expired true r p (
          then_pass
            (act id expired (some "absent past expiry + margin") p)
            (λ p'. free node tip id p'))
  expired-Done id s r p hr hc h hs =
      then_pass-Done id expired expired true r p _ _ (act-Done id s expired _ r p h hs hc)
        (λ r' p' h' hs'. free-Done id expired r' p' hr h' hs')

  absent-Done :
      (o : OperationRow) (s : JournalStage) (past : Bool) (r : Row) (p : Pass)
      → definitely_expired o.plan.expiry tip ≡ past
      → is_broadcast_phase s ≡ true
      → node.release o.plan.plan_id ≡ ok tt
      → find_row o.plan.plan_id p.world.journal ≡ some r
      → r.stage ≡ as_str s
      → Done o.plan.plan_id
          (stage_for s past absent)
          past
          r
          p
          (resolve node tip (record o { stage = s }) absent p)
  unfolding resolve expire discriminant can_transition is_edge is_broadcast_phase
  absent-Done o broadcasting true r p he hb hr h hs =
      rw (he, resolve)
        (then_pass-Done o.plan.plan_id broadcast_unknown expired true r p _ _
          (act-Done o.plan.plan_id broadcasting broadcast_unknown none r p h hs refl)
          (λ r' p' h' hs'. expired-Done o.plan.plan_id broadcast_unknown r' p' hr refl h' hs'))
  absent-Done o broadcast_unknown true r p he hb hr h hs =
      rw (he, resolve) (expired-Done o.plan.plan_id broadcast_unknown r p hr refl h hs)
  absent-Done o broadcast_accepted true r p he hb hr h hs =
      rw (he, resolve) (expired-Done o.plan.plan_id broadcast_accepted r p hr refl h hs)
  absent-Done o broadcasting false r p he hb hr h hs =
      rw (he, resolve)
        (then_pass-Done o.plan.plan_id broadcast_unknown broadcast_unknown false r p _ _
          (act-Done o.plan.plan_id broadcasting broadcast_unknown _ r p h hs refl)
          (λ r' p' h' hs'. stays o.plan.plan_id broadcast_unknown r' p' _ h' hs' refl))
  absent-Done o broadcast_unknown false r p he hb hr h hs =
      rw (he, resolve) (stays o.plan.plan_id broadcast_unknown r p _ h hs refl)
  absent-Done o broadcast_accepted false r p he hb hr h hs =
      rw (he, resolve) (stays o.plan.plan_id broadcast_accepted r p _ h hs refl)
  absent-Done o _ past r p he hb hr h hs = cc

  resolve-Done :
      (o : OperationRow) (s : JournalStage) (observed : TxStatus) (r : Row) (p : Pass)
      → is_broadcast_phase s ≡ true
      → node.release o.plan.plan_id ≡ ok tt
      → find_row o.plan.plan_id p.world.journal ≡ some r
      → r.stage ≡ as_str s
      → Done o.plan.plan_id
          (stage_for s (definitely_expired o.plan.expiry tip) observed)
          (frees_for (definitely_expired o.plan.expiry tip) observed)
          r
          p
          (resolve node tip (record o { stage = s }) observed p)
  unfolding resolve discriminant can_transition is_edge is_broadcast_phase
  resolve-Done o broadcasting (mined_at _) r p hb hr h hs =
      act-Done o.plan.plan_id broadcasting mined none r p h hs refl
  resolve-Done o broadcast_unknown (mined_at _) r p hb hr h hs =
      act-Done o.plan.plan_id broadcast_unknown mined none r p h hs refl
  resolve-Done o broadcast_accepted (mined_at _) r p hb hr h hs =
      act-Done o.plan.plan_id broadcast_accepted mined none r p h hs refl
  resolve-Done o broadcasting in_mempool r p hb hr h hs =
      act-Done o.plan.plan_id broadcasting broadcast_accepted none r p h hs refl
  resolve-Done o broadcast_unknown in_mempool r p hb hr h hs =
      act-Done o.plan.plan_id broadcast_unknown broadcast_accepted none r p h hs refl
  resolve-Done o broadcast_accepted in_mempool r p hb hr h hs =
      stays o.plan.plan_id broadcast_accepted r p _ h hs refl
  resolve-Done o s absent r p hb hr h hs =
      absent-Done o s (definitely_expired o.plan.expiry tip) r p refl hb hr h hs
  resolve-Done o _ _ r p hb hr h hs = cc

  -- One round of the loop takes its row to its target.
  pub reconcile_row-Done :
      (o : OperationRow) (r : Row) (p : Pass)
      → node.release o.plan.plan_id ≡ ok tt
      → find_row o.plan.plan_id p.world.journal ≡ some r
      → r.stage ≡ as_str o.stage
      → Done o.plan.plan_id (target o) (frees o) r p (reconcile_row node tip o p)
  unfolding target frees reconcile_row
  reconcile_row-Done o r p hr h hs = elim (Bool-cases (is_broadcast_phase o.stage)) [
    | inr other ↦
        rw (other, target, frees, reconcile_row) (stays o.plan.plan_id o.stage r p p h hs refl)
    | inl phase ↦ elim (Option-cases o.txid) [
      | inl unsent ↦
          rw (phase, target, frees, reconcile_row)
            (rw unsent (stays o.plan.plan_id o.stage r p _ h hs refl))
      | inr (txid, sent_as) ↦ elim (Result-cases (node.tx_status txid)) [
        | inl (observed, seen) ↦
            rw (phase, target, frees, reconcile_row)
              (rw sent_as (rw seen (resolve-Done o o.stage observed r p phase hr h hs)))
        | inr (e, failed) ↦
            rw (phase, target, frees, reconcile_row)
              (rw sent_as (rw failed (stays o.plan.plan_id o.stage r p _ h hs refl)))
      ]
    ]
  ]
