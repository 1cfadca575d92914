-- ===== src/Wallet/Broadcast/Reconcile/Whole.antt =====
-- A whole pass of `reconcile` of crates/zalkanes-wallet/src/broadcast.rs, and a second one.
use Prim.Native.String.{String}
use zalkanes.Base.{
  ◌≡◌, refl, ap, ap₂, sym, ◌∙◌, subst, arith, Bool, true, false, Option, none, some, ok,
  if◌then◌else◌, Bool-cases, Option-cases, Result-cases, inl, inr,
}
use zalkanes.Wallet.Journal.{Row, Journal, find_row, OperationRow, is_open}
use zalkanes.Wallet.Journal.Stage.{
  JournalStage, broadcasting, broadcast_unknown, broadcast_accepted, as_str,
}
use zalkanes.Wallet.Journal.Diagram.{is_terminal}
use zalkanes.Wallet.Journal.Table.{IsTable}
use zalkanes.Wallet.Journal.Queries.{
  as_operation, read_rows, read_rows-IsTable, non_terminal_rows-ok, find_row-read_rows,
  is_open-terminal, if_open,
}
use zalkanes.Wallet.Broadcast.{
  Node, World, PassRun, CanonicalTip, start_pass, reconcile, is_broadcast_phase, definitely_expired,
  TxStatus, mined_at, in_mempool, absent,
}
use zalkanes.Wallet.Broadcast.Reconcile.{target, stage_for, Landed}
use zalkanes.Wallet.Broadcast.Reconcile.Rounds.{Tracks, Frees, Passed, reconcile_rows-Passed}

terminal_over : (s : JournalStage) → is_terminal s ≡ true → is_broadcast_phase s ≡ false
unfolding is_terminal is_broadcast_phase
terminal_over s h = ground arith

module _ (node : Node) (tip : CanonicalTip) where
  -- A pass that ends well: every row is at its target with its plan and its transaction, the table
  -- is well formed, and every lock released belongs to a plan that is at `expired`.
  pub record Reconciled (w : World) (m : PassRun) : Type 0 where
    pub succeeds : m.0 ≡ ok tt
    pub landed :
        (id : String) (r : Row) (s : JournalStage)
        → find_row id w.journal ≡ some r
        → r.stage ≡ as_str s
        → Landed node tip id (target node tip (as_operation r s)) r m.1.world.journal
    pub table : IsTable m.1.world.journal
    pub released : Frees node tip w.released m.1.world.released m.1.world.journal

  read-Tracks : (j : Journal) → IsTable j → Tracks node tip (read_rows j) j
  read-Tracks j t id r h = go (find_row id j) (sym (find_row-read_rows id j t) ∙ h)
    where
      go : (o : Option Row) → if_open o ≡ some r → o ≡ some r
      go none e = cc
      go (some r') e = ground (arith)

  target_over :
      (r : Row) (s : JournalStage) → is_terminal s ≡ true → target node tip (as_operation r s) ≡ s
  unfolding target
  target_over r s h = rw (terminal_over s h) refl

  -- A row that the query left out is terminal, and stays.
  closed-Landed :
      (id : String) (r : Row) (s : JournalStage) (j j' : Journal)
      → is_open r ≡ false
      → find_row id j ≡ some r
      → r.stage ≡ as_str s
      → find_row id j' ≡ find_row id j
      → Landed node tip id (target node tip (as_operation r s)) r j'
  closed-Landed id r s j j' hc h hs e =
      let over : is_terminal s ≡ true = ground (arith, is_open-terminal s r hs) in
      record {
        row = r;
        found = e ∙ h;
        at = hs ∙ ap as_str (sym (target_over r s over));
        plan_kept = refl;
        txid_kept = refl;
      }

  whole :
      (w : World) (t : IsTable w.journal) (m : PassRun)
      → Passed node tip (read_rows w.journal) (start_pass w) m
      → Reconciled w m
  whole w t m p = record {
    succeeds = p.succeeds;
    landed = λ id r s h hs. elim (Bool-cases (is_open r)) [
      | inl opened ↦
          p.landed id r s (find_row-read_rows id w.journal t ∙ (ap if_open h ∙ (rw opened refl))) hs
      | inr closed ↦
          closed-Landed id r s w.journal m.1.world.journal closed h hs
            (p.others id (find_row-read_rows id w.journal t ∙ (ap if_open h ∙ (rw closed refl))))
    ];
    table = p.kept t;
    released = p.released;
  }

  -- On a well-formed table, and with a lock store that releases, a pass never fails: whatever the
  -- node reports, it leaves every row at the stage that the row's status stands for and keeps the
  -- plans, the transaction ids and the form of the table, and every lock that it releases belongs to
  -- a plan that is then at `expired`.
  pub reconcile-Reconciled :
      (w : World)
      → IsTable w.journal
      → ((id : String) → node.release id ≡ ok tt)
      → Reconciled w (reconcile node tip w)
  unfolding reconcile
  reconcile-Reconciled w t hr =
      rw (non_terminal_rows-ok w.journal t, reconcile)
        (whole w t _ (
          reconcile_rows-Passed node tip (read_rows w.journal) (read_rows-IsTable w.journal t)
            (start_pass w) hr (read-Tracks w.journal t)))

  stage_again :
      (s : JournalStage) (past : Bool) (observed : TxStatus)
      → is_broadcast_phase s ≡ true
      → (if is_broadcast_phase (stage_for node tip s past observed)
          then stage_for node tip (stage_for node tip s past observed) past observed
          else stage_for node tip s past observed)
        ≡ stage_for node tip s past observed
  unfolding is_broadcast_phase
  stage_again s past (mined_at _) h = refl
  stage_again s past in_mempool h = refl
  stage_again s true absent h = refl
  stage_again broadcasting false absent h = refl
  stage_again broadcast_unknown false absent h = refl
  stage_again broadcast_accepted false absent h = refl
  stage_again _ false absent h = cc

  -- The target of a row at its target is that target.
  target-target :
      (o : OperationRow)
      → target node tip (record o { stage = target node tip o }) ≡ target node tip o
  unfolding target
  target-target o = elim (Bool-cases (is_broadcast_phase o.stage)) [
    | inr other ↦ fixed o.stage (rw (other, target) refl) (rw (other, target) refl)
    | inl phase ↦ elim (Option-cases o.txid) [
      | inl unsent ↦
          let e : target node tip o ≡ o.stage = rw (phase, target) (rw unsent refl) in
          fixed o.stage e e
      | inr (txid, sent_as) ↦ elim (Result-cases (node.tx_status txid)) [
        | inr (e', failed) ↦
            let e : target node tip o ≡ o.stage =
              rw (phase, target) (rw sent_as (rw failed refl)) in
            fixed o.stage e e
        | inl (observed, seen) ↦
            let past = definitely_expired o.plan.expiry tip in
            fixed (stage_for node tip o.stage past observed)
              (rw (phase, target) (rw sent_as (rw seen refl)))
              (rw (sent_as, target) (rw seen (stage_again o.stage past observed phase)))
      ]
    ]
  ]
    where
      fixed :
          (x : JournalStage)
          → target node tip o ≡ x
          → target node tip (record o { stage = x }) ≡ x
          → target node tip (record o { stage = target node tip o }) ≡ target node tip o
      fixed x e f = subst (λ y. target node tip (record o { stage = y }) ≡ y) (sym e) f

  target-kept :
      (r r' : Row) (s : JournalStage)
      → r'.plan ≡ r.plan
      → r'.txid ≡ r.txid
      → target node tip (as_operation r' s) ≡ target node tip (as_operation r s)
  unfolding target
  target-kept r r' s ep ex =
      ap₂ (λ p x. target node tip record { plan = p; stage = s; txid = x; last_error = none }) ep ex

  -- A second pass, with the same answers of the node and the same tip, leaves every row of the table
  -- at the stage at which the first pass left it.
  pub reconcile-again :
      (w : World) (id : String) (r : Row) (s : JournalStage)
      → IsTable w.journal
      → ((id' : String) → node.release id' ≡ ok tt)
      → find_row id w.journal ≡ some r
      → r.stage ≡ as_str s
      → (first : Row) × (second : Row) × (find_row id (reconcile node tip w).1.world.journal
          ≡ some first)
        × (find_row id (reconcile node tip (reconcile node tip w).1.world).1.world.journal
            ≡ some second)
        × (second.stage ≡ first.stage)
  reconcile-again w id r s t hr h hs =
      let one = reconcile-Reconciled w t hr in
      let a = one.landed id r s h hs in
      let u = target node tip (as_operation r s) in
      let two = reconcile-Reconciled (reconcile node tip w).1.world one.table hr in
      let b = two.landed id a.row u a.found a.at in
      (
        a.row,
        b.row,
        a.found,
        b.found,
        b.at
            ∙ ap as_str
                (target-kept r a.row u a.plan_kept a.txid_kept ∙ target-target (as_operation r s))
            ∙ sym a.at,
      )
