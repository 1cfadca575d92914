-- ===== src/Wallet/Broadcast/Reconcile/Rounds.antt =====
-- The loop of `reconcile` of crates/zalkanes-wallet/src/broadcast.rs.
use Prim.Native.String.{String}
use mathlib.Core.List.{append_assoc}
use zalkanes.Base.{
  ◌≡◌, refl, ap, sym, ◌∙◌, subst, arith, Bool, true, false, none, some, List, [], ◌∷◌, ◌++◌, ok,
  err, Bool-cases, Option-cases, Result-cases, inl, inr, All, All-append,
}
use zalkanes.Base.Text.{text_eq, text_eq_refl, eq_of_text_eq}
use zalkanes.Wallet.Journal.{Row, Journal, find_row, OperationRow}
use zalkanes.Wallet.Journal.Stage.{JournalStage, expired, as_str}
use zalkanes.Wallet.Journal.Table.{IsTable, Differs, find_row-Differs}
use zalkanes.Wallet.Journal.Queries.{as_operation, operations_of}
use zalkanes.Wallet.Journal.History.{AtStage, as_str-injective}
use zalkanes.Wallet.Broadcast.{
  Node, Pass, PassRun, CanonicalTip, then_pass, reconcile_rows, is_broadcast_phase,
  definitely_expired, TxStatus, mined_at, in_mempool, absent,
}
use zalkanes.Wallet.Broadcast.Reconcile.{
  target, frees, frees_for, stage_for, Landed, Done, released_if, reconcile_row-Done,
}

module _ (node : Node) (tip : CanonicalTip) where
  -- The rows of a list are those of the journal.
  abbrev pub Tracks : Journal → Journal → Type 0
  Tracks rows j = (id : String) (r : Row) → find_row id rows ≡ some r → find_row id j ≡ some r

  -- Locks that were released, each of a plan whose row is at `expired` in the journal.
  abbrev pub Frees : List String → List String → Journal → Type 0
  Frees before now j =
      (newly : List String) × (now ≡ newly ++ before) × All (λ id. AtStage id expired j) newly

  pub record Passed (rows : Journal) (p : Pass) (m : PassRun) : Type 0 where
    pub succeeds : m.0 ≡ ok tt
    pub landed :
        (id : String) (r : Row) (s : JournalStage)
        → find_row id rows ≡ some r
        → r.stage ≡ as_str s
        → Landed node tip id (target node tip (as_operation r s)) r m.1.world.journal
    pub others :
        (id : String)
        → find_row id rows ≡ none
        → find_row id m.1.world.journal ≡ find_row id p.world.journal
    pub kept : IsTable p.world.journal → IsTable m.1.world.journal
    pub released : Frees p.world.released m.1.world.released m.1.world.journal

  frees_for-expired :
      (s : JournalStage) (past : Bool) (observed : TxStatus)
      → frees_for node tip past observed ≡ true
      → stage_for node tip s past observed ≡ expired
  frees_for-expired s true absent h = refl
  frees_for-expired s false absent h = cc
  frees_for-expired s past (mined_at _) h = cc
  frees_for-expired s past in_mempool h = cc

  frees-expired : (o : OperationRow) → frees node tip o ≡ true → target node tip o ≡ expired
  unfolding frees target
  frees-expired o h = elim (Bool-cases (is_broadcast_phase o.stage)) [
    | inr other ↦ ground (arith, other)
    | inl phase ↦ elim (Option-cases o.txid) [
      | inl unsent ↦ ground (arith, phase, unsent)
      | inr (txid, sent_as) ↦ elim (Result-cases (node.tx_status txid)) [
        | inr (e, failed) ↦ ground (arith, phase, sent_as, failed)
        | inl (observed, seen) ↦
            let past = definitely_expired o.plan.expiry tip in
            let e : frees node tip o ≡ frees_for node tip past observed =
              rw (phase, frees) (rw sent_as (rw seen refl)) in
            rw (phase, target)
              (rw sent_as (rw seen (frees_for-expired o.stage past observed (sym e ∙ h))))
      ]
    ]
  ]

  head_found : (r : Row) (rows : Journal) → find_row r.plan.plan_id (r ∷ rows) ≡ some r
  unfolding find_row
  head_found r rows = rw (text_eq_refl r.plan.plan_id) refl

  tail_found :
      (id : String) (r : Row) (rows : Journal)
      → text_eq r.plan.plan_id id ≡ false
      → find_row id (r ∷ rows) ≡ find_row id rows
  unfolding find_row
  tail_found id r rows h = rw h refl

  head_gone :
      (id : String) (r : Row) (rows : Journal)
      → IsTable (r ∷ rows)
      → text_eq r.plan.plan_id id ≡ true
      → find_row id rows ≡ none
  head_gone id r rows (_, d, _) own =
      find_row-Differs id rows (subst (λ k. Differs k rows) (eq_of_text_eq r.plan.plan_id id own) d)

  -- The rows behind the first are untouched by its round.
  tail-Tracks :
      (r : Row) (rows : Journal) (p : Pass) (m : PassRun) (f : Bool) (to : JournalStage)
      → IsTable (r ∷ rows)
      → Tracks (r ∷ rows) p.world.journal
      → Done node tip r.plan.plan_id to f r p m
      → Tracks rows m.1.world.journal
  tail-Tracks r rows p m f to t track done id r' h = elim (Bool-cases (text_eq r.plan.plan_id id)) [
    | inl own ↦ let gone = head_gone id r rows t own in cc
    | inr other ↦ done.others id other ∙ track id r' (tail_found id r rows other ∙ h)
  ]

  moved-Landed :
      (id : String) (to : JournalStage) (r : Row) (j j' : Journal)
      → find_row id j' ≡ find_row id j
      → Landed node tip id to r j
      → Landed node tip id to r j'
  moved-Landed id to r j j' e l = record {
    row = l.row;
    found = e ∙ l.found;
    at = l.at;
    plan_kept = l.plan_kept;
    txid_kept = l.txid_kept;
  }

  join-Frees :
      (id : String) (f : Bool) (before mid now : List String) (j : Journal)
      → mid ≡ released_if node tip f id before
      → (f ≡ true → AtStage id expired j)
      → Frees mid now j
      → Frees before now j
  join-Frees id false before mid now j e at (newly, en, a) = (newly, en ∙ ap (λ x. newly ++ x) e, a)
  join-Frees id true before mid now j e at (newly, en, a) = (
    newly ++ (id ∷ []),
    en ∙ ap (λ x. newly ++ x) e ∙ sym (append_assoc newly (id ∷ []) before),
    All-append _ newly (id ∷ []) a (at refl, tt),
  )

  -- The first round, then the others.
  rounds :
      (r : Row) (rows : Journal) (p : Pass) (m : PassRun) (k : Pass → PassRun) (s : JournalStage)
      → IsTable (r ∷ rows)
      → r.stage ≡ as_str s
      → Tracks (r ∷ rows) p.world.journal
      → Done node tip r.plan.plan_id
          (target node tip (as_operation r s))
          (frees node tip (as_operation r s))
          r
          p
          m
      → ((p' : Pass) → Tracks rows p'.world.journal → Passed rows p' (k p'))
      → Passed (r ∷ rows) p (then_pass m k)
  rounds r rows p (err _, p') k s t es track d next = let h = d.succeeds in cc
  rounds r rows p (ok _, p') k s t es track d next =
      let id = r.plan.plan_id in
      let n = next p' (tail-Tracks r rows p (ok tt, p') _ _ t track d) in
      let here =
        moved-Landed id (target node tip (as_operation r s)) r p'.world.journal
          (k p').1.world.journal (n.others id (head_gone id r rows t (text_eq_refl id))) d.landed in
      record {
        succeeds = n.succeeds;
        landed = λ id' r' s' h e. elim (Bool-cases (text_eq id id')) [
          | inr other ↦ n.landed id' r' s' (sym (tail_found id' r rows other) ∙ h) e
          | inl own ↦
              let ei = eq_of_text_eq id id' own in
              let found : find_row id' (r ∷ rows) ≡ some r =
                subst (λ j. find_row j (r ∷ rows) ≡ some r) ei (head_found r rows) in
              let er : r ≡ r' = cc in
              let es' : s ≡ s' =
                as_str-injective s s' (sym es ∙ (ap (λ (x : Row). x.stage) er ∙ e)) in
              subst
                (λ (x : Row).
                  Landed node tip id' (target node tip (as_operation x s')) x
                    (k p').1.world.journal)
                er
                (subst
                  (λ x.
                    Landed node tip id' (target node tip (as_operation r x)) r
                      (k p').1.world.journal)
                  es'
                  (subst
                    (λ j.
                      Landed node tip j (target node tip (as_operation r s)) r
                        (k p').1.world.journal)
                    ei here))
        ];
        others = λ id' h. elim (Bool-cases (text_eq id id')) [
          | inr other ↦ n.others id' (sym (tail_found id' r rows other) ∙ h) ∙ d.others id' other
          | inl own ↦
              let ei = eq_of_text_eq id id' own in
              let found : find_row id' (r ∷ rows) ≡ some r =
                subst (λ j. find_row j (r ∷ rows) ≡ some r) ei (head_found r rows) in
              cc
        ];
        kept = λ t'. n.kept (d.kept t');
        released =
            join-Frees id (frees node tip (as_operation r s)) p.world.released p'.world.released
              (k p').1.world.released (k p').1.world.journal d.released
              (λ hf.
                (here.row, here.found, here.at ∙ ap as_str (frees-expired (as_operation r s) hf)))
              n.released;
      }

  -- Every round of the loop succeeds, whatever the rows, and takes its row to its target.
  pub reconcile_rows-Passed :
      (rows : Journal) (t : IsTable rows) (p : Pass)
      → ((id : String) → node.release id ≡ ok tt)
      → Tracks rows p.world.journal
      → Passed rows p (reconcile_rows node tip (operations_of rows t) p)
  unfolding reconcile_rows find_row
  reconcile_rows-Passed [] t p hr track = record {
    succeeds = refl;
    landed = λ id r s h e. absurd (cc);
    others = λ _ _. refl;
    kept = λ t'. t';
    released = ([], refl, tt);
  }
  reconcile_rows-Passed (r ∷ rows) (st, d, t) p hr track =
      rounds r rows p _ _ st.stage (st, d, t) st.stage_text track
        (reconcile_row-Done node tip (as_operation r st.stage) r p (hr r.plan.plan_id)
          (track r.plan.plan_id r (head_found r rows)) st.stage_text)
        (λ p' track'. reconcile_rows-Passed rows t p' hr track')
