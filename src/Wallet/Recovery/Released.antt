-- ===== src/Wallet/Recovery/Released.antt =====
-- Which locks the loop of `startup_recover` of crates/zalkanes-wallet/src/recovery.rs releases.
use Prim.Native.String.{String}
use zalkanes.Base.{
  ◌≡◌, refl, ap, sym, ◌∙◌, subst, Bool, true, false, Option, none, List, [], ◌∷◌, ◌++◌, ◌⊎◌, inl,
  inr, ok, err, on_if, on_result, All, All-imp, All-append, ◌&&◌, not,
}
use mathlib.Core.List.{append_assoc}
use zalkanes.Base.Text.{text_eq}
use zalkanes.Wallet.Journal.{OperationRow}
use zalkanes.Wallet.Journal.Stage.{
  JournalStage, planned, reserved, proving, proven, signing, signed, extracted, verified,
  broadcasting, broadcast_unknown, broadcast_accepted, mined, cancelled, expired, rejected, reorged,
}
use zalkanes.Wallet.Broadcast.{CanonicalTip, World, Run, step, call_release}
use zalkanes.Wallet.Broadcast.Steps.{StepShape, step-StepShape}
use zalkanes.Wallet.Recovery.{
  Wallet, LockedOutput, Recovery, RecoveryRun, then_recover, noted, shift, let_go_by, let_go,
  recover_planned, recover_reserved, recover_unsigned, recover_signed, recover_at, held_by,
  recover_row, recover_rows, is_empty, inputs_match, is_expired, lock_owner_hex,
}

-- The stages of a reservation that no signature can use yet.
unfoldable pub is_unsigned : JournalStage → Bool
is_unsigned reserved = true
is_unsigned proving = true
is_unsigned proven = true
is_unsigned _ = false

-- A row of the list has the plan, and is at such a stage.
abbrev pub HasUnsigned : String → List OperationRow → Type 0
HasUnsigned id [] = ⊥
HasUnsigned id (o ∷ os) = ((o.plan.plan_id ≡ id) × (is_unsigned o.stage ≡ true)) ⊎ HasUnsigned id os

module _ (wallet : Wallet) (tip : CanonicalTip) where
  abbrev Same : Recovery → RecoveryRun → Type 0
  Same r m = m.1.world.released ≡ r.world.released

  -- Nothing released, or the locks of the plan, at a stage before signing.
  abbrev AtMost : JournalStage → String → Recovery → RecoveryRun → Type 0
  AtMost s id r m =
      Same r m ⊎ ((m.1.world.released ≡ id ∷ r.world.released) × (is_unsigned s ≡ true))

  shift-Same :
      (id : String) (to : JournalStage) (e : Option String) (r : Recovery)
      → Same r (shift id to e r)
  unfolding shift
  shift-Same id to e r = go (step id to none e r.world) (step-StepShape id to none e r.world)
    where
      go : (m : Run JournalStage) → StepShape id to none e r.world m → Same r (noted id to r m)
      go (err _, w) h = ap (λ (x : World). x.released) h
      go (ok _, w) (_, h) = ap (λ (x : World). x.released) h

  let_go-released :
      (id : String) (r : Recovery)
      → (let_go wallet tip id r).1.world.released ≡ id ∷ r.world.released
  unfolding let_go call_release
  let_go-released id r =
      on_result (λ (m : Run Unit). (let_go_by id r m).1.world.released ≡ id ∷ r.world.released)
        (wallet.node.release id) (λ _ _. refl) (λ _ _. refl)

  -- A journal move, then a release.
  then_release :
      (s : JournalStage) (id : String) (r : Recovery) (m : RecoveryRun) (k : Recovery → RecoveryRun)
      → Same r m
      → is_unsigned s ≡ true
      → ((r' : Recovery) → (Same r' (k r')) ⊎ ((k r').1.world.released ≡ id ∷ r'.world.released))
      → AtMost s id r (then_recover m k)
  then_release s id r (err e, r') k same hs next = inl same
  then_release s id r (ok _, r') k same hs next = elim (next r') [
    | inl e ↦ inl (e ∙ same)
    | inr e ↦ inr (e ∙ ap (λ t. id ∷ t) same, hs)
  ]

  unsigned-AtMost :
      (s : JournalStage) (o : OperationRow) (held : List LockedOutput) (r : Recovery)
      → is_unsigned s ≡ true
      → AtMost s o.plan.plan_id r (recover_unsigned wallet tip o held r)
  unfolding recover_unsigned
  unsigned-AtMost s o held r hs =
      then_release s o.plan.plan_id r _ _ (shift-Same o.plan.plan_id cancelled _ r) hs λ r'.
        on_if
          (λ (m : RecoveryRun).
            (Same r' m) ⊎ (m.1.world.released ≡ o.plan.plan_id ∷ r'.world.released))
          (is_empty held) (λ _. inl refl) (λ _. inr (let_go-released o.plan.plan_id r'))

  then-Same :
      (r : Recovery) (m : RecoveryRun) (k : Recovery → RecoveryRun)
      → Same r m
      → ((r' : Recovery) → Same r' (k r'))
      → Same r (then_recover m k)
  then-Same r (err e, r') k same next = same
  then-Same r (ok _, r') k same next = next r' ∙ same

  signed-Same :
      (o : OperationRow) (held : List LockedOutput) (r : Recovery)
      → Same r (recover_signed wallet tip o held r)
  unfolding recover_signed
  signed-Same o held r = then-Same r _ _ (shift-Same o.plan.plan_id cancelled _ r) λ r'.
      on_if (λ (x : Recovery). x.world.released ≡ r'.world.released) (is_empty held) (λ _. refl)
        (λ _. refl)

  recover_at-AtMost :
      (s : JournalStage) (o : OperationRow) (held : List LockedOutput) (r : Recovery)
      → AtMost s o.plan.plan_id r (recover_at wallet tip s o held r)
  unfolding recover_at recover_planned recover_reserved recover_unsigned recover_signed is_unsigned
  recover_at-AtMost planned o held r =
      on_if (AtMost planned o.plan.plan_id r) (is_empty held)
        (λ _. inl (shift-Same _ cancelled _ r))
        (λ _.
          on_if (AtMost planned o.plan.plan_id r) (inputs_match o held)
            (λ _. inl (shift-Same _ reserved none r)) (λ _. inl refl))
  recover_at-AtMost reserved o held r =
      on_if (AtMost reserved o.plan.plan_id r) (is_empty held)
        (λ _.
          on_if (AtMost reserved o.plan.plan_id r) (is_expired o.plan.expiry tip)
            (λ _. inl (shift-Same _ expired _ r)) (λ _. inl refl))
        (λ _.
          on_if (AtMost reserved o.plan.plan_id r) (inputs_match o held)
            (λ _.
              then_release reserved o.plan.plan_id r _ _ (shift-Same _ cancelled _ r) refl
                (λ r'. inr (let_go-released o.plan.plan_id r')))
            (λ _. inl refl))
  recover_at-AtMost proving o held r = unsigned-AtMost proving o held r refl
  recover_at-AtMost proven o held r = unsigned-AtMost proven o held r refl
  recover_at-AtMost signing o held r = inl (signed-Same o held r)
  recover_at-AtMost signed o held r = inl (signed-Same o held r)
  recover_at-AtMost extracted o held r = inl (signed-Same o held r)
  recover_at-AtMost verified o held r = inl (signed-Same o held r)
  recover_at-AtMost broadcasting o held r = inl refl
  recover_at-AtMost broadcast_unknown o held r = inl refl
  recover_at-AtMost broadcast_accepted o held r = inl refl
  recover_at-AtMost mined o held r = inl refl
  recover_at-AtMost cancelled o held r = inl refl
  recover_at-AtMost expired o held r = inl refl
  recover_at-AtMost rejected o held r = inl refl
  recover_at-AtMost reorged o held r = inl refl

  recover_row-AtMost :
      (locks : List LockedOutput) (o : OperationRow) (r : Recovery)
      → AtMost o.stage o.plan.plan_id r (recover_row wallet tip locks o r)
  unfolding recover_row
  recover_row-AtMost locks o r =
      on_if (AtMost o.stage o.plan.plan_id r)
        (text_eq o.plan.funding_mode "shielded"
          && not (text_eq o.plan.lock_owner (lock_owner_hex wallet o.plan.plan_id)))
        (λ _. inl refl) (λ _. recover_at-AtMost o.stage o (held_by wallet tip locks o) r)

  abbrev pub ReleasesUnsigned : List OperationRow → List String → List String → Type 0
  ReleasesUnsigned os before now =
      (newly : List String) × (now ≡ newly ++ before) × All (λ id. HasUnsigned id os) newly

  behind :
      (o : OperationRow) (os : List OperationRow) (before now : List String)
      → ReleasesUnsigned os before now
      → ReleasesUnsigned (o ∷ os) before now
  behind o os before now (newly, e, a) = (newly, e, All-imp _ (λ id h. inr h) newly a)

  -- One row, then the others.
  join :
      (o : OperationRow) (os : List OperationRow) (before mid now : List String)
      → (mid ≡ before) ⊎ ((mid ≡ o.plan.plan_id ∷ before) × (is_unsigned o.stage ≡ true))
      → ReleasesUnsigned os mid now
      → ReleasesUnsigned (o ∷ os) before now
  join o os before mid now (inl e) rest =
      behind o os before now (subst (λ x. ReleasesUnsigned os x now) e rest)
  join o os before mid now (inr (e, hs)) (newly, en, a) = (
    newly ++ (o.plan.plan_id ∷ []),
    en ∙ ap (λ x. newly ++ x) e ∙ sym (append_assoc newly (o.plan.plan_id ∷ []) before),
    All-append _ newly (o.plan.plan_id ∷ []) (All-imp _ (λ id h. inr h) newly a)
        (inl (refl, hs), tt),
  )

  after_row :
      (o : OperationRow) (os : List OperationRow) (r : Recovery) (m : RecoveryRun)
      (k : Recovery → RecoveryRun)
      → AtMost o.stage o.plan.plan_id r m
      → ((r' : Recovery) → ReleasesUnsigned os r'.world.released (k r').1.world.released)
      → ReleasesUnsigned (o ∷ os) r.world.released (then_recover m k).1.world.released
  after_row o os r (err e, r') k at next = join o os _ _ _ at ([], refl, tt)
  after_row o os r (ok _, r') k at next = join o os _ _ _ at (next r')

  -- Whatever the journal, the locks and the parameters do, and even when the pass fails half-way: the
  -- loop over the rows releases only locks of plans whose row in the pass is reserved, proving or
  -- proven, and so has no signature yet.
  pub recover_rows-released :
      (locks : List LockedOutput) (os : List OperationRow) (r : Recovery)
      → ReleasesUnsigned os r.world.released (recover_rows wallet tip locks os r).1.world.released
  unfolding recover_rows
  recover_rows-released locks [] r = ([], refl, tt)
  recover_rows-released locks (o ∷ os) r =
      after_row o os r (recover_row wallet tip locks o r) _ (recover_row-AtMost locks o r)
        (λ r'. recover_rows-released locks os r')
