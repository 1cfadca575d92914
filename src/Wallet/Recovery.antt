-- ===== src/Wallet/Recovery.antt =====
-- `startup_recover` of crates/zalkanes-wallet/src/recovery.rs, over the world of the broadcast: the
-- journal on disk and the plans whose locks were asked to be released. SHA-256, the UTF-8 of a text and
-- the view of the lock store are parameters.
pub mod Released
mod Tests
use Prim.Native.String as Native
use Prim.Native.String.{String}
use Prim.Native.Nat.{Ordering}
use Prim.Native.Char.{Char, code}
use zalkanes.Base.{
  ltb, ◌==◌, Bool, true, false, Option, none, some, List, [], ◌∷◌, ◌++◌, ◌&&◌, not, Result, ok, err,
  if◌then◌else◌,
}
use zalkanes.Base.Bytes.{Bytes}
use zalkanes.Base.Text.{◌<>◌, text_eq}
use zalkanes.Core.{BlockHeight}
use zalkanes.Wallet.Journal.{OperationRow, non_terminal_rows}
use zalkanes.Wallet.Journal.Stage.{
  JournalStage, planned, reserved, proving, proven, signing, signed, extracted, verified, cancelled,
  expired,
}
use zalkanes.Wallet.Broadcast.{
  CanonicalTip, Node, World, Run, Failure, from_journal, reported, step, call_release, reconcile,
  ReconcileAction, Pass, PassRun,
}

pub record LockedOutput : Type 0 where
  pub output_ref : String
  pub owner_hex : String

-- The parameters: the node of the broadcast, and those of this file.
pub record Wallet : Type 0 where
  pub node : Node
  pub sha256 : Bytes → Bytes
  pub as_bytes : String → Bytes
  pub locked_outputs : Result (List LockedOutput) String

unfoldable pub lock_owner_hex : Wallet → String → String
lock_owner_hex wallet plan_id =
    wallet.node.hex
      (wallet.sha256 (wallet.as_bytes "zalkanes-plan-lock\0" ++ wallet.as_bytes plan_id))

unfoldable pub locks_of : List LockedOutput → String → List LockedOutput
locks_of [] owner_hex = []
locks_of (l ∷ ls) owner_hex =
    let rest = locks_of ls owner_hex in if text_eq l.owner_hex owner_hex then l ∷ rest else rest

abbrev put_first : Char → List String → List String
put_first c [] = Native.◌∷◌ c "" ∷ []
put_first c (s ∷ ss) = Native.◌∷◌ c s ∷ ss

-- `split(',')`
unfoldable pub split_commas : String → List String
split_commas Native.[] = "" ∷ []
split_commas (Native.◌∷◌ c s) =
    let rest = split_commas s in if code c == 44 then "" ∷ rest else put_first c rest

-- `filter(|s| !s.is_empty())`
unfoldable pub nonempty : List String → List String
nonempty [] = []
nonempty (s ∷ ss) = let rest = nonempty ss in if text_eq s "" then rest else s ∷ rest

-- `sort_unstable`
unfoldable pub insert_text : String → List String → List String
insert_text x [] = x ∷ []
insert_text x (y ∷ ys) =
    let rest = insert_text x ys in
    elim (Native.compare x y) [ Ordering.gt ↦ y ∷ rest | _ ↦ x ∷ y ∷ ys ]

unfoldable pub sort_texts : List String → List String
sort_texts [] = []
sort_texts (s ∷ ss) = insert_text s (sort_texts ss)

unfoldable pub same_texts : List String → List String → Bool
same_texts [] [] = true
same_texts (s ∷ ss) (t ∷ ts) = text_eq s t && same_texts ss ts
same_texts _ _ = false

unfoldable pub output_refs : List LockedOutput → List String
output_refs [] = []
output_refs (l ∷ ls) = l.output_ref ∷ output_refs ls

unfoldable pub inputs_match : OperationRow → List LockedOutput → Bool
inputs_match row held =
    same_texts (sort_texts (nonempty (split_commas row.plan.selected_inputs)))
      (sort_texts (output_refs held))

-- The world and the report, its lists the latest first but for the orphan locks.
pub record Recovery : Type 0 where
  pub world : World
  pub transitions : List (String × JournalStage × JournalStage)
  pub released : List String
  pub preserved : List String
  pub orphan_locks : List LockedOutput
  pub anomalies : List String

abbrev pub RecoveryRun : Type 0
RecoveryRun = Result {0, 0} Unit Failure × Recovery

abbrev pub then_recover : RecoveryRun → (Recovery → RecoveryRun) → RecoveryRun
then_recover (err e, r) k = (err e, r)
then_recover (ok _, r) k = k r

abbrev pub noted : String → JournalStage → Recovery → Run JournalStage → RecoveryRun
noted plan_id to r (err e, w) = (err e, record r { world = w })
noted plan_id to r (ok from, w) =
    (ok tt, record r { world = w; transitions = (plan_id, from, to) ∷ r.transitions })

-- The closure `transition`.
unfoldable pub shift : String → JournalStage → Option String → Recovery → RecoveryRun
shift plan_id to last_error r = noted plan_id to r (step plan_id to none last_error r.world)

abbrev pub anomaly : String → String → Recovery → RecoveryRun
anomaly plan_id what r = (ok tt, record r { anomalies = (plan_id <> what) ∷ r.anomalies })

abbrev pub let_go_by : String → Recovery → Run Unit → RecoveryRun
let_go_by plan_id r (err e, w) = (err e, record r { world = w })
let_go_by plan_id r (ok _, w) = (ok tt, record r { world = w; released = plan_id ∷ r.released })

abbrev pub is_empty {ℓ} : {A : Type ℓ} → List A → Bool
is_empty [] = true
is_empty (x ∷ xs) = false

unfoldable pub is_expired : Option BlockHeight → CanonicalTip → Bool
is_expired none tip = false
is_expired (some e) tip = ltb e tip.height

module _ (wallet : Wallet) (tip : CanonicalTip) where
  -- The release of a plan's locks, with its note in the report.
  unfoldable pub let_go : String → Recovery → RecoveryRun
  let_go plan_id r = let_go_by plan_id r (call_release wallet.node plan_id r.world)

  unfoldable pub recover_planned : OperationRow → List LockedOutput → Recovery → RecoveryRun
  recover_planned row held r =
      if is_empty held
      then shift row.plan.plan_id cancelled (some "restart: planned, never reserved") r
      else if inputs_match row held
      then shift row.plan.plan_id reserved none r
      else anomaly row.plan.plan_id
          ": planned, but held locks do not match recorded inputs; not touched" r

  unfoldable pub recover_reserved : OperationRow → List LockedOutput → Recovery → RecoveryRun
  recover_reserved row held r =
      if is_empty held
      then (if is_expired row.plan.expiry tip
          then shift row.plan.plan_id expired
              (some "restart: reservation no longer held and plan expired") r
          else anomaly row.plan.plan_id ": reserved, but no locks held and not expired; not touched"
              r)
      else if inputs_match row held
      then then_recover
          (shift row.plan.plan_id cancelled
            (some "restart: reservation held, authorization not persisted") r)
          (λ r'. let_go row.plan.plan_id r')
      else anomaly row.plan.plan_id
          ": reserved, but held locks do not match recorded inputs; not touched" r

  -- Before signing.
  unfoldable pub recover_unsigned : OperationRow → List LockedOutput → Recovery → RecoveryRun
  recover_unsigned row held r =
      then_recover
        (shift row.plan.plan_id cancelled
          (some "restart: pre-signing stage lost with process memory") r)
        λ r'. if is_empty held then (ok tt, r') else let_go row.plan.plan_id r'

  -- From signing on.
  unfoldable pub recover_signed : OperationRow → List LockedOutput → Recovery → RecoveryRun
  recover_signed row held r =
      then_recover
        (shift row.plan.plan_id cancelled
          (some "restart: signing reached; locks preserved until expiry") r)
        λ r'. (
          ok tt,
          if is_empty held then r' else record r' { preserved = row.plan.plan_id ∷ r'.preserved },
        )

  -- The match on the stage of a row.
  unfoldable pub recover_at :
      JournalStage → OperationRow → List LockedOutput → Recovery → RecoveryRun
  recover_at planned row held r = recover_planned row held r
  recover_at reserved row held r = recover_reserved row held r
  recover_at proving row held r = recover_unsigned row held r
  recover_at proven row held r = recover_unsigned row held r
  recover_at signing row held r = recover_signed row held r
  recover_at signed row held r = recover_signed row held r
  recover_at extracted row held r = recover_signed row held r
  recover_at verified row held r = recover_signed row held r
  recover_at _ row held r = (ok tt, r)

  unfoldable pub held_by : List LockedOutput → OperationRow → List LockedOutput
  held_by all_locks row =
      if text_eq row.plan.lock_owner "" then [] else locks_of all_locks row.plan.lock_owner

  -- The body of the loop.
  unfoldable pub recover_row : List LockedOutput → OperationRow → Recovery → RecoveryRun
  recover_row all_locks row r =
      if text_eq row.plan.funding_mode "shielded"
        && not (text_eq row.plan.lock_owner (lock_owner_hex wallet row.plan.plan_id))
      then anomaly row.plan.plan_id
          ": journal lock_owner does not match canonical derivation; not touched" r
      else recover_at row.stage row (held_by all_locks row) r

  unfoldable pub recover_rows : List LockedOutput → List OperationRow → Recovery → RecoveryRun
  recover_rows all_locks [] r = (ok tt, r)
  recover_rows all_locks (row ∷ rows) r =
      then_recover (recover_row all_locks row r) λ r'. recover_rows all_locks rows r'

  -- `known_owners.contains`
  unfoldable pub is_known_owner : List OperationRow → String → Bool
  is_known_owner [] owner = false
  is_known_owner (row ∷ rows) owner =
      let rest = is_known_owner rows owner in
      if text_eq row.plan.lock_owner ""
      then rest
      else if text_eq row.plan.lock_owner owner
      then true
      else rest

  unfoldable pub orphans : List OperationRow → List LockedOutput → List LockedOutput
  orphans rows [] = []
  orphans rows (l ∷ ls) =
      let rest = orphans rows ls in if is_known_owner rows l.owner_hex then rest else l ∷ rest

  unfoldable pub of_actions : List ReconcileAction → List (String × JournalStage × JournalStage)
  of_actions [] = []
  of_actions (a ∷ as') = (a.plan_id, a.from, a.to) ∷ of_actions as'

  -- The broadcast-phase rows, then the orphan locks.
  abbrev pub conclude : List OperationRow → List LockedOutput → Recovery → PassRun → RecoveryRun
  conclude rows all_locks r (err e, p) = (err e, record r { world = p.world })
  conclude rows all_locks r (ok _, p) = (
    ok tt,
    record r {
      world = p.world;
      transitions = of_actions p.actions ++ r.transitions;
      released = p.freed ++ r.released;
      anomalies = p.errors ++ r.anomalies;
      orphan_locks = orphans rows all_locks;
    },
  )

  abbrev pub start_recovery : World → Recovery
  start_recovery w = record {
    world = w;
    transitions = [];
    released = [];
    preserved = [];
    orphan_locks = [];
    anomalies = [];
  }

  unfoldable pub startup_recover : World → RecoveryRun
  startup_recover w = elim wallet.locked_outputs [
    | err m ↦ (err (reported m), start_recovery w)
    | ok all_locks ↦ elim (non_terminal_rows w.journal) [
      | err e ↦ (err (from_journal e), start_recovery w)
      | ok rows ↦
          then_recover (recover_rows all_locks rows (start_recovery w))
            λ r. conclude rows all_locks r (reconcile wallet.node tip r.world)
    ]
  ]
