-- ===== src/Wallet/Broadcast.antt =====
-- crates/zalkanes-wallet/src/broadcast.rs: `broadcast_verified` and `reconcile`. The chain source, the
-- transport, the lock store and the hex encoding are parameters (`Node`). `World` is what a call
-- changes: the journal on disk, the raw transactions handed to the transport, each with the journal
-- as it was on disk at that moment, and the plans whose locks were asked to be released. It is
-- returned with errors as well, since what was done stays done.
pub mod Steps
pub mod Sent
pub mod Finished
pub mod Reconcile
use Prim.Native.String.{String}
use mathlib.Core.List.{reverse}
use zalkanes.Base.{
  ℕ, ◌+◌, min, ltb, Bool, true, false, Option, none, some, List, [], ◌∷◌, ◌&&◌, ◌==◌, Result, ok,
  err, if◌then◌else◌,
}
use zalkanes.Base.Bytes.{Bytes}
use zalkanes.Base.Order.{bytes_eq}
use zalkanes.Base.Text.{◌<>◌, text_eq, decimal_i64}
use zalkanes.Core.{BlockHeight, BlockHash, TxId}
use zalkanes.Wallet.Journal.{Journal, transition, OperationRow, non_terminal_rows}
use zalkanes.Wallet.Journal.Stage.{
  JournalStage, broadcasting, broadcast_unknown, broadcast_accepted, mined, expired, rejected,
  JournalError, discriminant,
}

-- crates/zalkanes-wallet/src/funding.rs
pub record CanonicalTip : Type 0 where
  pub height : BlockHeight
  pub hash : BlockHash

-- The derived `==`.
unfoldable pub same_tip : CanonicalTip → CanonicalTip → Bool
same_tip a b = (a.height == b.height) && bytes_eq a.hash b.hash

-- crates/zalkanes-wallet/src/plan.rs, less the hash of the intent.
pub record VerifiedTransaction : Type 0 where
  pub txid : TxId
  pub bytes : Bytes
  pub plan_id : String
  pub verified_tip : CanonicalTip

pub data TransportResult : Type 0 where
  accepted : String → TransportResult
  refused : ℕ → String → TransportResult
  ambiguous : String → TransportResult

pub data TxStatus : Type 0 where
  mined_at : BlockHeight → TxStatus
  in_mempool absent : TxStatus

pub data BroadcastOutcome : Type 0 where
  was_accepted : BroadcastOutcome
  was_rejected : String → BroadcastOutcome
  unknown : String → BroadcastOutcome

-- Why a call fails: the journal, a stale tip, or what a parameter reports.
pub data Failure : Type 0 where
  from_journal : JournalError → Failure
  stale_plan : CanonicalTip → CanonicalTip → Failure
  reported : String → Failure

-- `TipSource`, `BroadcastTransport`, `TxStatusSource`, `ReleaseHook` and `hex::encode`.
pub record Node : Type 0 where
  pub canonical_tip : Result CanonicalTip String
  pub send_raw_transaction : String → TransportResult
  pub tx_status : String → Result TxStatus String
  pub release : String → Result {0, 0} Unit String
  pub hex : Bytes → String

pub record World : Type 0 where
  pub journal : Journal
  pub sent : List (String × Journal)
  pub released : List String

abbrev pub Run : Type 0 → Type 0
Run A = Result A Failure × World

-- `?`
abbrev pub after : {A B : Type 0} → Run A → (A → World → Run B) → Run B
after (err e, w) k = (err e, w)
after (ok a, w) k = k a w

abbrev pub stepped : World → Result (Journal × JournalStage) JournalError → Run JournalStage
stepped w (err e) = (err (from_journal e), w)
stepped w (ok (journal, from)) = (ok from, record w { journal = journal })

unfoldable pub step :
    String → JournalStage → Option String → Option String → World → Run JournalStage
step plan_id to txid last_error w = stepped w (transition plan_id to txid last_error w.journal)

abbrev pub expiry_absent_margin : ℕ
expiry_absent_margin = 6

module _ (node : Node) where
  unfoldable pub call_release : String → World → Run Unit
  call_release plan_id w =
      let w' = record w { released = plan_id ∷ w.released } in
      elim (node.release plan_id) [ err m ↦ (err (reported m), w') | ok _ ↦ (ok tt, w') ]

  unfoldable pub txid_hex : VerifiedTransaction → String
  txid_hex tx = node.hex (reverse tx.txid)

  abbrev pub mismatch : String → String
  mismatch returned = "accepted txid mismatch: node returned " <> returned

  abbrev pub refusal : ℕ → String → String
  refusal code message = "rejected (code " <> decimal_i64 code <> "): " <> message

  -- The match on the transport's answer.
  unfoldable pub respond : VerifiedTransaction → TransportResult → World → Run BroadcastOutcome
  respond tx (accepted returned) w =
      if text_eq returned (txid_hex tx)
      then after (step tx.plan_id broadcast_accepted none none w) (λ _ w'. (ok was_accepted, w'))
      else after (step tx.plan_id broadcast_unknown none (some (mismatch returned)) w)
          (λ _ w'. (ok (unknown (mismatch returned)), w'))
  respond tx (refused code message) w =
      after (step tx.plan_id rejected none (some (refusal code message)) w) λ _ w'.
        after (call_release tx.plan_id w') λ _ w''. (ok (was_rejected (refusal code message)), w'')
  respond tx (ambiguous message) w =
      after (step tx.plan_id broadcast_unknown none (some message) w)
        λ _ w'. (ok (unknown message), w')

  -- Behind the check of the tip: record, then send.
  unfoldable pub send : VerifiedTransaction → World → Run BroadcastOutcome
  send tx w = after (step tx.plan_id broadcasting (some (txid_hex tx)) none w) λ _ w'.
      respond tx (node.send_raw_transaction (node.hex tx.bytes))
        (record w' { sent = (node.hex tx.bytes, w'.journal) ∷ w'.sent })

  unfoldable pub broadcast_verified : VerifiedTransaction → World → Run BroadcastOutcome
  broadcast_verified tx w = elim node.canonical_tip [
    | err m ↦ (err (reported m), w)
    | ok current ↦
        if same_tip current tx.verified_tip
        then send tx w
        else (err (stale_plan tx.verified_tip current), w)
  ]

pub record ReconcileAction : Type 0 where
  pub plan_id : String
  pub from : JournalStage
  pub to : JournalStage

-- A pass of `reconcile`: the world and the report, each list the latest first.
pub record Pass : Type 0 where
  pub world : World
  pub actions : List ReconcileAction
  pub freed : List String
  pub still_unknown : List String
  pub errors : List String

abbrev pub PassRun : Type 0
PassRun = Result {0, 0} Unit Failure × Pass

abbrev pub start_pass : World → Pass
start_pass w = record { world = w; actions = []; freed = []; still_unknown = []; errors = [] }

abbrev pub then_pass : PassRun → (Pass → PassRun) → PassRun
then_pass (err e, p) k = (err e, p)
then_pass (ok _, p) k = k p

abbrev pub acted : String → JournalStage → Pass → Run JournalStage → PassRun
acted plan_id to p (err e, w) = (err e, record p { world = w })
acted plan_id to p (ok from, w) = (
  ok tt,
  record p {
    world = w;
    actions = (record { plan_id = plan_id; from = from; to = to }) ∷ p.actions;
  },
)

-- The closure `transition` of the loop.
unfoldable pub act : String → JournalStage → Option String → Pass → PassRun
act plan_id to last_error p = acted plan_id to p (step plan_id to none last_error p.world)

-- `tip.height > e.saturating_add(EXPIRY_ABSENT_MARGIN)`
unfoldable pub definitely_expired : Option BlockHeight → CanonicalTip → Bool
definitely_expired none tip = false
definitely_expired (some e) tip = ltb (min (e + expiry_absent_margin) 4294967295) tip.height

unfoldable pub is_broadcast_phase : JournalStage → Bool
is_broadcast_phase broadcasting = true
is_broadcast_phase broadcast_unknown = true
is_broadcast_phase broadcast_accepted = true
is_broadcast_phase _ = false

abbrev pub same_stage : JournalStage → JournalStage → Bool
same_stage a b = discriminant a == discriminant b

abbrev pub keep_waiting : String → Pass → PassRun
keep_waiting plan_id p = (ok tt, record p { still_unknown = plan_id ∷ p.still_unknown })

abbrev pub freed_by : String → Pass → Run Unit → PassRun
freed_by plan_id p (err e, w) = (err e, record p { world = w })
freed_by plan_id p (ok _, w) = (ok tt, record p { world = w; freed = plan_id ∷ p.freed })

module _ (node : Node) (tip : CanonicalTip) where
  abbrev pub free : String → Pass → PassRun
  free plan_id p = freed_by plan_id p (call_release node plan_id p.world)

  -- Absent and past its expiry by the margin.
  unfoldable pub expire : OperationRow → Pass → PassRun
  expire row p =
      let id = row.plan.plan_id in
      then_pass
        (if same_stage row.stage broadcasting then act id broadcast_unknown none p else (ok tt, p))
        λ p'. then_pass (act id expired (some "absent past expiry + margin") p') λ p''. free id p''

  unfoldable pub resolve : OperationRow → TxStatus → Pass → PassRun
  resolve row (mined_at _) p =
      if same_stage row.stage mined then (ok tt, p) else act row.plan.plan_id mined none p
  resolve row in_mempool p =
      if same_stage row.stage broadcast_accepted
      then (ok tt, p)
      else act row.plan.plan_id broadcast_accepted none p
  resolve row absent p =
      if definitely_expired row.plan.expiry tip
      then expire row p
      else if same_stage row.stage broadcasting
      then then_pass
          (act row.plan.plan_id broadcast_unknown
            (some "absent after restart; send outcome unknown") p)
          (keep_waiting row.plan.plan_id)
      else keep_waiting row.plan.plan_id p

  -- The body of the loop.
  unfoldable pub reconcile_row : OperationRow → Pass → PassRun
  reconcile_row row p =
      if is_broadcast_phase row.stage
      then elim row.txid [
        | none ↦ (
          ok tt,
          record p {
            errors = (row.plan.plan_id <> ": broadcast-phase row has no txid") ∷ p.errors;
          },
        )
        | some txid ↦ elim (node.tx_status txid) [
          | err e ↦ (ok tt, record p { errors = (row.plan.plan_id <> ": " <> e) ∷ p.errors })
          | ok observed ↦ resolve row observed p
        ]
      ]
      else (ok tt, p)

  unfoldable pub reconcile_rows : List OperationRow → Pass → PassRun
  reconcile_rows [] p = (ok tt, p)
  reconcile_rows (row ∷ rows) p = then_pass (reconcile_row row p) λ p'. reconcile_rows rows p'

  unfoldable pub reconcile : World → PassRun
  reconcile w = elim (non_terminal_rows w.journal) [
    | err e ↦ (err (from_journal e), start_pass w)
    | ok rows ↦ reconcile_rows rows (start_pass w)
  ]
