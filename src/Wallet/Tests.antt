-- ===== src/Wallet/Tests.antt =====
-- One plan in the journal, taken through its stages, and the theorems on the wallet at it.
use Prim.Native.String.{String}
use zalkanes.Base.{◌≡◌, refl, Option, none, some, List, [], ◌∷◌, ◌++◌, ok, ◌↔◌, ◌⊎◌, arith}
use zalkanes.Base.Text.{text_eq}
use zalkanes.Base.Order.{bytes_eq, cmp_bytes}
use zalkanes.Wallet.Journal.{
  update_rows, Plan, Row, find_row, create_plan, transition, non_terminal_rows, to_operations,
  open_rows, is_open, sort_by_time, insert_by_time, row_to_operation, to_u32, to_u32_option,
}
use zalkanes.Wallet.Journal.Stage.{
  JournalStage, reserved, proving, proven, signing, signed, extracted, verified, mined,
  broadcasting, cancelled, as_str, parse_stage, can_transition, discriminant, is_edge,
}
use zalkanes.Wallet.Journal.Diagram.{parse_stage_iff, is_terminal, is_sent}
use zalkanes.Wallet.Journal.History.{
  Statement, create, move, perform, history, AtStage, history-terminal, history-verified_first,
}
use zalkanes.Wallet.Journal.Wellformed.{history-IsTable}
use zalkanes.Wallet.Journal.Table.{IsTable}
use zalkanes.Wallet.Broadcast.{
  Node, World, CanonicalTip, VerifiedTransaction, refused, was_rejected, absent, broadcast_verified,
  same_tip, send, respond, step, call_release, txid_hex, reconcile, reconcile_rows, reconcile_row,
  resolve, expire, act, definitely_expired, is_broadcast_phase,
}
use zalkanes.Wallet.Broadcast.Sent.{broadcast_verified-sent, SentOnce}
use zalkanes.Wallet.Broadcast.Finished.{broadcast_verified-Finished, Finished, classify}
use zalkanes.Wallet.Broadcast.Reconcile.Whole.{Reconciled, reconcile-Reconciled, reconcile-again}

abbrev plan : Plan
plan = record {
  plan_id = "p1";
  intent_hash = "hash";
  kind = "call";
  funding_mode = "shielded";
  lock_owner = "owner";
  tip_height = 100;
  tip_hash = "aa";
  target_height = 101;
  selected_inputs = "";
  expiry = some 120;
}

abbrev to_stage : JournalStage → Statement
to_stage s = move "p1" s none none

-- The latest first.
abbrev to_verified : List Statement
to_verified =
    to_stage verified
    ∷ to_stage extracted
    ∷ to_stage signed
    ∷ to_stage signing
    ∷ to_stage proven
    ∷ to_stage proving
    ∷ to_stage reserved
    ∷ create 7 plan
    ∷ []

abbrev row_at : String → Option String → Row
row_at stage txid = record {
  plan = plan;
  stage = stage;
  txid = txid;
  last_error = none;
  created_at = 7;
}

verifies : history to_verified ≡ row_at "verified" none ∷ []
unfolding history perform create_plan transition find_row text_eq update_rows parse_stage as_str
    can_transition discriminant is_edge
verifies = refl

parse_stage_iff_example : (parse_stage "mined" ≡ ok mined) ↔ ("mined" ≡ as_str mined)
parse_stage_iff_example = parse_stage_iff mined "mined"

abbrev to_cancelled : List Statement
to_cancelled = to_stage cancelled ∷ create 7 plan ∷ []

is_cancelled : find_row "p1" (history to_cancelled) ≡ some (row_at "cancelled" none)
unfolding history perform create_plan transition find_row text_eq update_rows parse_stage as_str
    can_transition discriminant is_edge
is_cancelled = refl

history-terminal_example :
    (r' : Row) × (find_row "p1" (history ((to_stage reserved ∷ []) ++ to_cancelled)) ≡ some r')
    × (r'.stage ≡ "cancelled")
    × (r'.plan ≡ plan)
unfolding is_terminal as_str
history-terminal_example =
    history-terminal (to_stage reserved ∷ []) to_cancelled "p1" (row_at "cancelled" none) cancelled
      refl is_cancelled refl

abbrev to_broadcasting : List Statement
to_broadcasting = to_stage broadcasting ∷ to_verified

is_broadcasting : find_row "p1" (history to_broadcasting) ≡ some (row_at "broadcasting" none)
unfolding history perform create_plan transition find_row text_eq update_rows parse_stage as_str
    can_transition discriminant is_edge
is_broadcasting = refl

history-verified_first_example :
    (later : List Statement) × (earlier : List Statement) × (to_broadcasting ≡ later ++ earlier)
    × AtStage "p1" verified (history earlier)
unfolding is_sent as_str
history-verified_first_example =
    history-verified_first to_broadcasting "p1" broadcasting refl
      (row_at "broadcasting" none, is_broadcasting, refl)

history-IsTable_example : IsTable (history to_verified)
history-IsTable_example =
    history-IsTable to_verified
      (tt, (tt, (tt, (tt, (tt, (tt, (tt, ((omega arith, omega arith, omega arith), tt))))))))

-- A node that refuses what it is sent, and knows no transaction.
abbrev tip : CanonicalTip
tip = record { height = 200; hash = 1 ∷ [] }

abbrev node : Node
node = record {
  canonical_tip = ok tip;
  send_raw_transaction = λ _. refused 18446744073709551590 "dust";
  tx_status = λ _. ok absent;
  release = λ _. ok tt;
  hex = λ _. "00";
}

abbrev tx : VerifiedTransaction
tx = record { txid = 1 ∷ 2 ∷ []; bytes = 5 ∷ []; plan_id = "p1"; verified_tip = tip }

abbrev world_at : String → Option String → World
world_at stage txid = record { journal = row_at stage txid ∷ []; sent = []; released = [] }

-- The refused transaction: sent once, rejected, its locks released.
refuses :
    (broadcast_verified node tx (world_at "verified" none)).0
    ≡ ok (was_rejected "rejected (code -26): dust")
unfolding broadcast_verified send respond step call_release same_tip bytes_eq cmp_bytes txid_hex
    transition find_row text_eq update_rows parse_stage as_str can_transition discriminant is_edge
refuses = refl

broadcast_verified-sent_example :
    ((broadcast_verified node tx (world_at "verified" none)).1 ≡ world_at "verified" none)
    ⊎ SentOnce node tx
        (world_at "verified" none)
        (broadcast_verified node tx (world_at "verified" none)).1
broadcast_verified-sent_example = broadcast_verified-sent node tx (world_at "verified" none)

broadcast_verified-Finished_example :
    Finished node tx
      (world_at "verified" none)
      (classify node tx (refused 18446744073709551590 "dust"))
      (broadcast_verified node tx (world_at "verified" none))
unfolding same_tip bytes_eq cmp_bytes find_row text_eq as_str
broadcast_verified-Finished_example =
    broadcast_verified-Finished node tx (world_at "verified" none) (row_at "verified" none) tip refl
      refl refl refl refl

-- A transaction that is gone, eighty blocks past its expiry.
expires : (reconcile node tip (world_at "broadcasting" (some "00"))).1.world.released ≡ "p1" ∷ []
unfolding reconcile non_terminal_rows to_operations open_rows is_open sort_by_time insert_by_time
    row_to_operation to_u32 to_u32_option reconcile_rows reconcile_row resolve expire act step
    call_release definitely_expired is_broadcast_phase transition find_row text_eq update_rows
    parse_stage as_str can_transition discriminant is_edge
expires = refl

table_at : IsTable (world_at "broadcasting" (some "00")).journal
unfolding as_str
table_at = (
  record {
    stage = broadcasting;
    stage_text = refl;
    bounded = (omega arith, omega arith, omega arith);
  },
  tt,
  tt,
)

reconcile-Reconciled_example :
    Reconciled node tip
      (world_at "broadcasting" (some "00"))
      (reconcile node tip (world_at "broadcasting" (some "00")))
reconcile-Reconciled_example =
    reconcile-Reconciled node tip (world_at "broadcasting" (some "00")) table_at (λ _. refl)

reconcile-again_example :
    (first : Row) × (second : Row) × (find_row "p1"
        (reconcile node tip (world_at "broadcasting" (some "00"))).1.world.journal
      ≡ some first)
    × (find_row "p1"
          (reconcile node tip
            (reconcile node tip (world_at "broadcasting" (some "00"))).1.world).1.world.journal
        ≡ some second)
    × (second.stage ≡ first.stage)
unfolding find_row text_eq as_str
reconcile-again_example =
    reconcile-again node tip (world_at "broadcasting" (some "00")) "p1"
      (row_at "broadcasting" (some "00")) broadcasting table_at (λ _. refl) refl refl
