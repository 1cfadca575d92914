-- ===== src/Wallet/Recovery/Tests.antt =====
-- A planned row whose locks are held, through two runs of the recovery, and the theorem on its
-- releases.
use Prim.Native.String.{String}
use zalkanes.Base.{◌≡◌, refl, none, some, [], ◌∷◌, ok, List}
use zalkanes.Base.Text.{text_eq}
use zalkanes.Wallet.Journal.{
  Plan, OperationRow, transition, update_rows, find_row, non_terminal_rows, to_operations,
  open_rows, is_open, sort_by_time, insert_by_time, row_to_operation, to_u32, to_u32_option,
}
use zalkanes.Wallet.Journal.Stage.{
  planned, reserved, cancelled, as_str, parse_stage, can_transition, discriminant, is_edge,
}
use zalkanes.Wallet.Broadcast.{
  Node, World, CanonicalTip, absent, ambiguous, step, call_release, reconcile, reconcile_rows,
  reconcile_row, is_broadcast_phase,
}
use zalkanes.Wallet.Recovery.{
  Wallet, LockedOutput, lock_owner_hex, locks_of, split_commas, nonempty, insert_text, sort_texts,
  same_texts, output_refs, inputs_match, shift, let_go, recover_planned, recover_reserved,
  recover_at, held_by, recover_row, recover_rows, of_actions, startup_recover, start_recovery,
}
use zalkanes.Wallet.Recovery.Released.{ReleasesUnsigned, recover_rows-released}

abbrev plan : Plan
plan = record {
  plan_id = "p1";
  intent_hash = "hash";
  kind = "call";
  funding_mode = "shielded";
  lock_owner = "00";
  tip_height = 100;
  tip_hash = "aa";
  target_height = 101;
  selected_inputs = "1:bb:0,1:aa:2";
  expiry = some 120;
}

abbrev tip : CanonicalTip
tip = record { height = 100; hash = [] }

abbrev node : Node
node = record {
  canonical_tip = ok tip;
  send_raw_transaction = λ _. ambiguous "";
  tx_status = λ _. ok absent;
  release = λ _. ok tt;
  hex = λ _. "00";
}

abbrev locks : List LockedOutput
locks =
    record { output_ref = "1:aa:2"; owner_hex = "00" }
    ∷ record { output_ref = "1:bb:0"; owner_hex = "00" }
    ∷ []

abbrev wallet : Wallet
wallet = record { node = node; sha256 = λ _. []; as_bytes = λ _. []; locked_outputs = ok locks }

abbrev world_at : String → World
world_at stage = record {
  journal =
      record { plan = plan; stage = stage; txid = none; last_error = none; created_at = 7 } ∷ [];
  sent = [];
  released = [];
}

-- The first run catches the journal up.
catches_up :
    (startup_recover wallet tip (world_at "planned")).1.transitions ≡ ("p1", planned, reserved) ∷ []
unfolding startup_recover recover_rows recover_row recover_at recover_planned recover_reserved
    held_by locks_of inputs_match split_commas nonempty sort_texts insert_text same_texts
    output_refs shift step let_go call_release lock_owner_hex transition find_row update_rows
    text_eq parse_stage as_str can_transition discriminant is_edge non_terminal_rows to_operations
    open_rows is_open sort_by_time insert_by_time row_to_operation to_u32 to_u32_option reconcile
    reconcile_rows reconcile_row is_broadcast_phase of_actions
catches_up = refl

-- The second run cancels, and releases the locks.
cancels :
    (startup_recover wallet tip
      (startup_recover wallet tip (world_at "planned")).1.world).1.transitions
    ≡ ("p1", reserved, cancelled) ∷ []
unfolding startup_recover recover_rows recover_row recover_at recover_planned recover_reserved
    held_by locks_of inputs_match split_commas nonempty sort_texts insert_text same_texts
    output_refs shift step let_go call_release lock_owner_hex transition find_row update_rows
    text_eq parse_stage as_str can_transition discriminant is_edge non_terminal_rows to_operations
    open_rows is_open sort_by_time insert_by_time row_to_operation to_u32 to_u32_option reconcile
    reconcile_rows reconcile_row is_broadcast_phase of_actions
cancels = refl

abbrev reserved_row : OperationRow
reserved_row = record { plan = plan; stage = reserved; txid = none; last_error = none }

recover_rows-released_example :
    ReleasesUnsigned wallet tip
      (reserved_row ∷ [])
      []
      (recover_rows wallet tip locks
        (reserved_row ∷ [])
        (start_recovery wallet tip (world_at "reserved"))).1.world.released
recover_rows-released_example =
    recover_rows-released wallet tip locks (reserved_row ∷ [])
      (start_recovery wallet tip (world_at "reserved"))
