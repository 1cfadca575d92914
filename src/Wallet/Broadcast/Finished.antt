-- ===== src/Wallet/Broadcast/Finished.antt =====
-- How `broadcast_verified` of crates/zalkanes-wallet/src/broadcast.rs ends, for each answer of the
-- transport.
use Prim.Native.String.{String}
use zalkanes.Base.{◌≡◌, refl, inl, inr, true, none, some, List, ◌∷◌, ok, Bool-cases, if◌then◌else◌}
use zalkanes.Base.Text.{text_eq}
use zalkanes.Wallet.Journal.{Row, find_row, move_to}
use zalkanes.Wallet.Journal.Stage.{
  JournalStage, verified, broadcasting, broadcast_unknown, broadcast_accepted, rejected, as_str,
  can_transition, is_edge, discriminant,
}
use zalkanes.Wallet.Broadcast.{
  Node, World, Run, CanonicalTip, same_tip, VerifiedTransaction, TransportResult, accepted, refused,
  ambiguous, BroadcastOutcome, was_accepted, was_rejected, unknown, after, call_release, txid_hex,
  mismatch, refusal, respond, send, broadcast_verified,
}
use zalkanes.Wallet.Broadcast.Steps.{step-ok, find_row-step}

module _ (node : Node) (tx : VerifiedTransaction) where
  -- The stage that an outcome leaves the row at, and the locks it releases.
  abbrev pub stage_after : BroadcastOutcome → JournalStage
  stage_after was_accepted = broadcast_accepted
  stage_after (was_rejected _) = rejected
  stage_after (unknown _) = broadcast_unknown

  abbrev pub released_after : BroadcastOutcome → List String → List String
  released_after (was_rejected _) ids = tx.plan_id ∷ ids
  released_after _ ids = ids

  -- How the transport's answer is classified.
  abbrev pub classify : TransportResult → BroadcastOutcome
  classify (accepted returned) =
      if text_eq returned (txid_hex node tx) then was_accepted else unknown (mismatch node returned)
  classify (refused code message) = was_rejected (refusal node code message)
  classify (ambiguous message) = unknown message

  abbrev pub Finished : World → BroadcastOutcome → Run BroadcastOutcome → Type 0
  Finished w o (r, w') =
      (r ≡ ok o)
      × (w'.released ≡ released_after o w.released)
      × ((row : Row) × (find_row tx.plan_id w'.journal ≡ some row)
          × (row.stage ≡ as_str (stage_after o))
          × (row.txid ≡ some (txid_hex node tx)))

  respond-Finished :
      (w : World) (row : Row)
      → node.release tx.plan_id ≡ ok tt
      → find_row tx.plan_id w.journal ≡ some row
      → row.stage ≡ as_str broadcasting
      → row.txid ≡ some (txid_hex node tx)
      → (answer : TransportResult) → Finished w (classify answer) (respond node tx answer w)
  unfolding respond can_transition is_edge discriminant call_release
  respond-Finished w row hr h hs hx (accepted returned) =
      elim (Bool-cases (text_eq returned (txid_hex node tx))) [
        | inl own ↦
            rw (own, respond)
              (rw
                (
                  step-ok tx.plan_id broadcast_accepted broadcasting none none w row h hs refl,
                  after,
                )
                (
                  refl,
                  refl,
                  (_, find_row-step tx.plan_id broadcast_accepted none none w row h, refl, hx),
                ))
        | inr other ↦
            rw (other, respond)
              (rw (step-ok tx.plan_id broadcast_unknown broadcasting none _ w row h hs refl, after)
                (
                  refl,
                  refl,
                  (_, find_row-step tx.plan_id broadcast_unknown none _ w row h, refl, hx),
                ))
      ]
  respond-Finished w row hr h hs hx (refused code message) =
      rw
        (
          step-ok tx.plan_id rejected broadcasting none (some (refusal node code message)) w row h
              hs refl,
          after,
        )
        (rw (hr, call_release)
          (refl, refl, (_, find_row-step tx.plan_id rejected none _ w row h, refl, hx)))
  respond-Finished w row hr h hs hx (ambiguous message) =
      rw
        (
          step-ok tx.plan_id broadcast_unknown broadcasting none (some message) w row h hs refl,
          after,
        )
        (refl, refl, (_, find_row-step tx.plan_id broadcast_unknown none _ w row h, refl, hx))

  -- When the row of the plan is at `verified`, the tip is still the one of the verification and the
  -- lock store releases: the call succeeds, its outcome is the classification of the transport's
  -- answer, the row ends at that outcome's stage with the transaction's id, and the locks of the plan
  -- are released just when the node refused the transaction.
  pub broadcast_verified-Finished :
      (w : World) (row : Row) (tip : CanonicalTip)
      → node.canonical_tip ≡ ok tip
      → same_tip tip tx.verified_tip ≡ true
      → node.release tx.plan_id ≡ ok tt
      → find_row tx.plan_id w.journal ≡ some row
      → row.stage ≡ as_str verified
      → Finished w
          (classify (node.send_raw_transaction (node.hex tx.bytes)))
          (broadcast_verified node tx w)
  unfolding broadcast_verified send can_transition is_edge discriminant txid_hex
  broadcast_verified-Finished w row tip ht hs hr h hv =
      rw (ht, broadcast_verified)
        (rw (hs, if◌then◌else◌)
          (rw
            (
              step-ok tx.plan_id broadcasting verified (some (txid_hex node tx)) none w row h hv
                  refl,
              send,
              after,
            )
            (respond-Finished _ (move_to broadcasting (some (txid_hex node tx)) none row) hr
              (find_row-step tx.plan_id broadcasting (some (txid_hex node tx)) none w row h) refl
              refl (node.send_raw_transaction (node.hex tx.bytes)))))
