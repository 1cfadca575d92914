-- ===== src/Wallet/Broadcast/Sent.antt =====
-- What `broadcast_verified` of crates/zalkanes-wallet/src/broadcast.rs sends, records and releases.
use Prim.Native.String.{String}
use zalkanes.Base.{
  ◌≡◌, refl, ap, sym, ◌∙◌, subst, ◌⊎◌, inl, inr, true, Option, none, some, ◌∷◌, ok, err, on_if,
  on_result,
}
use zalkanes.Base.Text.{text_eq}
use zalkanes.Wallet.Journal.{Row, Journal, find_row, move_to}
use zalkanes.Wallet.Journal.Stage.{
  JournalStage, broadcasting, broadcast_unknown, broadcast_accepted, rejected, as_str,
}
use zalkanes.Wallet.Journal.Rows.{Stepped}
use zalkanes.Wallet.Broadcast.{
  Node, World, Run, Failure, CanonicalTip, same_tip, VerifiedTransaction, TransportResult, accepted,
  refused, ambiguous, BroadcastOutcome, after, step, call_release, txid_hex, respond, send,
  broadcast_verified,
}
use zalkanes.Wallet.Broadcast.Steps.{with_row, StepShape, step-StepShape, on_after, find_row-step}

module _ (node : Node) (tx : VerifiedTransaction) where
  -- The journal on disk has the plan at `broadcasting`, with the transaction's id.
  abbrev pub IsRecorded : Journal → Type 0
  IsRecorded j =
      (r : Row) × (find_row tx.plan_id j ≡ some r)
      × (r.stage ≡ as_str broadcasting)
      × (r.txid ≡ some (txid_hex node tx))

  -- Nothing was sent, or the transaction was, once, when the journal was already recorded.
  abbrev Sends : World → World → Type 0
  Sends w w' =
      (w' ≡ w) ⊎ ((j : Journal) × (w'.sent ≡ (node.hex tx.bytes, j) ∷ w.sent) × IsRecorded j)

  abbrev SentSame : World → Run BroadcastOutcome → Type 0
  SentSame w (_, w') = w'.sent ≡ w.sent

  step-sent :
      (to : JournalStage) (e : Option String) (w : World)
      → (step tx.plan_id to none e w).1.sent ≡ w.sent
  step-sent to e w = go (step tx.plan_id to none e w) (step-StepShape tx.plan_id to none e w)
    where
      go : (m : Run JournalStage) → StepShape tx.plan_id to none e w m → m.1.sent ≡ w.sent
      go (err _, w') h = ap (λ x. x.sent) h
      go (ok _, w') (_, h) = ap (λ x. x.sent) h

  release-sent : (w : World) → (call_release node tx.plan_id w).1.sent ≡ w.sent
  unfolding call_release
  release-sent w =
      on_result (λ (m : Run Unit). m.1.sent ≡ w.sent) (node.release tx.plan_id) (λ _ _. refl)
        (λ _ _. refl)

  -- A transition first, then a call that sends nothing.
  after-step-sent :
      (to : JournalStage) (e : Option String) (w : World)
      (k : JournalStage → World → Run BroadcastOutcome)
      → ((f : JournalStage) (w' : World) → SentSame w' (k f w'))
      → SentSame w (after (step tx.plan_id to none e w) k)
  after-step-sent to e w k same =
      on_after (SentSame w) (step tx.plan_id to none e w) k
        (λ _ _ h. sym (ap (λ m. m.1.sent) h) ∙ step-sent to e w)
        (λ f w' h. same f w' ∙ (sym (ap (λ m. m.1.sent) h) ∙ step-sent to e w))

  respond-sent : (answer : TransportResult) (w : World) → SentSame w (respond node tx answer w)
  unfolding respond
  respond-sent (accepted returned) w =
      on_if (SentSame w) (text_eq returned (txid_hex node tx))
        (λ _. after-step-sent broadcast_accepted none w _ (λ _ _. refl))
        (λ _. after-step-sent broadcast_unknown _ w _ (λ _ _. refl))
  respond-sent (refused code message) w = after-step-sent rejected _ w _ λ _ w'.
      on_after (SentSame w') (call_release node tx.plan_id w') _
        (λ _ _ h. sym (ap (λ m. m.1.sent) h) ∙ release-sent w')
        (λ _ _ h. sym (ap (λ m. m.1.sent) h) ∙ release-sent w')
  respond-sent (ambiguous message) w = after-step-sent broadcast_unknown _ w _ (λ _ _. refl)

  send-Sends : (w : World) → Sends w (send node tx w).1
  unfolding send
  send-Sends w =
      on_after (λ (m : Run BroadcastOutcome). Sends w m.1)
        (step tx.plan_id broadcasting (some (txid_hex node tx)) none w) _ (λ e w' h. inl (shape h))
        (λ f w' h.
          let (s, e') = moved h in
          inr (
            w'.journal,
            respond-sent (node.send_raw_transaction (node.hex tx.bytes))
                  (record w' { sent = (node.hex tx.bytes, w'.journal) ∷ w'.sent })
                ∙ ap (λ (x : World). (node.hex tx.bytes, w'.journal) ∷ x.sent) e',
            (
              move_to broadcasting (some (txid_hex node tx)) none s.row,
              ap (λ (x : World). find_row tx.plan_id x.journal) e'
                  ∙ find_row-step tx.plan_id broadcasting (some (txid_hex node tx)) none w s.row
                      s.found,
              refl,
              refl,
            ),
          ))
    where
      shape :
          {e : Failure} {w' : World}
          → step tx.plan_id broadcasting (some (txid_hex node tx)) none w ≡ (err e, w')
          → w' ≡ w
      shape h =
          subst (StepShape tx.plan_id broadcasting (some (txid_hex node tx)) none w) h
            (step-StepShape tx.plan_id broadcasting (some (txid_hex node tx)) none w)

      moved :
          {f : JournalStage} {w' : World}
          → step tx.plan_id broadcasting (some (txid_hex node tx)) none w ≡ (ok f, w')
          → Stepped tx.plan_id broadcasting w.journal f
            × (w' ≡ with_row tx.plan_id broadcasting (some (txid_hex node tx)) none w)
      moved h =
          subst (StepShape tx.plan_id broadcasting (some (txid_hex node tx)) none w) h
            (step-StepShape tx.plan_id broadcasting (some (txid_hex node tx)) none w)

  -- Sent once, at the tip it was verified at, the journal recorded.
  abbrev pub SentOnce : World → World → Type 0
  SentOnce w w' =
      (tip : CanonicalTip) × (j : Journal) × (node.canonical_tip ≡ ok tip)
      × (same_tip tip tx.verified_tip ≡ true)
      × (w'.sent ≡ (node.hex tx.bytes, j) ∷ w.sent)
      × IsRecorded j

  -- Whatever the chain source, the transport and the lock store do: a call either changes nothing,
  -- or it has sent this transaction once, the tip being the one it was verified at, and at that
  -- moment the journal on disk had its plan at `broadcasting` with its id.
  pub broadcast_verified-sent :
      (w : World)
      → ((broadcast_verified node tx w).1 ≡ w) ⊎ SentOnce w (broadcast_verified node tx w).1
  unfolding broadcast_verified
  broadcast_verified-sent w =
      on_result Same_or_sent node.canonical_tip
        (λ tip ht.
          on_if Same_or_sent (same_tip tip tx.verified_tip)
            (λ hs. elim (send-Sends w) [
              | inl e ↦ inl e
              | inr (j, e, rec) ↦ inr (tip, j, ht, hs, e, rec)
            ])
            (λ _. inl refl))
        (λ _ _. inl refl)
    where
      Same_or_sent : Run BroadcastOutcome → Type 0
      Same_or_sent m = (m.1 ≡ w) ⊎ SentOnce w m.1
