-- ===== src/Wallet/Journal/Diagram.antt =====
-- The stage diagram of crates/zalkanes-wallet/src/journal.rs, and the texts of the stages.
use Prim.Native.String.{String}
use zalkanes.Base.{
  ◌≡◌, refl, sym, ◌∙◌, subst, ◌↔◌, ◌⊎◌, inr, arith, Bool, true, false, Result, ok, err,
  if◌then◌else◌, on_if,
}
use zalkanes.Base.Text.{text_eq, eq_of_text_eq}
use zalkanes.Wallet.Journal.Stage.{
  JournalStage, planned, reserved, proving, proven, signing, signed, extracted, verified,
  broadcasting, broadcast_unknown, broadcast_accepted, mined, cancelled, expired, rejected, reorged,
  JournalError, as_str, parse_stage, can_transition, is_edge, discriminant,
}

-- The stages that `non_terminal_rows` leaves out.
unfoldable pub is_terminal : JournalStage → Bool
is_terminal mined = true
is_terminal cancelled = true
is_terminal expired = true
is_terminal rejected = true
is_terminal reorged = true
is_terminal _ = false

-- The stages that follow a send.
unfoldable pub is_sent : JournalStage → Bool
is_sent broadcasting = true
is_sent broadcast_unknown = true
is_sent broadcast_accepted = true
is_sent mined = true
is_sent rejected = true
is_sent _ = false

pub sent_from :
    (f t : JournalStage)
    → can_transition f t ≡ true
    → is_sent t ≡ true
    → (is_sent f ≡ true) ⊎ (f ≡ verified)
unfolding can_transition is_edge discriminant is_sent
sent_from verified t e h = inr refl
sent_from f t e h = ground arith

pub terminal_stays : (f t : JournalStage) → can_transition f t ≡ true → is_terminal f ≡ true → t ≡ f
unfolding can_transition is_edge discriminant is_terminal
terminal_stays f t e h = ground arith

pub parse_stage-as_str : (s : JournalStage) → parse_stage (as_str s) ≡ ok s
unfolding parse_stage as_str text_eq
parse_stage-as_str planned = refl
parse_stage-as_str reserved = refl
parse_stage-as_str proving = refl
parse_stage-as_str proven = refl
parse_stage-as_str signing = refl
parse_stage-as_str signed = refl
parse_stage-as_str extracted = refl
parse_stage-as_str verified = refl
parse_stage-as_str broadcasting = refl
parse_stage-as_str broadcast_unknown = refl
parse_stage-as_str broadcast_accepted = refl
parse_stage-as_str mined = refl
parse_stage-as_str cancelled = refl
parse_stage-as_str expired = refl
parse_stage-as_str rejected = refl
parse_stage-as_str reorged = refl

abbrev Names : String → Result JournalStage JournalError → Type 0
Names text (ok s) = text ≡ as_str s
Names text (err _) = Unit

-- One arm of the match of `parse_stage`.
arm :
    (s : JournalStage) (name text : String) (rest : Result JournalStage JournalError)
    → name ≡ as_str s
    → Names text rest
    → Names text (if text_eq text name then ok s else rest)
arm s name text rest e r =
    on_if (Names text) (text_eq text name) (λ h. eq_of_text_eq text name h ∙ e) (λ _. r)

parse_stage-Names : (text : String) → Names text (parse_stage text)
unfolding parse_stage as_str
parse_stage-Names text = arm planned "planned" text _ refl (
    arm reserved "reserved" text _ refl (
      arm proving "proving" text _ refl (
        arm proven "proven" text _ refl (
          arm signing "signing" text _ refl (
            arm signed "signed" text _ refl (
              arm extracted "extracted" text _ refl (
                arm verified "verified" text _ refl (
                  arm broadcasting "broadcasting" text _ refl (
                    arm broadcast_unknown "broadcast_unknown" text _ refl (
                      arm broadcast_accepted "broadcast_accepted" text _ refl (
                        arm mined "mined" text _ refl (
                          arm cancelled "cancelled" text _ refl (
                            arm expired "expired" text _ refl (
                              arm rejected "rejected" text _ refl
                                (arm reorged "reorged" text _ refl (tt))))))))))))))))

-- Reading a stage's text gives the stage, and only the text that a stage is written as is read as
-- that stage.
pub parse_stage_iff :
    (s : JournalStage) (text : String) → (parse_stage text ≡ ok s) ↔ (text ≡ as_str s)
parse_stage_iff s text = (
  λ h. subst (Names text) h (parse_stage-Names text),
  λ e. subst (λ x. parse_stage x ≡ ok s) (sym e) (parse_stage-as_str s),
)
