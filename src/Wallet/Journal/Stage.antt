-- ===== src/Wallet/Journal/Stage.antt =====
-- The stages of an operation, of crates/zalkanes-wallet/src/journal.rs.
use Prim.Native.String.{String}
use zalkanes.Base.{ℕ, Bool, true, false, ◌==◌, Result, ok, err, if◌then◌else◌}
use zalkanes.Base.Text.{text_eq}

pub data JournalStage : Type 0 where
  planned reserved proving proven signing signed extracted verified : JournalStage
  broadcasting broadcast_unknown broadcast_accepted mined cancelled expired rejected reorged :
      JournalStage

-- `JournalStage::as_str`
unfoldable pub as_str : JournalStage → String
as_str planned = "planned"
as_str reserved = "reserved"
as_str proving = "proving"
as_str proven = "proven"
as_str signing = "signing"
as_str signed = "signed"
as_str extracted = "extracted"
as_str verified = "verified"
as_str broadcasting = "broadcasting"
as_str broadcast_unknown = "broadcast_unknown"
as_str broadcast_accepted = "broadcast_accepted"
as_str mined = "mined"
as_str cancelled = "cancelled"
as_str expired = "expired"
as_str rejected = "rejected"
as_str reorged = "reorged"

-- The discriminant, which the derived `==` compares.
unfoldable pub discriminant : JournalStage → ℕ
discriminant planned = 0
discriminant reserved = 1
discriminant proving = 2
discriminant proven = 3
discriminant signing = 4
discriminant signed = 5
discriminant extracted = 6
discriminant verified = 7
discriminant broadcasting = 8
discriminant broadcast_unknown = 9
discriminant broadcast_accepted = 10
discriminant mined = 11
discriminant cancelled = 12
discriminant expired = 13
discriminant rejected = 14
discriminant reorged = 15

-- The pairs of `matches!` in `can_transition`.
unfoldable pub is_edge : JournalStage → JournalStage → Bool
is_edge planned reserved = true
is_edge planned cancelled = true
is_edge planned _ = false
is_edge reserved proving = true
is_edge reserved cancelled = true
is_edge reserved expired = true
is_edge reserved reorged = true
is_edge reserved _ = false
is_edge proving proven = true
is_edge proving cancelled = true
is_edge proving _ = false
is_edge proven signing = true
is_edge proven cancelled = true
is_edge proven _ = false
is_edge signing signed = true
is_edge signing cancelled = true
is_edge signing _ = false
is_edge signed extracted = true
is_edge signed cancelled = true
is_edge signed expired = true
is_edge signed reorged = true
is_edge signed _ = false
is_edge extracted verified = true
is_edge extracted cancelled = true
is_edge extracted expired = true
is_edge extracted reorged = true
is_edge extracted _ = false
is_edge verified broadcasting = true
is_edge verified cancelled = true
is_edge verified expired = true
is_edge verified reorged = true
is_edge verified _ = false
is_edge broadcasting broadcast_accepted = true
is_edge broadcasting broadcast_unknown = true
is_edge broadcasting rejected = true
is_edge broadcasting mined = true
is_edge broadcasting _ = false
is_edge broadcast_unknown broadcast_accepted = true
is_edge broadcast_unknown mined = true
is_edge broadcast_unknown rejected = true
is_edge broadcast_unknown expired = true
is_edge broadcast_unknown reorged = true
is_edge broadcast_unknown _ = false
is_edge broadcast_accepted mined = true
is_edge broadcast_accepted reorged = true
is_edge broadcast_accepted expired = true
is_edge broadcast_accepted _ = false
is_edge mined _ = false
is_edge cancelled _ = false
is_edge expired _ = false
is_edge rejected _ = false
is_edge reorged _ = false

-- `JournalStage::can_transition`
unfoldable pub can_transition : JournalStage → JournalStage → Bool
can_transition from to = if discriminant from == discriminant to then true else is_edge from to

-- An error of the journal, by its message.
pub data JournalError : Type 0 where
  no_row : String → JournalError
  unknown_stage : String → JournalError
  illegal_transition : String → String → JournalStage → JournalError
  plan_id_conflict : String → JournalError
  corrupt : JournalError

unfoldable pub parse_stage : String → Result JournalStage JournalError
parse_stage s =
    if text_eq s "planned"
    then ok planned
    else if text_eq s "reserved"
    then ok reserved
    else if text_eq s "proving"
    then ok proving
    else if text_eq s "proven"
    then ok proven
    else if text_eq s "signing"
    then ok signing
    else if text_eq s "signed"
    then ok signed
    else if text_eq s "extracted"
    then ok extracted
    else if text_eq s "verified"
    then ok verified
    else if text_eq s "broadcasting"
    then ok broadcasting
    else if text_eq s "broadcast_unknown"
    then ok broadcast_unknown
    else if text_eq s "broadcast_accepted"
    then ok broadcast_accepted
    else if text_eq s "mined"
    then ok mined
    else if text_eq s "cancelled"
    then ok cancelled
    else if text_eq s "expired"
    then ok expired
    else if text_eq s "rejected"
    then ok rejected
    else if text_eq s "reorged"
    then ok reorged
    else err (unknown_stage s)
