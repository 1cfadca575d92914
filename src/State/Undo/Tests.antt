-- ===== src/State/Undo/Tests.antt =====
-- A journal with an operation of each kind, and the round trip at it.
use zalkanes.Base.{◌≡◌, refl, List, [], ◌∷◌, replicate, none, some, All, arith}
use zalkanes.State.{UndoOp, set, delete, deploy}
use zalkanes.State.Undo.{encode_undo, decode_undo}
use zalkanes.State.Undo.RoundTrip.{OpFits, decode_undo-encode}

abbrev journal : List UndoOp
journal =
    set (replicate 32 1) (5 ∷ []) none
    ∷ set (replicate 32 1) [] (some (6 ∷ []))
    ∷ delete (replicate 32 2) (5 ∷ []) (7 ∷ 8 ∷ [])
    ∷ deploy (replicate 32 3) (some (replicate 32 4, 9 ∷ []))
    ∷ deploy (replicate 32 3) none
    ∷ []

journal-Fits : All OpFits journal
journal-Fits = (
  (refl, omega arith),
  (
    (refl, omega arith, omega arith),
    ((refl, omega arith, omega arith), ((refl, refl, omega arith), (refl, tt))),
  ),
)

decode_undo-encode_example : decode_undo (encode_undo journal) ≡ journal
decode_undo-encode_example = decode_undo-encode journal journal-Fits (omega arith)
