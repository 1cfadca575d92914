-- ===== src/Tx/ScriptRoundTrip.antt =====
-- The scripts that crates/zalkanes-tx/src/lib.rs builds, read back by
-- crates/zalkanes-carrier/src/lib.rs.
use zalkanes.Base.{
  ℕ, zero, suc, ◌+◌, ◌-◌, ◌≡◌, ◌≤◌, ◌<◌, refl, sym, ap, ◌∙◌, some, List, [], ◌∷◌, ◌++◌, length,
  drop, length-append, take-append, drop-append, arith, All, All-append, All-imp,
}
use mathlib.Core.List.{append-nil, append_assoc}
use zalkanes.Base.Bytes.{Bytes}
use zalkanes.Carrier.Script.{
  parse_push, extract_op_return_data, push_loop, parse_script_pushes, concat, single_byte,
  chunk_from_pushes, chunk_from_script_sig,
}
use zalkanes.Carrier.Pieces.{concat-pieces, pieces-le, pieces-pos}
use zalkanes.Carrier.{chunks_of}
use zalkanes.Tx.{push_data, push_all, op_return_script, carrier_script_sig}

-- One push, whatever follows it, is read back and consumed exactly.
pub parse_push-push_data :
    (d rest : Bytes)
    → length d < 65536
    → parse_push (push_data d ++ rest) ≡ some (d, length (push_data d))
unfolding parse_push push_data
parse_push-push_data d rest h =
    ground (arith, length-append d rest, take-append (length d) d rest refl)

-- The payload of an OP_RETURN script is read back, for a payload shorter than 65536 bytes.
pub extract-op_return_script :
    (payload : Bytes)
    → length payload < 65536
    → extract_op_return_data (op_return_script payload) ≡ some payload
unfolding extract_op_return_data op_return_script push_data
extract-op_return_script payload h =
    ground (arith, append-nil (push_data payload), parse_push-push_data payload [] h)

push_data-pos : (d rest : Bytes) → 0 < length (push_data d ++ rest)
unfolding push_data
push_data-pos d rest = ground arith

push_loop-push_data :
    (fuel : ℕ) (d rest : Bytes)
    → length d < 65536
    → push_loop (suc fuel) (push_data d ++ rest) ≡ d ∷ push_loop fuel rest
push_loop-push_data fuel d rest h =
    let read = parse_push-push_data d rest h in
    let behind = drop-append (length (push_data d)) (push_data d) rest refl in
    step (push_data d ++ rest) (push_data-pos d rest) read behind
  where
    step :
        (script : Bytes)
        → 0 < length script
        → parse_push script ≡ some (d, length (push_data d))
        → drop (length (push_data d)) script ≡ rest
        → push_loop (suc fuel) script ≡ d ∷ push_loop fuel rest
    step [] p e b = absurd (omega arith)
    step (x ∷ script) p e b =
        unfold push_loop in rw (e, push_loop) (ap (λ t. d ∷ push_loop fuel t) b)

-- The pushes of any list of byte strings, each shorter than 65536 bytes, are read back in order,
-- with fuel of at least the script's length.
pub parse_pushes-push_all :
    (fuel : ℕ) (ds : List Bytes)
    → All (λ d. length d < 65536) ds
    → length (push_all ds) ≤ fuel
    → push_loop fuel (push_all ds) ≡ ds
unfolding push_all concat
parse_pushes-push_all zero [] a h = unfold push_loop in refl
parse_pushes-push_all (suc fuel) [] a h = unfold push_loop in refl
parse_pushes-push_all zero (d ∷ ds) a h = absurd (omega (arith, push_data-pos d (push_all ds)))
parse_pushes-push_all (suc fuel) (d ∷ ds) a h =
    push_loop-push_data fuel d (push_all ds) a.0
    ∙ ap (λ t. d ∷ t)
        (parse_pushes-push_all fuel ds a.1 (
          omega (
            arith,
            length-append (push_data d) (push_all ds),
            push_data-pos d [],
            length-append (push_data d) [],
          )))

push_all-append : (ds es : List Bytes) → push_all (ds ++ es) ≡ push_all ds ++ push_all es
unfolding push_all concat
push_all-append [] es = refl
push_all-append (d ∷ ds) es =
    ap (λ t. push_data d ++ t) (push_all-append ds es)
    ∙ sym (append_assoc (push_data d) (push_all ds) (push_all es))

push_all-two : (a b : Bytes) → push_data a ++ push_data b ≡ push_all (a ∷ b ∷ [])
unfolding push_all concat
push_all-two a b = ap (λ t. push_data a ++ t) (sym (append-nil (push_data b)))

push_all-cons : (a : Bytes) (ds : List Bytes) → push_data a ++ push_all ds ≡ push_all (a ∷ ds)
unfolding push_all concat
push_all-cons a ds = refl

carrier_script_sig-push_all :
    (i : ℕ) (bytes signature redeem : Bytes)
    → carrier_script_sig i bytes signature redeem
      ≡ push_all ((i ∷ []) ∷ (chunks_of 520 bytes ++ (signature ∷ redeem ∷ [])))
unfolding carrier_script_sig
carrier_script_sig-push_all i bytes signature redeem =
    ap (λ t. push_data (i ∷ []) ++ t)
      (ap (λ t. push_all (chunks_of 520 bytes) ++ t) (push_all-two signature redeem)
        ∙ sym (push_all-append (chunks_of 520 bytes) (signature ∷ redeem ∷ [])))
    ∙ push_all-cons _ _

chunk_from_pushes_lem :
    (i : ℕ) (parts : List Bytes) (signature redeem : Bytes)
    → 0 < length parts
    → chunk_from_pushes ((i ∷ []) ∷ (parts ++ (signature ∷ redeem ∷ []))) ≡ some (i, concat parts)
unfolding chunk_from_pushes single_byte
chunk_from_pushes_lem i parts signature redeem h =
    let tail : List Bytes = signature ∷ redeem ∷ [] in
    let n : length (parts ++ tail) + 1 - 2 - 1 ≡ length parts =
      omega (arith, length-append parts tail) in
    ground (arith, length-append parts tail, n, take-append (length parts) parts tail refl)

-- A carrier scriptSig gives back the chunk index and the chunk, for a chunk that is not empty and
-- a signature and a redeem script shorter than 65536 bytes.
pub chunk-carrier_script_sig :
    (i : ℕ) (bytes signature redeem : Bytes)
    → 0 < length bytes
    → length signature < 65536
    → length redeem < 65536
    → chunk_from_script_sig (carrier_script_sig i bytes signature redeem) ≡ some (i, bytes)
unfolding chunk_from_script_sig parse_script_pushes
chunk-carrier_script_sig i bytes signature redeem hb hs hr =
    ap chunk_from_pushes (
      rw (carrier_script_sig-push_all i bytes signature redeem)
        (parse_pushes-push_all _ pushes (omega arith, small) (omega arith)))
    ∙ chunk_from_pushes_lem i (chunks_of 520 bytes) signature redeem
        (pieces-pos (length bytes) 520 bytes hb (omega arith))
    ∙ ap (λ t. some (i, t)) (concat-pieces (length bytes) 520 bytes (omega arith) (omega arith))
  where
    pushes : List Bytes
    pushes = (i ∷ []) ∷ (chunks_of 520 bytes ++ (signature ∷ redeem ∷ []))

    small : All (λ d. length d < 65536) (chunks_of 520 bytes ++ (signature ∷ redeem ∷ []))
    small =
        All-append _ (chunks_of 520 bytes) _
          (All-imp _ (λ d h. omega arith) (chunks_of 520 bytes)
            (pieces-le (length bytes) 520 bytes))
          (hs, (hr, tt))
