-- ===== src/Protocol/Canonical.antt =====
-- What the parser accepts, for crates/zalkanes-protocol/src/lib.rs.
use zalkanes.Base.{
  ℕ, ◌≡◌, ◌≤◌, sym, ap, ap₂, ◌∙◌, some, ◌∷◌, ◌++◌, length, take, drop, get_or, take-append-drop,
  All-drop, ok, arith, All, ◌%◌, ◌^◌,
}
use mathlib.Core.List.{append-nil}
use zalkanes.Base.Bytes.{Bytes, IsByte, to_be_16, to_be_32, from_be_16, from_be_32}
use zalkanes.Base.Order.{same_eq, bytes_order}
use zalkanes.Protocol.{
  DeployMessage, CallMessage, Message, deploy, call, call_carrier, DeployIsValid, CallIsValid,
  IsValid, parse_deploy, parse_call, parse_call_carrier, parse_body, parse_op_return, encode_deploy,
  encode_call, encode, header,
}
use zalkanes.Core.{protocol_magic, msg_deploy, msg_call, msg_call_carrier}
use zalkanes.Protocol.Words.{uncons_at, drop_end, take-Is32, IsByte-at, word_at, long_at}
use zalkanes.Protocol.CarrierCall.{parse_call_carrier-IsValid, parse_call_carrier-encode}

module _ (body : Bytes) (bytes : All IsByte body) where
  -- The fields of an accepted DEPLOY body.
  parse_deploy-fields :
      (m : DeployMessage)
      → parse_deploy body ≡ ok m
      → (m.code_length
          ≡ from_be_32 (get_or body 32 0) (get_or body 33 0) (get_or body 34 0) (get_or body 35 0))
        × (m.chunk_count ≡ get_or body 36 0)
        × (m.output_index ≡ from_be_16 (get_or body 37 0) (get_or body 38 0))
        × (length body ≡ 39)
  unfolding parse_deploy
  parse_deploy-fields m e = ground arith

  parse_deploy-tail :
      (m : DeployMessage)
      → parse_deploy body ≡ ok m
      → to_be_32 m.code_length ++ (m.chunk_count ∷ to_be_16 m.output_index) ≡ drop 32 body
  parse_deploy-tail m e =
      let (el, en, ei, hl) = parse_deploy-fields m e in
      ap₂ (λ a b. a ++ b) (ap to_be_32 el)
        (ap₂ (λ a b. a ∷ b) en
            (ap to_be_16 ei
              ∙ sym (append-nil _)
              ∙ ap (λ t. to_be_16 (from_be_16 (get_or body 37 0) (get_or body 38 0)) ++ t)
                  (sym (drop_end 39 body (omega arith)))
              ∙ word_at body bytes 37 (omega arith))
          ∙ uncons_at 36 body (omega arith))
      ∙ long_at body bytes 32 (omega arith)

  parse_deploy-head :
      (m : DeployMessage)
      → parse_deploy body ≡ ok m
      → (m.code_hash ≡ take 32 body) × (32 ≤ length body)
  unfolding parse_deploy
  parse_deploy-head m e = ground arith

  parse_deploy-IsValid : (m : DeployMessage) → parse_deploy body ≡ ok m → DeployIsValid m
  unfolding parse_deploy
  parse_deploy-IsValid m e = record {
    hash = let (eh, hl) = parse_deploy-head m e in rw eh (take-Is32 body bytes hl);
    length_pos = ground arith;
    length_max = ground arith;
    count_pos = ground arith;
    count_byte = ground (arith, IsByte-at body bytes 36);
    index_word = ground (arith, IsByte-at body bytes 37, IsByte-at body bytes 38);
  }

  parse_deploy-encode :
      (m : DeployMessage) → parse_deploy body ≡ ok m → encode_deploy m ≡ header msg_deploy body
  unfolding encode_deploy
  parse_deploy-encode m e =
      let (eh, hl) = parse_deploy-head m e in
      ap (header msg_deploy)
        (ap₂ (λ a b. a ++ b) eh (parse_deploy-tail m e) ∙ take-append-drop 32 body)

  parse_call-fields :
      (m : CallMessage)
      → parse_call body ≡ ok m
      → (m.opcode ≡ from_be_16 (get_or body 32 0) (get_or body 33 0))
        × (length m.input % 2 ^ 16 ≡ from_be_16 (get_or body 34 0) (get_or body 35 0))
        × (m.input ≡ drop 36 body)
        × (36 ≤ length body)
  unfolding parse_call
  parse_call-fields m e = ground (arith, IsByte-at body bytes 34, IsByte-at body bytes 35)

  parse_call-tail :
      (m : CallMessage)
      → parse_call body ≡ ok m
      → to_be_16 m.opcode ++ (to_be_16 (length m.input % 2 ^ 16) ++ m.input) ≡ drop 32 body
  parse_call-tail m e =
      let (eo, el, ei, hl) = parse_call-fields m e in
      ap₂ (λ a b. a ++ b) (ap to_be_16 eo)
        (ap₂ (λ a b. a ++ b) (ap to_be_16 el) ei ∙ word_at body bytes 34 (omega arith))
      ∙ word_at body bytes 32 (omega arith)

  parse_call-head :
      (m : CallMessage)
      → parse_call body ≡ ok m
      → (m.contract_id ≡ take 32 body) × (32 ≤ length body)
  unfolding parse_call
  parse_call-head m e = ground arith

  parse_call-input : (m : CallMessage) → parse_call body ≡ ok m → m.input ≡ drop 36 body
  unfolding parse_call
  parse_call-input m e = ground arith

  parse_call-IsValid : (m : CallMessage) → parse_call body ≡ ok m → CallIsValid m
  unfolding parse_call
  parse_call-IsValid m e = record {
    id = let (eh, hl) = parse_call-head m e in rw eh (take-Is32 body bytes hl);
    opcode_word = ground (arith, IsByte-at body bytes 32, IsByte-at body bytes 33);
    input_max = ground arith;
    input_bytes = rw (parse_call-input m e) (All-drop IsByte 36 body bytes);
  }

  parse_call-encode :
      (m : CallMessage) → parse_call body ≡ ok m → encode_call m ≡ header msg_call body
  unfolding encode_call
  parse_call-encode m e =
      let (eh, hl) = parse_call-head m e in
      ap (header msg_call) (ap₂ (λ a b. a ++ b) eh (parse_call-tail m e) ∙ take-append-drop 32 body)

  parse_body-canonical :
      (t : ℕ) (m : Message)
      → parse_body t body ≡ ok (some m)
      → IsValid m × (encode m ≡ header t body)
  unfolding parse_body
  parse_body-canonical t (deploy m) e =
      let (et, em) = of_type in (parse_deploy-IsValid m em, rw et (parse_deploy-encode m em))
    where
      of_type : (t ≡ msg_deploy) × (parse_deploy body ≡ ok m)
      of_type = ground arith
  parse_body-canonical t (call m) e =
      let (et, em) = of_type in (parse_call-IsValid m em, rw et (parse_call-encode m em))
    where
      of_type : (t ≡ msg_call) × (parse_call body ≡ ok m)
      of_type = ground arith
  parse_body-canonical t (call_carrier m) e =
      let (et, em) = of_type in
      (
        parse_call_carrier-IsValid body bytes m em,
        rw et (parse_call_carrier-encode body bytes m em),
      )
    where
      of_type : (t ≡ msg_call_carrier) × (parse_call_carrier body ≡ ok m)
      of_type = ground arith

-- A payload of at least six bytes with the magic and version 0 is its header and its body.
header_lem :
    (payload : Bytes)
    → 6 ≤ length payload
    → take 4 payload ≡ protocol_magic
    → get_or payload 4 0 ≡ 0
    → header (get_or payload 5 0) (drop 6 payload) ≡ payload
header_lem payload h em ev =
    sym (
      ap₂ (λ a b. a ++ b) em
        (sym (uncons_at 4 payload (omega arith))
          ∙ ap₂ (λ a b. a ∷ b) ev (sym (uncons_at 5 payload (omega arith)))))
    ∙ take-append-drop 4 payload

-- Every byte string that the parser accepts as a message is the encoding of the message that it
-- returns, so that no two payloads are read as one message; and that message is within the limits that
-- the parser checks: a DEPLOY of 1 to 262144 bytes in 1 to 255 chunks, a CALL with at most 38 bytes
-- of input, a CALL_CARRIER of 1 to 65536 bytes in 1 to 47 chunks, with the widths of the format.
pub parse_op_return-canonical :
    (payload : Bytes) (m : Message)
    → All IsByte payload
    → parse_op_return payload ≡ ok (some m)
    → IsValid m × (encode m ≡ payload)
unfolding parse_op_return
parse_op_return-canonical payload m a e =
    let (hl, em, ev, eb) = parts in
    let (v, ee) = parse_body-canonical (drop 6 payload) (All-drop IsByte 6 payload a) _ m eb in
    (v, ee ∙ header_lem payload hl em ev)
  where
    parts :
        (6 ≤ length payload)
        × (take 4 payload ≡ protocol_magic)
        × (get_or payload 4 0 ≡ 0)
        × (parse_body (get_or payload 5 0) (drop 6 payload) ≡ ok (some m))
    parts = ground (arith, same_eq (take 4 payload) protocol_magic)
