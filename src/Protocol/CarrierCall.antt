-- ===== src/Protocol/CarrierCall.antt =====
-- What the parser accepts as a CALL_CARRIER, for crates/zalkanes-protocol/src/lib.rs.
use zalkanes.Base.{
  ◌≡◌, sym, ap, ap₂, ◌∙◌, [], ◌∷◌, ◌++◌, length, take, drop, get_or, length-drop, take-append-drop,
  All-drop, ok, arith, All,
}
use zalkanes.Base.Bytes.{Bytes, IsByte, to_be_16, to_be_32, from_be_16, from_be_32}
use zalkanes.Base.Order.{bytes_order}
use zalkanes.Protocol.{
  CallCarrierMessage, CallCarrierIsValid, parse_call_carrier, encode_call_carrier, header,
}
use zalkanes.Core.{msg_call_carrier}
use zalkanes.Protocol.Words.{uncons_at, drop_end, drop-drop, take-Is32, IsByte-at, word_at, long_at}

module _ (body : Bytes) (bytes : All IsByte body) where
  parse_call_carrier-hash :
      (m : CallCarrierMessage)
      → parse_call_carrier body ≡ ok m
      → m.input_hash ≡ take 32 (drop 34 body)
  unfolding parse_call_carrier
  parse_call_carrier-hash m e = ground arith

  parse_call_carrier-length :
      (m : CallCarrierMessage) → parse_call_carrier body ≡ ok m → length body ≡ 71
  unfolding parse_call_carrier
  parse_call_carrier-length m e = ground arith

  -- The fields of an accepted CALL_CARRIER body.
  parse_call_carrier-fields :
      (m : CallCarrierMessage)
      → parse_call_carrier body ≡ ok m
      → (m.input_length
          ≡ from_be_32 (get_or body 66 0) (get_or body 67 0) (get_or body 68 0) (get_or body 69 0))
        × (m.carrier_count ≡ get_or body 70 0)
        × (m.opcode ≡ from_be_16 (get_or body 32 0) (get_or body 33 0))
  unfolding parse_call_carrier
  parse_call_carrier-fields m e = ground arith

  parse_call_carrier-last :
      (m : CallCarrierMessage)
      → parse_call_carrier body ≡ ok m
      → to_be_32 m.input_length ++ (m.carrier_count ∷ []) ≡ drop 66 body
  parse_call_carrier-last m e =
      let (el, en, eo) = parse_call_carrier-fields m e in
      let hl = parse_call_carrier-length m e in
      ap₂ (λ a b. a ++ b) (ap to_be_32 el)
        (ap₂ (λ a b. a ∷ b) en (sym (drop_end 71 body (omega arith)))
          ∙ uncons_at 70 body (omega arith))
      ∙ long_at body bytes 66 (omega arith)

  parse_call_carrier-opcode :
      (m : CallCarrierMessage)
      → parse_call_carrier body ≡ ok m
      → to_be_16 m.opcode ++ drop 34 body ≡ drop 32 body
  parse_call_carrier-opcode m e =
      let hl = parse_call_carrier-length m e in
      ap (λ o. to_be_16 o ++ drop 34 body) (parse_call_carrier-fields m e).2
      ∙ word_at body bytes 32 (omega arith)

  parse_call_carrier-id :
      (m : CallCarrierMessage) → parse_call_carrier body ≡ ok m → m.contract_id ≡ take 32 body
  unfolding parse_call_carrier
  parse_call_carrier-id m e = ground arith

  pub parse_call_carrier-IsValid :
      (m : CallCarrierMessage) → parse_call_carrier body ≡ ok m → CallCarrierIsValid m
  unfolding parse_call_carrier
  parse_call_carrier-IsValid m e = record {
    id =
        rw (parse_call_carrier-id m e)
          (take-Is32 body bytes (omega (arith, parse_call_carrier-length m e)));
    opcode_word = ground (arith, IsByte-at body bytes 32, IsByte-at body bytes 33);
    hash = rw (parse_call_carrier-hash m e) (
        take-Is32 (drop 34 body) (All-drop IsByte 34 body bytes)
          (omega (arith, parse_call_carrier-length m e, length-drop 34 body)));
    length_pos = ground arith;
    length_max = ground arith;
    count_pos = ground arith;
    count_max = ground arith;
  }

  pub parse_call_carrier-encode :
      (m : CallCarrierMessage)
      → parse_call_carrier body ≡ ok m
      → encode_call_carrier m ≡ header msg_call_carrier body
  unfolding encode_call_carrier
  parse_call_carrier-encode m e =
      ap (header msg_call_carrier)
        (ap₂ (λ a b. a ++ b) (parse_call_carrier-id m e) rest ∙ take-append-drop 32 body)
    where
      behind : m.input_hash ++ (to_be_32 m.input_length ++ (m.carrier_count ∷ [])) ≡ drop 34 body
      behind =
          ap₂ (λ a b. a ++ b) (parse_call_carrier-hash m e)
            (parse_call_carrier-last m e ∙ sym (drop-drop 34 32 body))
          ∙ take-append-drop 32 (drop 34 body)

      rest :
          to_be_16 m.opcode ++ (m.input_hash ++ (to_be_32 m.input_length ++ (m.carrier_count ∷ [])))
          ≡ drop 32 body
      rest = ap (λ t. to_be_16 m.opcode ++ t) behind ∙ parse_call_carrier-opcode m e
