-- ===== src/Protocol/Tests.antt =====
-- Sample messages and payloads, and the theorems on the protocol at them.
use zalkanes.Base.{
  ◌≡◌, refl, ◌≢◌, ◌↔◌, ◌⊎◌, [], ◌∷◌, length, take, replicate, All, All-replicate, some, none, ok,
  arith,
}
use zalkanes.Base.Bytes.{Bytes, IsByte}
use zalkanes.Base.Order.{cmp_bytes}
use zalkanes.Protocol.{
  call, CallMessage, CallIsValid, IsValid, encode, parse_op_return, parse_body, parse_call,
  starts_with, encode_call,
}
use zalkanes.Protocol.RoundTrip.{parse_op_return-encode}
use zalkanes.Protocol.Canonical.{parse_op_return-canonical}
use zalkanes.Protocol.Skip.{parse_op_return-skip_iff, magic_prefix}

abbrev counter_call : CallMessage
counter_call = record { contract_id = replicate 32 7; opcode = 3; input = 1 ∷ 2 ∷ [] }

counter_call-IsValid : CallIsValid counter_call
counter_call-IsValid = record {
  id = (refl, All-replicate IsByte 32 7 (omega arith));
  opcode_word = omega arith;
  input_max = omega arith;
  input_bytes = (omega arith, (omega arith, tt));
}

abbrev call_payload : Bytes
call_payload =
    0x5A ∷ 0x41 ∷ 0x4C ∷ 0x4B ∷ 0 ∷ 2 ∷ 7 ∷ 7 ∷ 7 ∷ 7 ∷ 7 ∷ 7 ∷ 7 ∷ 7 ∷ 7 ∷ 7 ∷ 7 ∷ 7 ∷ 7 ∷ 7 ∷ 7
    ∷ 7 ∷ 7 ∷ 7 ∷ 7 ∷ 7 ∷ 7 ∷ 7 ∷ 7 ∷ 7 ∷ 7 ∷ 7 ∷ 7 ∷ 7 ∷ 7 ∷ 7 ∷ 7 ∷ 7 ∷ 0 ∷ 3 ∷ 0 ∷ 2 ∷ 1 ∷ 2 ∷ []

encoded : encode (call counter_call) ≡ call_payload
unfolding encode_call
encoded = refl

parsed : parse_op_return call_payload ≡ ok (some (call counter_call))
unfolding parse_op_return parse_body parse_call starts_with cmp_bytes
parsed = refl

call_payload-bytes : All IsByte call_payload
call_payload-bytes = ground arith

parse_op_return-encode_example :
    parse_op_return (encode (call counter_call)) ≡ ok (some (call counter_call))
parse_op_return-encode_example = parse_op_return-encode (call counter_call) counter_call-IsValid

parse_op_return-canonical_example :
    IsValid (call counter_call) × (encode (call counter_call) ≡ call_payload)
parse_op_return-canonical_example =
    parse_op_return-canonical call_payload (call counter_call) call_payload-bytes parsed

parse_op_return-skip_iff_example :
    (parse_op_return call_payload ≡ ok none)
    ↔ ((length call_payload ≡ 0) ⊎ (take 4 call_payload ≢ magic_prefix call_payload))
parse_op_return-skip_iff_example = parse_op_return-skip_iff call_payload
