-- ===== src/Protocol.antt =====
-- crates/zalkanes-protocol/src/lib.rs: the OP_RETURN message format, its parser and its encoders.
-- Slices `body[a..b]` are `take` and `drop`, an index `body[i]` is `get_or body i 0`; the length
-- tests in front of them keep every index in range.
pub mod RoundTrip
pub mod Words
pub mod CarrierCall
pub mod Canonical
pub mod Skip
mod Tests
use zalkanes.Base.{
  ℕ, ◌≡◌, ◌≤◌, ◌<◌, Bool, true, false, ◌||◌, not, Option, none, some, List, [], ◌∷◌, ◌++◌, ltb,
  ◌==◌, if◌then◌else◌, min, length, take, drop, get_or, All, Result, ok, err, and_then, ◌%◌, ◌^◌,
}
use zalkanes.Base.Bytes.{Bytes, IsByte, to_be_16, to_be_32, from_be_16, from_be_32}
use zalkanes.Base.Order.{same, bytes_order}
use zalkanes.Core.{
  Is32, CodeHash, ContractId, max_code_bytes, max_call_inline_bytes, max_call_input_bytes,
  max_call_carrier_chunks, protocol_magic, protocol_v0, msg_deploy, msg_call, msg_call_carrier,
}

pub record DeployMessage : Type 0 where
  pub code_hash : CodeHash
  pub code_length : ℕ
  pub chunk_count : ℕ
  pub output_index : ℕ

pub record CallMessage : Type 0 where
  pub contract_id : ContractId
  pub opcode : ℕ
  pub input : Bytes

pub record CallCarrierMessage : Type 0 where
  pub contract_id : ContractId
  pub opcode : ℕ
  pub input_hash : Bytes
  pub input_length : ℕ
  pub carrier_count : ℕ

pub data Message : Type 0 where
  deploy : DeployMessage → Message
  call : CallMessage → Message
  call_carrier : CallCarrierMessage → Message

pub data ParseError : Type 0 where
  invalid_magic : ParseError
  unknown_version : ℕ → ParseError
  unknown_message_type : ℕ → ParseError
  truncated : ParseError
  trailing_bytes : ParseError
  code_length_exceeds_max : ℕ → ℕ → ParseError
  input_length_exceeds_max : ℕ → ℕ → ParseError
  carrier_input_length_exceeds_max : ℕ → ℕ → ParseError
  input_length_mismatch : ℕ → ℕ → ParseError
  carrier_count_exceeds_max : ℕ → ℕ → ParseError

-- `slice.starts_with(prefix)`
unfoldable pub starts_with : Bytes → Bytes → Bool
starts_with xs [] = true
starts_with [] (p ∷ ps) = false
starts_with (x ∷ xs) (p ∷ ps) = if x == p then starts_with xs ps else false

unfoldable pub parse_deploy : Bytes → Result DeployMessage ParseError
parse_deploy body =
    let code_length =
      from_be_32 (get_or body 32 0) (get_or body 33 0) (get_or body 34 0) (get_or body 35 0) in
    let chunk_count = get_or body 36 0 in
    if ltb (length body) 39
    then err truncated
    else if ltb 39 (length body)
    then err trailing_bytes
    else if code_length == 0 || ltb max_code_bytes code_length
    then err (code_length_exceeds_max code_length max_code_bytes)
    else if chunk_count == 0
    then err truncated
    else ok (record {
      code_hash = take 32 body;
      code_length = code_length;
      chunk_count = chunk_count;
      output_index = from_be_16 (get_or body 37 0) (get_or body 38 0);
    })

unfoldable pub parse_call : Bytes → Result CallMessage ParseError
parse_call body =
    let input_length = from_be_16 (get_or body 34 0) (get_or body 35 0) in
    let input_data = drop 36 body in
    if ltb (length body) 36
    then err truncated
    else if ltb max_call_inline_bytes input_length
    then err (input_length_exceeds_max input_length max_call_inline_bytes)
    else if length input_data == input_length
    then ok (record {
      contract_id = take 32 body;
      opcode = from_be_16 (get_or body 32 0) (get_or body 33 0);
      input = input_data;
    })
    else err (input_length_mismatch input_length (length input_data))

unfoldable pub parse_call_carrier : Bytes → Result CallCarrierMessage ParseError
parse_call_carrier body =
    let input_length =
      from_be_32 (get_or body 66 0) (get_or body 67 0) (get_or body 68 0) (get_or body 69 0) in
    let carrier_count = get_or body 70 0 in
    if ltb (length body) 71
    then err truncated
    else if ltb 71 (length body)
    then err trailing_bytes
    else if input_length == 0 || ltb max_call_input_bytes input_length
    then err (carrier_input_length_exceeds_max input_length max_call_input_bytes)
    else if carrier_count == 0 || ltb max_call_carrier_chunks carrier_count
    then err (carrier_count_exceeds_max carrier_count max_call_carrier_chunks)
    else ok (record {
      contract_id = take 32 body;
      opcode = from_be_16 (get_or body 32 0) (get_or body 33 0);
      input_hash = take 32 (drop 34 body);
      input_length = input_length;
      carrier_count = carrier_count;
    })

-- The `match msg_type`.
unfoldable pub parse_body : ℕ → Bytes → Result (Option Message) ParseError
parse_body msg_type body =
    if msg_type == msg_deploy
    then and_then (parse_deploy body) (λ m. ok (some (deploy m)))
    else if msg_type == msg_call
    then and_then (parse_call body) (λ m. ok (some (call m)))
    else if msg_type == msg_call_carrier
    then and_then (parse_call_carrier body) (λ m. ok (some (call_carrier m)))
    else err (unknown_message_type msg_type)

-- `ok none` is a payload that is skipped in silence.
unfoldable pub parse_op_return : Bytes → Result (Option Message) ParseError
parse_op_return payload =
    let version = get_or payload 4 0 in
    if length payload == 0
    then ok none
    else if ltb (length payload) 6
    then (if starts_with payload (take (min (length payload) 4) protocol_magic)
        then err truncated
        else ok none)
    else if not (same (take 4 payload) protocol_magic)
    then ok none
    else if not (version == protocol_v0)
    then err (unknown_version version)
    else parse_body (get_or payload 5 0) (drop 6 payload)

abbrev pub header : ℕ → Bytes → Bytes
header msg_type body = protocol_magic ++ (protocol_v0 ∷ msg_type ∷ body)

unfoldable pub encode_deploy : DeployMessage → Bytes
encode_deploy msg =
    header msg_deploy
      (msg.code_hash ++ (to_be_32 msg.code_length ++ (msg.chunk_count ∷ to_be_16 msg.output_index)))

unfoldable pub encode_call : CallMessage → Bytes
encode_call msg =
    let input_len = length msg.input % 2 ^ 16 in
    header msg_call (msg.contract_id ++ (to_be_16 msg.opcode ++ (to_be_16 input_len ++ msg.input)))

unfoldable pub encode_call_carrier : CallCarrierMessage → Bytes
encode_call_carrier msg = header msg_call_carrier (
    msg.contract_id
    ++ (to_be_16 msg.opcode
        ++ (msg.input_hash ++ (to_be_32 msg.input_length ++ (msg.carrier_count ∷ [])))))

-- The message types' ranges, with the limits that the parser enforces. docs/protocol-v0.md is
-- stricter: it has at most 188 chunks in a DEPLOY, where the parser takes any count of a byte but 0,
-- and more than 38 bytes of input in a CALL_CARRIER, where the parser takes any length from 1 on.
pub record DeployIsValid (m : DeployMessage) : Type 0 where
  pub hash : Is32 m.code_hash
  pub length_pos : 0 < m.code_length
  pub length_max : m.code_length ≤ max_code_bytes
  pub count_pos : 0 < m.chunk_count
  pub count_byte : m.chunk_count < 256
  pub index_word : m.output_index < 65536

pub record CallIsValid (m : CallMessage) : Type 0 where
  pub id : Is32 m.contract_id
  pub opcode_word : m.opcode < 65536
  pub input_max : length m.input ≤ max_call_inline_bytes
  pub input_bytes : All IsByte m.input

pub record CallCarrierIsValid (m : CallCarrierMessage) : Type 0 where
  pub id : Is32 m.contract_id
  pub opcode_word : m.opcode < 65536
  pub hash : Is32 m.input_hash
  pub length_pos : 0 < m.input_length
  pub length_max : m.input_length ≤ max_call_input_bytes
  pub count_pos : 0 < m.carrier_count
  pub count_max : m.carrier_count ≤ max_call_carrier_chunks

abbrev pub IsValid : Message → Type 0
IsValid (deploy m) = DeployIsValid m
IsValid (call m) = CallIsValid m
IsValid (call_carrier m) = CallCarrierIsValid m

abbrev pub encode : Message → Bytes
encode (deploy m) = encode_deploy m
encode (call m) = encode_call m
encode (call_carrier m) = encode_call_carrier m
