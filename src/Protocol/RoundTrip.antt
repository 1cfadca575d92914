-- ===== src/Protocol/RoundTrip.antt =====
-- Decoding after encoding, for crates/zalkanes-protocol/src/lib.rs.
use zalkanes.Base.{
  ℕ, zero, suc, ◌+◌, ◌≡◌, refl, sym, ap, ◌∙◌, some, [], ◌∷◌, ◌++◌, length, drop, get_or,
  get_or-drop, take-append, drop-append, length-append, ok, arith, ◌%◌, ◌^◌,
}
use zalkanes.Base.Bytes.{Bytes, to_be_16, to_be_32}
use zalkanes.Base.Order.{bytes_order, cmp_bytes}
use zalkanes.Protocol.{
  DeployMessage, CallMessage, CallCarrierMessage, Message, deploy, call, call_carrier,
  DeployIsValid, CallIsValid, CallCarrierIsValid, IsValid, parse_deploy, parse_call,
  parse_call_carrier, parse_body, parse_op_return, encode_deploy, encode_call, encode_call_carrier,
  encode, header,
}

-- An index behind a front of known length.
get_or-append :
    (n k : ℕ) (xs ys : Bytes) → length xs ≡ n → get_or (xs ++ ys) (n + k) 0 ≡ get_or ys k 0
get_or-append n k xs ys h =
    sym (get_or-drop n k (xs ++ ys) 0) ∙ ap (λ t. get_or t k 0) (drop-append n xs ys h)

drop_behind : (n k : ℕ) (xs ys : Bytes) → length xs ≡ n → drop (n + k) (xs ++ ys) ≡ drop k ys
drop_behind zero k [] ys h = let e : zero + k ≡ k = omega arith in rw e refl
drop_behind zero k (x ∷ xs) ys h = absurd (omega arith)
drop_behind (suc n) k [] ys h = absurd (omega arith)
drop_behind (suc n) k (x ∷ xs) ys h =
    let e : suc n + k ≡ suc (n + k) = omega arith in rw e (drop_behind n k xs ys (omega arith))

pub parse_op_return-header :
    (t : ℕ) (body : Bytes) → parse_op_return (header t body) ≡ parse_body t body
unfolding parse_op_return cmp_bytes
parse_op_return-header t body = ground arith

parse_deploy_lem :
    (m : DeployMessage)
    → DeployIsValid m
    → parse_deploy
        (m.code_hash ++ (to_be_32 m.code_length ++ (m.chunk_count ∷ to_be_16 m.output_index)))
      ≡ ok m
unfolding parse_deploy
parse_deploy_lem m v =
    let h = m.code_hash in
    let e = v.hash.0 in
    let t : Bytes = to_be_32 m.code_length ++ (m.chunk_count ∷ to_be_16 m.output_index) in
    ground (
      arith,
      length-append h t,
      take-append 32 h t e,
      get_or-append 32 0 h t e,
      get_or-append 32 1 h t e,
      get_or-append 32 2 h t e,
      get_or-append 32 3 h t e,
      get_or-append 32 4 h t e,
      get_or-append 32 5 h t e,
      get_or-append 32 6 h t e,
    )

pub parse-encode_deploy :
    (m : DeployMessage) → DeployIsValid m → parse_op_return (encode_deploy m) ≡ ok (some (deploy m))
unfolding encode_deploy parse_body
parse-encode_deploy m v = parse_op_return-header _ _ ∙ rw (parse_deploy_lem m v)

parse_call_lem :
    (m : CallMessage)
    → CallIsValid m
    → parse_call
        (m.contract_id ++ (to_be_16 m.opcode ++ (to_be_16 (length m.input % 2 ^ 16) ++ m.input)))
      ≡ ok m
unfolding parse_call
parse_call_lem m v =
    let h = m.contract_id in
    let e = v.id.0 in
    let t : Bytes = to_be_16 m.opcode ++ (to_be_16 (length m.input % 2 ^ 16) ++ m.input) in
    ground (
      arith,
      length-append h t,
      take-append 32 h t e,
      drop_behind 32 4 h t e,
      get_or-append 32 0 h t e,
      get_or-append 32 1 h t e,
      get_or-append 32 2 h t e,
      get_or-append 32 3 h t e,
    )

pub parse-encode_call :
    (m : CallMessage) → CallIsValid m → parse_op_return (encode_call m) ≡ ok (some (call m))
unfolding encode_call parse_body
parse-encode_call m v = parse_op_return-header _ _ ∙ rw (parse_call_lem m v)

parse_call_carrier_lem :
    (m : CallCarrierMessage)
    → CallCarrierIsValid m
    → parse_call_carrier (
        m.contract_id
        ++ (to_be_16 m.opcode
            ++ (m.input_hash ++ (to_be_32 m.input_length ++ (m.carrier_count ∷ [])))))
      ≡ ok m
unfolding parse_call_carrier
parse_call_carrier_lem m v =
    let h = m.contract_id in
    let e = v.id.0 in
    let g = m.input_hash in
    let w : Bytes = to_be_32 m.input_length ++ (m.carrier_count ∷ []) in
    let t : Bytes = to_be_16 m.opcode ++ (g ++ w) in
    ground (
      arith,
      length-append h t,
      length-append g w,
      take-append 32 h t e,
      drop_behind 32 2 h t e,
      take-append 32 g w v.hash.0,
      get_or-append 32 0 h t e,
      get_or-append 32 1 h t e,
      get_or-append 32 34 h t e,
      get_or-append 32 35 h t e,
      get_or-append 32 36 h t e,
      get_or-append 32 37 h t e,
      get_or-append 32 38 h t e,
      get_or-append 32 0 g w v.hash.0,
      get_or-append 32 1 g w v.hash.0,
      get_or-append 32 2 g w v.hash.0,
      get_or-append 32 3 g w v.hash.0,
      get_or-append 32 4 g w v.hash.0,
    )

pub parse-encode_call_carrier :
    (m : CallCarrierMessage)
    → CallCarrierIsValid m
    → parse_op_return (encode_call_carrier m) ≡ ok (some (call_carrier m))
unfolding encode_call_carrier parse_body
parse-encode_call_carrier m v = parse_op_return-header _ _ ∙ rw (parse_call_carrier_lem m v)

-- Parsing the encoding of any message within the limits that the parser checks returns that message:
-- a DEPLOY of 1 to 262144 bytes in 1 to 255 chunks, a CALL with at most 38 bytes of input, and a
-- CALL_CARRIER of 1 to 65536 bytes in 1 to 47 chunks, with the field widths of the format.
pub parse_op_return-encode : (m : Message) → IsValid m → parse_op_return (encode m) ≡ ok (some m)
parse_op_return-encode (deploy m) v = parse-encode_deploy m v
parse_op_return-encode (call m) v = parse-encode_call m v
parse_op_return-encode (call_carrier m) v = parse-encode_call_carrier m v
