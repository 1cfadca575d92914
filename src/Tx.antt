-- ===== src/Tx.antt =====
-- crates/zalkanes-tx/src/lib.rs: the script builders, sizes and fees (here) and the transaction
-- plans (`Plan`). Signing and serialization, which call the Zcash libraries, are not modelled.
-- HASH160 is the parameter `hash160`.
pub mod ScriptRoundTrip
pub mod Sizes
pub mod Carried
pub mod Plan
mod Tests
use zalkanes.Base.{
  ℕ, zero, suc, ◌+◌, ◌*◌, ◌-◌, ◌/◌, ◌%◌, ◌^◌, Bool, true, false, ◌||◌, Option, none, some, List, [],
  ◌∷◌, ◌++◌, ltb, leb, ◌==◌, if◌then◌else◌, min, max, length, map,
}
use zalkanes.Base.Bytes.{Bytes}
use zalkanes.Carrier.{chunks_of}
use zalkanes.Carrier.Script.{concat}
use zalkanes.Core.{max_code_bytes, max_chunks}

abbrev marginal_fee : ℕ
marginal_fee = 5000

abbrev grace_actions : ℕ
grace_actions = 2

unfoldable pub div_ceil : ℕ → ℕ → ℕ
div_ceil a b = (a + (b - 1)) / b

unfoldable pub zip317_fee : ℕ → ℕ → ℕ
zip317_fee inputs outputs = marginal_fee * max (max inputs outputs) grace_actions

unfoldable pub zip317_fee_from_sizes : ℕ → ℕ → ℕ
unfolding div_ceil
zip317_fee_from_sizes total_input_bytes total_output_bytes =
    let in_actions = div_ceil total_input_bytes 150 in
    let out_actions = div_ceil total_output_bytes 34 in
    marginal_fee * max (max in_actions out_actions) grace_actions

abbrev pub max_push_size : ℕ
max_push_size = 520

abbrev pub max_standard_scriptsig_size : ℕ
max_standard_scriptsig_size = 1650

unfoldable pub redeem_script : Bytes → Bytes
redeem_script pubkey = (0x21 ∷ pubkey) ++ (0xac ∷ 0x61 ∷ [])

abbrev pub redeem_script_len : ℕ
redeem_script_len = 36

abbrev pub max_signature_len : ℕ
max_signature_len = 73

unfoldable pub push_overhead : ℕ → ℕ
push_overhead len = if leb len 75 then 1 else if leb len 255 then 2 else 3

unfoldable pub max_standard_carrier_payload : ℕ → ℕ → ℕ
unfolding push_overhead
max_standard_carrier_payload signature_len redeem_len =
    let fixed = 2 + (1 + signature_len) + (push_overhead redeem_len + redeem_len) in
    let remaining = max_standard_scriptsig_size - fixed in
    remaining / (max_push_size + 3) * max_push_size + (remaining % (max_push_size + 3) - 3)

abbrev pub chunk_payload_size : ℕ
chunk_payload_size = 1400

-- `none` is the refusal of the length or of the number of chunks. `as u32` cuts to 32 bits.
unfoldable pub carrier_input_count : ℕ → Option ℕ
unfolding div_ceil
carrier_input_count wasm_len =
    let n = div_ceil wasm_len chunk_payload_size in
    if wasm_len == 0 || ltb max_code_bytes (wasm_len % 2 ^ 32)
    then none
    else if ltb max_chunks n
    then none
    else some (n % 2 ^ 8)

unfoldable pub push_data : Bytes → Bytes
push_data bytes =
    let n = length bytes in
    if ltb n 0x4c
    then (n % 2 ^ 8) ∷ bytes
    else if leb n 0xff
    then 0x4c ∷ (n % 2 ^ 8) ∷ bytes
    else 0x4d ∷ (n % 2 ^ 8) ∷ (n / 256 % 2 ^ 8) ∷ bytes

unfoldable pub p2pkh_script_pubkey : (Bytes → Bytes) → Bytes → Bytes
p2pkh_script_pubkey hash160 pubkey = 0x76 ∷ 0xa9 ∷ 0x14 ∷ (hash160 pubkey ++ (0x88 ∷ 0xac ∷ []))

unfoldable pub p2sh_script_pubkey : (Bytes → Bytes) → Bytes → Bytes
p2sh_script_pubkey hash160 redeem = 0xa9 ∷ 0x14 ∷ (hash160 redeem ++ (0x87 ∷ []))

unfoldable pub op_return_script : Bytes → Bytes
op_return_script payload = 0x6a ∷ push_data payload

-- The pushes of a list of byte strings, one after the other.
unfoldable pub push_all : List Bytes → Bytes
push_all parts = concat (map push_data parts)

unfoldable pub carrier_script_sig : ℕ → Bytes → Bytes → Bytes → Bytes
carrier_script_sig chunk_index chunk_data signature redeem =
    push_data (chunk_index ∷ [])
    ++ (push_all (chunks_of max_push_size chunk_data) ++ (push_data signature ++ push_data redeem))

unfoldable pub p2pkh_script_sig : Bytes → Bytes → Bytes
p2pkh_script_sig signature pubkey = push_data signature ++ push_data pubkey

unfoldable pub split_chunks : Bytes → Option (List Bytes)
split_chunks wasm = elim (carrier_input_count (length wasm)) [
  | none ↦ none
  | some n ↦ some (chunks_of chunk_payload_size wasm)
]
