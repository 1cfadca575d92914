-- ===== src/Tx/Plan.antt =====
-- The transaction plans of crates/zalkanes-tx/src/lib.rs: inputs, outputs, fee and change, before
-- anything is signed. Outpoints, which a plan only passes on, are a parameter. Values are 64-bit words,
-- whose sums wrap as the release build computes them.
pub mod Balanced
pub mod Covered
use zalkanes.Base.{
  ℕ, zero, suc, ◌+◌, ◌-◌, ◌%◌, ◌^◌, Option, none, some, List, [], ◌∷◌, ◌++◌, ltb, leb, ◌==◌, not,
  ◌||◌, if◌then◌else◌, min, length, map, Result, ok, err, and_then,
}
use zalkanes.Base.Bytes.{Bytes}
use zalkanes.Tx.{
  zip317_fee_from_sizes, push_overhead, max_push_size, max_signature_len, redeem_script_len,
  redeem_script, p2sh_script_pubkey, p2pkh_script_pubkey, op_return_script,
}

-- `SigningKey`, by its secret and its compressed public key.
pub record SigningKey : Type 0 where
  pub secret : Bytes
  pub compressed_pubkey : Bytes

pub data SpendKind : Type 0 where
  p2pkh : SigningKey → SpendKind
  carrier : SigningKey → ℕ → Bytes → Bytes → SpendKind

pub record SpendInput (O : Type 0) : Type 0 where
  pub outpoint : O
  pub value : ℕ
  pub script_pubkey : Bytes
  pub script_code : Bytes
  pub kind : SpendKind

pub record SpendOutput : Type 0 where
  pub value : ℕ
  pub script_pubkey : Bytes

pub record PreparedTx (O : Type 0) : Type 0 where
  pub inputs : List (SpendInput O)
  pub outputs : List SpendOutput
  pub fee : ℕ
  pub change : ℕ
  pub selected_value : ℕ

pub data PlanError : Type 0 where
  no_funding no_carriers length_mismatch too_small : PlanError

unfoldable pub serialized_script_size : ℕ → ℕ
serialized_script_size len =
    let compact = if ltb len 0xfd then 1 else if leb len 0xffff then 3 else 5 in compact + len

unfoldable pub input_serialized_size : ℕ → ℕ
input_serialized_size script_sig_len = 36 + serialized_script_size script_sig_len + 4

unfoldable pub output_serialized_size : ℕ → ℕ
output_serialized_size script_pubkey_len = 8 + serialized_script_size script_pubkey_len

unfoldable pub p2pkh_script_sig_len : ℕ
p2pkh_script_sig_len = 1 + max_signature_len + (1 + 33)

-- The loop of `carrier_script_sig_len`; each round takes at least one of what remains.
unfoldable pub pushes_len : ℕ → ℕ → ℕ
pushes_len zero remaining = 0
pushes_len (suc fuel) remaining =
    let part = min remaining max_push_size in
    let rest = pushes_len fuel (remaining - part) in
    if remaining == 0 then 0 else push_overhead part + part + rest

unfoldable pub carrier_script_sig_len : ℕ → ℕ
carrier_script_sig_len chunk_len =
    2
    + pushes_len chunk_len chunk_len
    + (1 + max_signature_len)
    + (push_overhead redeem_script_len + redeem_script_len)

-- `iter().sum()` of sizes, and of 64-bit values.
unfoldable pub sum : List ℕ → ℕ
sum [] = 0
sum (x ∷ xs) = x + sum xs

unfoldable pub sum_u64 : List ℕ → ℕ
sum_u64 xs = sum xs % 18446744073709551616

-- `checked_sub`
unfoldable pub checked_sub : ℕ → ℕ → Option ℕ
checked_sub a b = if leb b a then some (a - b) else none

-- `checked_sub` with its error.
unfoldable pub sub_or_small : ℕ → ℕ → Result ℕ PlanError
sub_or_small a b = elim (checked_sub a b) [ none ↦ err too_small | some v ↦ ok v ]

-- The change output, when there is change.
unfoldable pub change_output : ℕ → Bytes → List SpendOutput
change_output change script =
    if ltb 0 change then (record { value = change; script_pubkey = script }) ∷ [] else []

module _ (hash160 : Bytes → Bytes) (O : Type 0) where
  abbrev pub funding_script : SigningKey → Bytes
  funding_script key = p2pkh_script_pubkey hash160 key.compressed_pubkey

  abbrev pub carrier_script : SigningKey → Bytes
  carrier_script key = p2sh_script_pubkey hash160 (redeem_script key.compressed_pubkey)

  abbrev pub funding_input : SigningKey → O × ℕ → SpendInput O
  funding_input key (outpoint, value) = record {
    outpoint = outpoint;
    value = value;
    script_pubkey = funding_script key;
    script_code = funding_script key;
    kind = p2pkh key;
  }

  abbrev pub carrier_output : SigningKey → ℕ → SpendOutput
  carrier_output key v = record { value = v; script_pubkey = carrier_script key }

  -- The sizes that the fee of a PREPARE is computed from.
  unfoldable pub prepare_fee : SigningKey → List (O × ℕ) → List ℕ → ℕ
  prepare_fee key funding_utxos carrier_values =
      zip317_fee_from_sizes
        (sum (map (λ _. input_serialized_size p2pkh_script_sig_len) funding_utxos))
        (sum (map (λ _. output_serialized_size (length (carrier_script key))) carrier_values)
          + output_serialized_size (length (funding_script key)))

  unfoldable pub prepared : SigningKey → List (O × ℕ) → List ℕ → ℕ → Result (PreparedTx O) PlanError
  prepared key funding_utxos carrier_values fee =
      let funding_total = sum_u64 (map (λ u. u.1) funding_utxos) in
      and_then (sub_or_small funding_total (sum_u64 carrier_values)) λ v.
        and_then (sub_or_small v fee) λ change. ok record {
          inputs = map (funding_input key) funding_utxos;
          outputs =
              map (carrier_output key) carrier_values ++ change_output change (funding_script key);
          fee = fee;
          change = change;
          selected_value = funding_total;
        }

  unfoldable pub prepare_plan : SigningKey → List (O × ℕ) → List ℕ → Result (PreparedTx O) PlanError
  prepare_plan key [] carrier_values = err no_funding
  prepare_plan key (u ∷ us) [] = err no_carriers
  prepare_plan key (u ∷ us) (v ∷ vs) =
      prepared key (u ∷ us) (v ∷ vs) (prepare_fee key (u ∷ us) (v ∷ vs))

  abbrev pub carrier_input : SigningKey → ℕ → O → ℕ → Bytes → SpendInput O
  carrier_input key i outpoint value chunk = record {
    outpoint = outpoint;
    value = value;
    script_pubkey = carrier_script key;
    script_code = redeem_script key.compressed_pubkey;
    kind = carrier key (i % 2 ^ 8) chunk (redeem_script key.compressed_pubkey);
  }

  -- The loop over the three lists, with `enumerate`; `zip` ends with the shortest.
  unfoldable pub carrier_inputs :
      SigningKey → ℕ → List O → List ℕ → List Bytes → List (SpendInput O)
  carrier_inputs key i (o ∷ os) (v ∷ vs) (c ∷ cs) =
      carrier_input key i o v c ∷ carrier_inputs key (i + 1) os vs cs
  carrier_inputs key i _ _ _ = []

  abbrev pub op_return_output : Bytes → SpendOutput
  op_return_output op_return = record { value = 0; script_pubkey = op_return_script op_return }

  unfoldable pub deploy_fee : SigningKey → List Bytes → Bytes → ℕ
  deploy_fee key chunks op_return =
      zip317_fee_from_sizes
        (sum (map (λ c. input_serialized_size (carrier_script_sig_len (length c))) chunks))
        (output_serialized_size (length (op_return_script op_return))
          + output_serialized_size (length (funding_script key)))

  unfoldable pub deployed :
      SigningKey → List O → List ℕ → List Bytes → Bytes → ℕ → Result (PreparedTx O) PlanError
  deployed key outpoints values chunks op_return fee =
      and_then (sub_or_small (sum_u64 values) fee) λ change. ok record {
        inputs = carrier_inputs key 0 outpoints values chunks;
        outputs = op_return_output op_return ∷ change_output change (funding_script key);
        fee = fee;
        change = change;
        selected_value = sum_u64 values;
      }

  unfoldable pub deploy_plan :
      SigningKey → List O → List ℕ → List Bytes → Bytes → Result (PreparedTx O) PlanError
  deploy_plan key outpoints values chunks op_return =
      if not (length outpoints == length chunks) || not (length outpoints == length values)
      then err length_mismatch
      else deployed key outpoints values chunks op_return (deploy_fee key chunks op_return)

  unfoldable pub call_fee : SigningKey → Bytes → ℕ
  call_fee key op_return = zip317_fee_from_sizes (input_serialized_size p2pkh_script_sig_len) (
      output_serialized_size (length (op_return_script op_return))
      + output_serialized_size (length (funding_script key)))

  unfoldable pub called : SigningKey → O → ℕ → Bytes → ℕ → Result (PreparedTx O) PlanError
  called key outpoint value op_return fee = and_then (sub_or_small value fee) λ change. ok record {
    inputs = funding_input key (outpoint, value) ∷ [];
    outputs =
        op_return_output op_return
        ∷ (record { value = change; script_pubkey = funding_script key })
        ∷ [];
    fee = fee;
    change = change;
    selected_value = value;
  }

  unfoldable pub call_plan : SigningKey → O → ℕ → Bytes → Result (PreparedTx O) PlanError
  call_plan key outpoint value op_return =
      called key outpoint value op_return (call_fee key op_return)
