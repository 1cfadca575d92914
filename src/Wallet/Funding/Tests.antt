-- ===== src/Wallet/Funding/Tests.antt =====
-- A CALL from one outpoint, and the theorem on transparent plans at it.
use zalkanes.Base.{ℕ, ◌≡◌, refl, [], ◌∷◌, ok, arith, replicate}
use zalkanes.Base.Bytes.{Bytes}
use zalkanes.Core.{regtest}
use zalkanes.Tx.{zip317_fee_from_sizes, div_ceil, op_return_script, push_data, p2pkh_script_pubkey}
use zalkanes.Tx.Plan.{
  PreparedTx, p2pkh, sum, call_plan, called, call_fee, sub_or_small, checked_sub,
  input_serialized_size, output_serialized_size, serialized_script_size, p2pkh_script_sig_len,
}
use zalkanes.Tx.Plan.Balanced.{Balanced}
use zalkanes.Wallet.Funding.{
  call, FundContext, TransparentFunding, outpoints_and_values, validate, build_plan, call_from,
  plan,
}
use zalkanes.Wallet.Funding.Balanced.{plan-Balanced}

abbrev toy_hash160 : Bytes → Bytes
toy_hash160 _ = replicate 20 3

abbrev source : TransparentFunding ℕ
source = record {
  key = record { secret = []; compressed_pubkey = 2 ∷ [] };
  utxos = record { outpoint = 0; value = 50000 } ∷ [];
}

abbrev context : FundContext
context = record {
  network = regtest;
  chain_tip = record { height = 9; hash = [] };
  target_height = 10;
}

abbrev script : Bytes
script =
    0x76 ∷ 0xa9 ∷ 0x14 ∷ 3 ∷ 3 ∷ 3 ∷ 3 ∷ 3 ∷ 3 ∷ 3 ∷ 3 ∷ 3 ∷ 3 ∷ 3 ∷ 3 ∷ 3 ∷ 3 ∷ 3 ∷ 3 ∷ 3 ∷ 3 ∷ 3
    ∷ 3 ∷ 0x88 ∷ 0xac ∷ []

abbrev prepared : PreparedTx ℕ
prepared = record {
  inputs =
      record {
        outpoint = 0;
        value = 50000;
        script_pubkey = script;
        script_code = script;
        kind = p2pkh source.key;
      }
      ∷ [];
  outputs =
      record { value = 0; script_pubkey = 0x6a ∷ 1 ∷ 7 ∷ [] }
      ∷ record { value = 40000; script_pubkey = script }
      ∷ [];
  fee = 10000;
  change = 40000;
  selected_value = 50000;
}

plans : plan toy_hash160 ℕ source (call (7 ∷ [])) context ≡ ok prepared
unfolding plan validate build_plan call_from call_plan called call_fee sub_or_small checked_sub
    zip317_fee_from_sizes div_ceil input_serialized_size output_serialized_size
    serialized_script_size p2pkh_script_sig_len op_return_script push_data p2pkh_script_pubkey
plans = refl

plan-Balanced_example : Balanced toy_hash160 ℕ prepared
unfolding sum outpoints_and_values
plan-Balanced_example =
    plan-Balanced toy_hash160 ℕ source (call (7 ∷ [])) context prepared (omega arith) (omega arith)
      plans
