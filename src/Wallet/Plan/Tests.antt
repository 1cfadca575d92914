-- ===== src/Wallet/Plan/Tests.antt =====
-- A small plan, its commitment, and the theorem on commitments at it.
use zalkanes.Base.{◌≡◌, ◌*◌, refl, arith, some, [], ◌∷◌, length, replicate}
use zalkanes.Wallet.Plan.{
  Commitment, commit_bytes, listed, counted, each, input_bytes, anchor_bytes, output_bytes,
  change_bytes,
}
use zalkanes.Wallet.Plan.Injective.{IsWithin, commit_bytes-injective}

abbrev small : Commitment
small = record {
  network_id = 3;
  protocol_version = 0;
  pool = 0;
  chain_tip_height = 9;
  chain_tip_hash = replicate 32 1;
  target_height = 10;
  branch_id = 7;
  tx_version = 5;
  expiry_height = 0;
  inputs = record { pool = 0; txid = replicate 32 2; output_index = 1; value = 50000 } ∷ [];
  anchors = [];
  transparent_outputs = record { value = 40000; script = 6 ∷ [] } ∷ [];
  shielded_change = some record { value = 1; pool = 2; destination_bytes = 8 ∷ [] };
  fee = 10000;
  zalk_payload = 4 ∷ 5 ∷ [];
  kind = 2;
}

commits : length (commit_bytes small) ≡ 165
unfolding commit_bytes listed counted each input_bytes anchor_bytes output_bytes change_bytes
commits = refl

within : IsWithin small
within = record {
  tip_height = omega arith;
  tip_hash = refl;
  target = omega arith;
  branch = omega arith;
  expiry = omega arith;
  inputs = (omega arith, ((refl, omega arith, omega arith), tt));
  anchors = (omega arith, tt);
  outputs = (omega arith, ((omega arith, omega arith), tt));
  change = (omega arith, omega arith);
  fee = omega arith;
  payload = omega arith;
}

-- The same plan, its fee worked out from the marginal fee.
abbrev again : Commitment
again = record small { fee = 2 * 5000 }

commit_bytes-injective_example : small ≡ again
commit_bytes-injective_example = commit_bytes-injective small again within within refl
