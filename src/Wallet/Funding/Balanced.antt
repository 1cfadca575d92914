-- ===== src/Wallet/Funding/Balanced.antt =====
-- The value in the plans of a transparent source, of crates/zalkanes-wallet/src/transparent.rs.
use zalkanes.Base.{ℕ, ◌≡◌, ◌<◌, [], ◌∷◌, map, Result, ok, err, and_then-ok, arith, List}
use zalkanes.Base.Bytes.{Bytes}
use zalkanes.Tx.Plan.{PreparedTx, PlanError, sum, SigningKey}
use zalkanes.Tx.Plan.Balanced.{
  Balanced, prepare_plan-Balanced, deploy_plan-Balanced, call_plan-Balanced,
}
use zalkanes.Wallet.Funding.{
  TxRequest, prepare, deploy, call, FundContext, FundingError, FundingUtxo, TransparentFunding,
  outpoints_and_values, lift_plan, call_from, build_plan, unless_empty, validate, plan,
}

module _ (hash160 : Bytes → Bytes) (O : Type 0) where
  -- The values that a request spends or creates besides the source's own.
  abbrev pub requested : TxRequest O → List ℕ
  requested (prepare vs) = vs
  requested (deploy _ _ vs _) = vs
  requested (call _) = []

  lift_plan-ok :
      (m : Result (PreparedTx O) PlanError) (p : PreparedTx O) → lift_plan m ≡ ok p → m ≡ ok p
  lift_plan-ok (ok q) p h = ground arith
  lift_plan-ok (err e) p h = cc

  call_from-Balanced :
      (key : SigningKey) (us : List (FundingUtxo O)) (op_return : Bytes) (p : PreparedTx O)
      → call_from hash160 O key us op_return ≡ ok p
      → Balanced hash160 O p
  unfolding call_from
  call_from-Balanced key [] op_return p h = cc
  call_from-Balanced key (u ∷ us) op_return p h =
      call_plan-Balanced hash160 O key u.outpoint u.value op_return p (lift_plan-ok _ p h)

  build_plan-Balanced :
      (source : TransparentFunding O) (request : TxRequest O) (p : PreparedTx O)
      → sum (map (λ u. u.1) (outpoints_and_values source)) < 18446744073709551616
      → sum (requested request) < 18446744073709551616
      → build_plan hash160 O source request ≡ ok p
      → Balanced hash160 O p
  unfolding build_plan
  build_plan-Balanced source (prepare []) p hu hv h = cc
  build_plan-Balanced source (prepare (v ∷ vs)) p hu hv h =
      prepare_plan-Balanced hash160 O source.key (outpoints_and_values source) (v ∷ vs) p hu hv
        (lift_plan-ok _ p h)
  build_plan-Balanced source (deploy chunks os vs op_return) p hu hv h =
      deploy_plan-Balanced hash160 O source.key os vs chunks op_return p hv (lift_plan-ok _ p h)
  build_plan-Balanced source (call op_return) p hu hv h =
      call_from-Balanced source.key source.utxos op_return p h

  unless_empty-ok :
      (us : List (FundingUtxo O)) (r : Result (PreparedTx O) FundingError) (p : PreparedTx O)
      → unless_empty hash160 O us r ≡ ok p
      → r ≡ ok p
  unless_empty-ok [] r p h = cc
  unless_empty-ok (u ∷ us) r p h = h

  -- Whatever the request, a plan that a transparent source gives conserves value: its inputs are worth
  -- its outputs and its fee, and the selected value is that of the inputs, when neither the funds of
  -- the source nor the values of the request sum to 2^64.
  pub plan-Balanced :
      (source : TransparentFunding O) (request : TxRequest O) (ctx : FundContext) (p : PreparedTx O)
      → sum (map (λ u. u.1) (outpoints_and_values source)) < 18446744073709551616
      → sum (requested request) < 18446744073709551616
      → plan hash160 O source request ctx ≡ ok p
      → Balanced hash160 O p
  unfolding plan
  plan-Balanced source request ctx p hu hv h =
      let (_, _, h') = and_then-ok (validate ctx) _ h in
      build_plan-Balanced source request p hu hv (unless_empty-ok source.utxos _ p h')
