-- ===== src/Wallet/Funding.antt =====
-- crates/zalkanes-wallet/src/funding.rs, policy.rs and transparent.rs: requests, the context of a
-- plan, the pools and policies by name, and the plan of a transparent source up to its transaction.
pub mod Balanced
mod Tests
use Prim.Native.String.{String}
use zalkanes.Base.{
  ℕ, ◌+◌, ◌%◌, ◌==◌, leb, not, Bool, Option, none, some, List, [], ◌∷◌, map, Result, ok, err,
  and_then, if◌then◌else◌,
}
use zalkanes.Base.Bytes.{Bytes}
use zalkanes.Base.Text.{text_eq}
use zalkanes.Core.{Network, BlockHeight}
use zalkanes.Tx.Plan.{SigningKey, PreparedTx, PlanError, prepare_plan, deploy_plan, call_plan}
use zalkanes.Wallet.Broadcast.{CanonicalTip}

pub data TxRequest (O : Type 0) : Type 0 where
  prepare : List ℕ → TxRequest O
  deploy : List Bytes → List O → List ℕ → Bytes → TxRequest O
  call : Bytes → TxRequest O

-- `TxRequest::kind`
unfoldable pub kind_of : {O : Type 0} → TxRequest O → String
kind_of (prepare _) = "prepare"
kind_of (deploy _ _ _ _) = "deploy"
kind_of (call _) = "call"

unfoldable pub op_return_payload : {O : Type 0} → TxRequest O → Option Bytes
op_return_payload (prepare _) = none
op_return_payload (deploy _ _ _ op_return) = some op_return
op_return_payload (call op_return) = some op_return

-- `TxRequest::opcode`
unfoldable pub opcode_of : {O : Type 0} → TxRequest O → Option ℕ
opcode_of r = elim (op_return_payload r) [ none ↦ none | some bytes ↦ first bytes ]
  where
    first : Bytes → Option ℕ
    first [] = none
    first (b ∷ bs) = some b

pub record FundContext : Type 0 where
  pub network : Network
  pub chain_tip : CanonicalTip
  pub target_height : BlockHeight

-- `FundContext::new`
unfoldable pub new_context : Network → CanonicalTip → FundContext
new_context network chain_tip = record {
  network = network;
  chain_tip = chain_tip;
  target_height = (chain_tip.height + 1) % 4294967296;
}

-- Why a plan is refused before its transaction is planned, or by the transaction's plan.
pub data FundingError : Type 0 where
  wrong_target no_utxos no_call_utxo no_outputs : FundingError
  in_plan : PlanError → FundingError

unfoldable pub validate : FundContext → Result {0, 0} Unit FundingError
validate ctx =
    if not (ctx.target_height == (ctx.chain_tip.height + 1) % 4294967296)
    then err wrong_target
    else ok tt

pub data FundingPool : Type 0 where
  transparent shielded auto : FundingPool

-- `FundingPool::as_str`
unfoldable pub pool_text : FundingPool → String
pool_text transparent = "transparent"
pool_text shielded = "shielded"
pool_text auto = "auto"

-- `FundingPool::from_str`
unfoldable pub pool_of : String → Result FundingPool String
pool_of s =
    if text_eq s "transparent"
    then ok transparent
    else if text_eq s "shielded"
    then ok shielded
    else if text_eq s "auto"
    then ok auto
    else err s

pub data PrivacyPolicy : Type 0 where
  full_privacy allow_revealed_amounts allow_revealed_recipients : PrivacyPolicy
  allow_revealed_senders allow_fully_transparent : PrivacyPolicy
  allow_linking_account_addresses no_privacy : PrivacyPolicy

-- `PrivacyPolicy::as_str`
unfoldable pub policy_text : PrivacyPolicy → String
policy_text full_privacy = "FullPrivacy"
policy_text allow_revealed_amounts = "AllowRevealedAmounts"
policy_text allow_revealed_recipients = "AllowRevealedRecipients"
policy_text allow_revealed_senders = "AllowRevealedSenders"
policy_text allow_fully_transparent = "AllowFullyTransparent"
policy_text allow_linking_account_addresses = "AllowLinkingAccountAddresses"
policy_text no_privacy = "NoPrivacy"

-- The position, which the derived order compares.
unfoldable pub policy_rank : PrivacyPolicy → ℕ
policy_rank full_privacy = 0
policy_rank allow_revealed_amounts = 1
policy_rank allow_revealed_recipients = 2
policy_rank allow_revealed_senders = 3
policy_rank allow_fully_transparent = 4
policy_rank allow_linking_account_addresses = 5
policy_rank no_privacy = 6

unfoldable pub permits : PrivacyPolicy → PrivacyPolicy → Bool
permits policy required = leb (policy_rank required) (policy_rank policy)

-- `PrivacyPolicy::from_str`
unfoldable pub policy_of : String → Result PrivacyPolicy String
policy_of s =
    if text_eq s "FullPrivacy"
    then ok full_privacy
    else if text_eq s "AllowRevealedAmounts"
    then ok allow_revealed_amounts
    else if text_eq s "AllowRevealedRecipients"
    then ok allow_revealed_recipients
    else if text_eq s "AllowRevealedSenders"
    then ok allow_revealed_senders
    else if text_eq s "AllowFullyTransparent"
    then ok allow_fully_transparent
    else if text_eq s "AllowLinkingAccountAddresses"
    then ok allow_linking_account_addresses
    else if text_eq s "NoPrivacy"
    then ok no_privacy
    else err s

-- `FundingUtxo`
pub record FundingUtxo (O : Type 0) : Type 0 where
  pub outpoint : O
  pub value : ℕ

pub record TransparentFunding (O : Type 0) : Type 0 where
  pub key : SigningKey
  pub utxos : List (FundingUtxo O)

unfoldable pub outpoints_and_values : {O : Type 0} → TransparentFunding O → List (O × ℕ)
outpoints_and_values source = map (λ u. (u.outpoint, u.value)) source.utxos

abbrev pub lift_plan :
    {O : Type 0} → Result (PreparedTx O) PlanError → Result (PreparedTx O) FundingError
lift_plan (ok p) = ok p
lift_plan (err e) = err (in_plan e)

module _ (hash160 : Bytes → Bytes) (O : Type 0) where
  -- The first outpoint pays for a CALL.
  unfoldable pub call_from :
      SigningKey → List (FundingUtxo O) → Bytes → Result (PreparedTx O) FundingError
  call_from key [] op_return = err no_call_utxo
  call_from key (u ∷ us) op_return =
      lift_plan (call_plan hash160 O key u.outpoint u.value op_return)

  unfoldable pub build_plan :
      TransparentFunding O → TxRequest O → Result (PreparedTx O) FundingError
  build_plan source (prepare []) = err no_outputs
  build_plan source (prepare (v ∷ vs)) =
      lift_plan (prepare_plan hash160 O source.key (outpoints_and_values source) (v ∷ vs))
  build_plan source (deploy chunks carrier_outpoints carrier_values op_return) =
      lift_plan (deploy_plan hash160 O source.key carrier_outpoints carrier_values chunks op_return)
  build_plan source (call op_return) = call_from source.key source.utxos op_return

  abbrev pub unless_empty :
      List (FundingUtxo O) → Result (PreparedTx O) FundingError → Result (PreparedTx O) FundingError
  unless_empty [] r = err no_utxos
  unless_empty (u ∷ us) r = r

  -- `TransparentFunding::plan`, up to the transaction.
  unfoldable pub plan :
      TransparentFunding O → TxRequest O → FundContext → Result (PreparedTx O) FundingError
  plan source request ctx =
      and_then (validate ctx) λ _. unless_empty source.utxos (build_plan source request)
