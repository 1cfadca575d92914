-- ===== src/Wallet/Plan.antt =====
-- `commit_plan` of crates/zalkanes-wallet/src/plan.rs: the bytes of a plan commitment, and their hash.
-- SHA-256 and the hex encoding are parameters. The arguments of the function are a record.
pub mod Encoding
pub mod Elements
pub mod Injective
mod Tests
use Prim.Native.String.{String}
use zalkanes.Base.{ℕ, zero, suc, ◌/◌, ◌%◌, Option, none, some, List, [], ◌∷◌, ◌++◌, length}
use zalkanes.Base.Bytes.{Bytes}
use zalkanes.Core.{BlockHeight, BlockHash, TxId}

pub record PlanInput : Type 0 where
  pub pool : ℕ
  pub txid : TxId
  pub output_index : ℕ
  pub value : ℕ

pub record PlanOutput : Type 0 where
  pub value : ℕ
  pub script : Bytes

pub record PlanAnchor : Type 0 where
  pub pool : ℕ
  pub height : BlockHeight
  pub root : Bytes

pub record PlanChange : Type 0 where
  pub value : ℕ
  pub pool : ℕ
  pub destination_bytes : Bytes

-- The arguments of `commit_plan`.
pub record Commitment : Type 0 where
  pub network_id : ℕ
  pub protocol_version : ℕ
  pub pool : ℕ
  pub chain_tip_height : BlockHeight
  pub chain_tip_hash : BlockHash
  pub target_height : BlockHeight
  pub branch_id : ℕ
  pub tx_version : ℕ
  pub expiry_height : BlockHeight
  pub inputs : List PlanInput
  pub anchors : List PlanAnchor
  pub transparent_outputs : List PlanOutput
  pub shielded_change : Option PlanChange
  pub fee : ℕ
  pub zalk_payload : Bytes
  pub kind : ℕ

-- `to_le_bytes` of an integer of so many bytes, which cuts it to them.
abbrev pub to_le : ℕ → ℕ → Bytes
to_le zero n = []
to_le (suc k) n = (n % 256) ∷ to_le k (n / 256)

-- A byte string behind its length, cut to 16 bits.
unfoldable pub counted : Bytes → Bytes
counted bytes = to_le 2 (length bytes) ++ bytes

unfoldable pub input_bytes : PlanInput → Bytes
input_bytes i = (i.pool ∷ []) ++ (i.txid ++ (to_le 4 i.output_index ++ to_le 8 i.value))

unfoldable pub anchor_bytes : PlanAnchor → Bytes
anchor_bytes a = (a.pool ∷ []) ++ (to_le 4 a.height ++ a.root)

unfoldable pub output_bytes : PlanOutput → Bytes
output_bytes o = to_le 8 o.value ++ counted o.script

-- The loop over a list.
unfoldable pub each : {A : Type 0} → (A → Bytes) → List A → Bytes
each f [] = []
each f (x ∷ xs) = f x ++ each f xs

-- A list behind its length, cut to 16 bits.
unfoldable pub listed : {A : Type 0} → (A → Bytes) → List A → Bytes
listed f xs = to_le 2 (length xs) ++ each f xs

unfoldable pub change_bytes : Option PlanChange → Bytes
change_bytes none = 0 ∷ []
change_bytes (some c) =
    (1 ∷ []) ++ (to_le 8 c.value ++ ((c.pool ∷ []) ++ counted c.destination_bytes))

abbrev pub domain : Bytes
domain =
    b'Z' ∷ b'A' ∷ b'L' ∷ b'K' ∷ b'A' ∷ b'N' ∷ b'E' ∷ b'S' ∷ b'_' ∷ b'F' ∷ b'U' ∷ b'N' ∷ b'D' ∷ b'I'
    ∷ b'N' ∷ b'G' ∷ b'_' ∷ b'P' ∷ b'L' ∷ b'A' ∷ b'N' ∷ b'_' ∷ b'V' ∷ b'1' ∷ 0x00 ∷ []

unfoldable pub commit_bytes : Commitment → Bytes
commit_bytes c =
    domain
    ++ ((c.network_id ∷ [])
        ++ ((c.protocol_version ∷ [])
            ++ ((c.pool ∷ [])
                ++ (to_le 4 c.chain_tip_height
                    ++ (c.chain_tip_hash
                        ++ (to_le 4 c.target_height
                            ++ (to_le 4 c.branch_id
                                ++ ((c.tx_version ∷ [])
                                    ++ (to_le 4 c.expiry_height
                                        ++ (listed input_bytes c.inputs
                                            ++ (listed anchor_bytes c.anchors
                                                ++ (listed output_bytes c.transparent_outputs
                                                    ++ (change_bytes c.shielded_change
                                                        ++ (to_le 8 c.fee
                                                            ++ (counted c.zalk_payload
                                                            ++ (c.kind ∷ []))))))))))))))))

unfoldable pub commit_plan : (Bytes → Bytes) → (Bytes → String) → Commitment → String
commit_plan sha256 hex c = hex (sha256 (commit_bytes c))
