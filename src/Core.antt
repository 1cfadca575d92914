-- ===== src/Core.antt =====
-- crates/zalkanes-core/src/types.rs and consensus.rs: identifiers, records, networks and the
-- consensus constants. The 32-byte arrays are byte strings; `Is32` states their length.
use Prim.Native.String.{String}
use zalkanes.Base.{ℕ, ◌≡◌, Bool, Option, none, some, [], ◌∷◌, ◌++◌, length, All}
use zalkanes.Base.Bytes.{Bytes, IsByte, to_be_16}

abbrev pub Is32 : Bytes → Type 0
Is32 b = (length b ≡ 32) × All IsByte b

abbrev pub ContractId : Type 0
ContractId = Bytes

abbrev pub CodeHash : Type 0
CodeHash = Bytes

abbrev pub TxId : Type 0
TxId = Bytes

abbrev pub BlockHash : Type 0
BlockHash = Bytes

abbrev pub StateRoot : Type 0
StateRoot = Bytes

abbrev pub BlockHeight : Type 0
BlockHeight = ℕ

pub data Network : Type 0 where
  mainnet testnet regtest : Network

-- `Network::id_byte`
unfoldable pub id_byte : Network → ℕ
id_byte mainnet = 0x01
id_byte testnet = 0x02
id_byte regtest = 0x03

abbrev pub contract_id_personalization : Bytes
contract_id_personalization =
    b'Z' ∷ b'a' ∷ b'l' ∷ b'k' ∷ b'C' ∷ b'o' ∷ b'n' ∷ b't' ∷ b'r' ∷ b'a' ∷ b'c' ∷ b't' ∷ b'I' ∷ b'd'
    ∷ b'0' ∷ 0x20 ∷ []

-- The bytes that `ContractId::derive` hashes.
unfoldable pub derive_input : Network → TxId → ℕ → CodeHash → Bytes
unfolding id_byte
derive_input network txid output_index code_hash =
    (id_byte network ∷ []) ++ (txid ++ (to_be_16 output_index ++ code_hash))

-- `ContractId::derive`, over BLAKE2b-256 with a personalization.
unfoldable pub derive : (Bytes → Bytes → Bytes) → Network → TxId → ℕ → CodeHash → ContractId
derive blake2b network txid output_index code_hash =
    blake2b contract_id_personalization (derive_input network txid output_index code_hash)

-- `Execution`
pub record Execution : Type 0 where
  pub txid : TxId
  pub contract_id : ContractId
  pub opcode : ℕ
  pub success : Bool
  pub fuel_used : ℕ
  pub return_data : Bytes
  pub error : Option String
  pub state_root_before : StateRoot
  pub state_root_after : StateRoot
  pub block_height : BlockHeight
  pub block_hash : BlockHash

abbrev pub max_code_bytes : ℕ
max_code_bytes = 262144

abbrev pub max_chunks : ℕ
max_chunks = 188

abbrev pub max_linear_memory_pages : ℕ
max_linear_memory_pages = 256

abbrev pub max_table_elements : ℕ
max_table_elements = 16384

abbrev pub max_globals : ℕ
max_globals = 512

abbrev pub max_functions : ℕ
max_functions = 4096

abbrev pub max_imports : ℕ
max_imports = 64

abbrev pub max_exports : ℕ
max_exports = 64

abbrev pub max_fuel_per_call : ℕ
max_fuel_per_call = 10000000

abbrev pub max_fuel_per_zcash_tx : ℕ
max_fuel_per_zcash_tx = 100000000

abbrev pub max_fuel_per_zcash_block : ℕ
max_fuel_per_zcash_block = 1000000000

abbrev pub max_call_depth : ℕ
max_call_depth = 16

abbrev pub max_zalk_messages_per_tx : ℕ
max_zalk_messages_per_tx = 16

abbrev pub max_zalk_messages_per_block : ℕ
max_zalk_messages_per_block = 4096

abbrev pub max_carrier_bytes_per_block : ℕ
max_carrier_bytes_per_block = 4194304

abbrev pub max_deploy_bytes_per_block : ℕ
max_deploy_bytes_per_block = 4194304

abbrev pub max_storage_key_bytes : ℕ
max_storage_key_bytes = 256

abbrev pub max_storage_value_bytes : ℕ
max_storage_value_bytes = 65536

abbrev pub max_storage_writes_per_call : ℕ
max_storage_writes_per_call = 256

abbrev pub max_call_inline_bytes : ℕ
max_call_inline_bytes = 38

abbrev pub max_call_input_bytes : ℕ
max_call_input_bytes = 65536

abbrev pub max_call_carrier_chunks : ℕ
max_call_carrier_chunks = 47

abbrev pub max_return_data_bytes : ℕ
max_return_data_bytes = 65536

abbrev pub protocol_magic : Bytes
protocol_magic = 0x5A ∷ 0x41 ∷ 0x4C ∷ 0x4B ∷ []

abbrev pub protocol_v0 : ℕ
protocol_v0 = 0x00

abbrev pub msg_deploy : ℕ
msg_deploy = 0x01

abbrev pub msg_call : ℕ
msg_call = 0x02

abbrev pub msg_call_carrier : ℕ
msg_call_carrier = 0x03

abbrev pub mainnet_activation_height : Option ℕ
mainnet_activation_height = none

abbrev pub testnet_activation_height : Option ℕ
testnet_activation_height = some 4346500

abbrev pub regtest_activation_height : Option ℕ
regtest_activation_height = some 1
