-- ===== src/Indexer.antt =====
-- crates/zalkanes-indexer/src/lib.rs: configuration, limits and results (here), the handlers of one
-- transaction (`Transaction`) and the block processor (`Block`). The store is the `MemoryState` of
-- the state crate. `Environment` holds what lies outside the repository: the hash functions, the
-- wasm engine and reader, and the Zcash block parser.
pub mod Parse
pub mod Transaction
pub mod Block
pub mod Sync
mod Tests
use Prim.Native.String.{String}
use zalkanes.Base.{ℕ, Option, none, some, List, Result}
use zalkanes.Base.Bytes.{Bytes}
use zalkanes.Core.{
  Network, mainnet, testnet, regtest, BlockHeight, BlockHash, StateRoot, TxId, ContractId, CodeHash,
  Execution, mainnet_activation_height, testnet_activation_height, regtest_activation_height,
}
use zalkanes.Runtime.Execute.{Engine}
use zalkanes.Runtime.Validate.{Payload}

-- `IndexerConfig`, less the directory of the data.
pub record IndexerConfig : Type 0 where
  pub network : Network
  pub regtest_activation_override : Option BlockHeight

-- `Option::or`
abbrev or_else : Option BlockHeight → Option BlockHeight → Option BlockHeight
or_else none o = o
or_else (some h) o = some h

-- `none` is a network on which the protocol never starts.
unfoldable pub activation_on : Network → Option BlockHeight → Option BlockHeight
activation_on mainnet override_height = mainnet_activation_height
activation_on testnet override_height = testnet_activation_height
activation_on regtest override_height = or_else override_height regtest_activation_height

abbrev pub activation_height : IndexerConfig → Option BlockHeight
activation_height config = activation_on config.network config.regtest_activation_override

pub record BlockLimits : Type 0 where
  pub fuel_used : ℕ
  pub messages : ℕ
  pub carrier_bytes : ℕ
  pub deploy_bytes : ℕ

pub record BlockExecution : Type 0 where
  pub height : BlockHeight
  pub block_hash : BlockHash
  pub state_root_before : StateRoot
  pub state_root_after : StateRoot
  pub executions : List Execution
  pub deployed : List ContractId

-- crates/zalkanes-indexer/src/parse.rs: a block reduced to its transparent scripts.
pub record ParsedTransaction : Type 0 where
  pub txid : TxId
  pub outputs : List (ℕ × Bytes)
  pub inputs : List (ℕ × Bytes)

pub record ParsedBlock : Type 0 where
  pub height : BlockHeight
  pub hash : BlockHash
  pub transactions : List ParsedTransaction

-- What `Block::read` gives of a transaction, and of a block: the claimed height is the coinbase's,
-- and a transaction may have a transparent bundle, of output and of input scripts.
pub record ReadTransaction : Type 0 where
  pub txid : TxId
  pub transparent_bundle : Option (List Bytes × List Bytes)

pub record ReadBlock : Type 0 where
  pub claimed_height : BlockHeight
  pub vtx : List ReadTransaction

-- Why a block is not processed: the parser's error, or a panic of a host function.
pub data Failure : Type 0 where
  parse_failure : String → Failure
  panic : Failure

pub record Environment : Type 0 where
  pub sha256 : Bytes → CodeHash
  pub blake2b : Bytes → Bytes → Bytes
  pub engine : Engine
  pub parse_all : Bytes → Result (List Payload) String
  pub read_block : Bytes → Network → Result ReadBlock String
