-- ===== src/Runtime.antt =====
-- crates/zalkanes-runtime/src/lib.rs: results, contexts, the host state, `validate_module` and
-- `execute`. The wasmi engine and the wasmparser reader are the parameters `Engine`.
pub mod Memory
pub mod Host
pub mod Validate
pub mod Execute
mod Tests
use Prim.Native.String.{String}
use zalkanes.Base.{ℕ, Option, List, Result}
use zalkanes.Base.Bytes.{Bytes}
use zalkanes.Base.OrdMap.{OrdMap}
use zalkanes.Core.{ContractId, TxId, BlockHeight}
use zalkanes.State.Memory.{MemoryState}

-- `Result<(), String>`
abbrev pub Validity : Type 0
Validity = Result {0, 0} Unit String

pub data StorageWrite : Type 0 where
  set : ContractId → Bytes → Bytes → StorageWrite
  delete : ContractId → Bytes → StorageWrite

pub data CallResult : Type 0 where
  success : (output : Bytes) → (fuel_used : ℕ) → (writes : List StorageWrite) → CallResult
  trap : (reason : String) → (fuel_used : ℕ) → CallResult
  fuel_exhausted : (fuel_used : ℕ) → CallResult
  invalid_module : (reason : String) → CallResult
  contract_not_found : CallResult

pub record CallContext : Type 0 where
  pub contract_id : ContractId
  pub caller : Option ContractId
  pub txid : TxId
  pub block_height : BlockHeight
  pub opcode : ℕ
  pub input : Bytes
  pub fuel_limit : ℕ
  pub depth : ℕ

-- `HostState`, less wasmi's own limiter.
pub record HostState : Type 0 where
  pub contract_id : ContractId
  pub input : Bytes
  pub output : Bytes
  pub block_height : BlockHeight
  pub overlay : OrdMap Bytes (Option Bytes)
  pub base : MemoryState
