-- ===== src/Runtime/Execute.antt =====
-- `execute` of crates/zalkanes-runtime/src/lib.rs. What a contract does under wasmi is a tree of
-- host calls: each carries the memory at the call and goes on with the result and the memory after
-- it. Metered execution ends, so the tree is finite on every path.
pub mod Bounds
use Prim.Native.String.{String}
use zalkanes.Base.{
  ℕ, ◌-◌, ◌%◌, ◌==◌, ◌||◌, Option, some, none, List, [], ◌∷◌, ltb, if◌then◌else◌, length, Result,
  ok, err, ◌>>=◌,
}
use zalkanes.Base.Bytes.{Bytes}
use zalkanes.Base.OrdMap.{OrdMap}
use zalkanes.Base.Text.{◌<>◌, decimal, decimal_i32, contains}
use zalkanes.Core.{ContractId, max_call_depth}
use zalkanes.State.Memory as Store
use zalkanes.State.Memory.{MemoryState}
use zalkanes.Runtime.{
  Validity, HostState, CallContext, CallResult, success, trap, fuel_exhausted, invalid_module,
  contract_not_found, StorageWrite, set, delete,
}
use zalkanes.Runtime.Host.{HostCall, Reply, run_host}

-- How `dispatch` ends: with a code, or with an engine error and its text.
pub data Outcome : Type 0 where
  returned : (code : ℕ) → Outcome
  failed : (message : String) → Outcome

pub data Guest : Type 0 where
  finished : Outcome → (fuel_remaining : ℕ) → Guest
  host_call : HostCall → (memory : Option Bytes) → (ℕ → Option Bytes → Guest) → Guest

-- What instantiation gives; no code of the contract runs in it, as start functions are refused.
pub data Instance : Type 0 where
  instantiation_error : (message : String) → (fuel_remaining : ℕ) → Instance
  no_dispatch : Instance
  dispatch : Guest → Instance

pub record Engine : Type 0 where
  pub parse_module : Bytes → Validity
  pub set_fuel : ℕ → Validity
  -- the module, the fuel, the opcode and the length of the input
  pub instantiate : Bytes → ℕ → ℕ → ℕ → Instance

-- `none` is a panic of a host function.
unfoldable pub run_guest : HostState → Guest → Option (HostState × Outcome × ℕ)
run_guest h (finished outcome fuel_remaining) = some (h, outcome, fuel_remaining)
run_guest h (host_call call memory next) = elim (run_host h memory call) [
  | none ↦ none
  | some r ↦ run_guest r.host (next r.code r.memory)
]

-- Materializing the overlay.
unfoldable pub overlay_writes : ContractId → OrdMap Bytes (Option Bytes) → List StorageWrite
overlay_writes cid [] = []
overlay_writes cid ((key, some v) ∷ m) = set cid key v ∷ overlay_writes cid m
overlay_writes cid ((key, none) ∷ m) = delete cid key ∷ overlay_writes cid m

unfoldable pub call_result : ℕ → HostState × Outcome × ℕ → CallResult
call_result fuel_limit (h, returned code, fuel_remaining) =
    let fuel_used = fuel_limit - fuel_remaining in
    if code == 0
    then success h.output fuel_used (overlay_writes h.contract_id h.overlay)
    else trap ("dispatch returned error code " <> decimal_i32 code) fuel_used
call_result fuel_limit (h, failed message, fuel_remaining) =
    let fuel_used = fuel_limit - fuel_remaining in
    if contains message "fuel" || contains message "OutOfFuel"
    then fuel_exhausted fuel_used
    else trap message fuel_used

unfoldable pub start_host : CallContext → MemoryState → HostState
start_host ctx state = record {
  contract_id = ctx.contract_id;
  input = ctx.input;
  output = [];
  block_height = ctx.block_height;
  overlay = [];
  base = state;
}

module _ (engine : Engine) where
  -- `none` is a panic of a host function.
  unfoldable pub execute : CallContext → MemoryState → Option CallResult
  execute ctx state =
      if ltb max_call_depth ctx.depth
      then some (
          trap
            ("call depth "
              <> decimal ctx.depth
              <> " exceeds MAX_CALL_DEPTH "
              <> decimal max_call_depth)
            0)
      else elim (Store.get_contract state ctx.contract_id) [
        | none ↦ some contract_not_found
        | some (code_hash, wasm) ↦ elim (engine.parse_module wasm) [
          | err reason ↦ some (invalid_module reason)
          | ok _ ↦ elim (engine.set_fuel ctx.fuel_limit) [
            | err e ↦ some (trap ("set_fuel failed: " <> e) 0)
            | ok _ ↦
                elim (engine.instantiate wasm ctx.fuel_limit ctx.opcode
                  (length ctx.input % 4294967296)) [
                    | instantiation_error message fuel_remaining ↦ some (
                        trap ("instantiation error: " <> message) (ctx.fuel_limit - fuel_remaining))
                    | no_dispatch ↦ some (trap "missing 'dispatch' export" 0)
                    | dispatch guest ↦ run_guest (start_host ctx state) guest >>= λ r.
                        some (call_result ctx.fuel_limit r)
                  ]
          ]
        ]
      ]
