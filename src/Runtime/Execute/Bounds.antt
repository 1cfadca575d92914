-- ===== src/Runtime/Execute/Bounds.antt =====
-- What a successful `execute` of crates/zalkanes-runtime/src/lib.rs hands to its caller.
use zalkanes.Base.{
  ℕ, ◌-◌, ◌%◌, ◌≤◌, ◌≡◌, refl, ◌∙◌, Option, some, none, ltb, ◌==◌, [], ◌∷◌, length, All, arith,
  on_if, on_option, ◌>>=◌, subst, ◌||◌, on_result,
}
use zalkanes.Base.Bytes.{Bytes}
use zalkanes.Base.Text.{◌<>◌, contains}
use zalkanes.Base.OrdMap.{OrdMap}
use zalkanes.Core.{ContractId}
use zalkanes.State.Memory as Store
use zalkanes.State.Memory.{MemoryState}
use zalkanes.Runtime.{
  HostState, CallContext, CallResult, success, trap, fuel_exhausted, invalid_module,
  contract_not_found, StorageWrite, set, delete,
}
use zalkanes.Runtime.Host.{Reply, run_host}
use zalkanes.Runtime.Host.Bounds.{EntryFits, IsBounded, Keeps, KeepsResult, run_host-Keeps}
use zalkanes.Runtime.Execute.{
  Engine, Guest, Outcome, Instance, finished, host_call, returned, failed, instantiation_error,
  no_dispatch, dispatch, run_guest, overlay_writes, call_result, start_host, execute,
}

-- The bounds after a run, if it ends, and the contract it ran.
abbrev RunKeeps : HostState → Option (HostState × Outcome × ℕ) → Type 0
RunKeeps h none = Unit
RunKeeps h (some (h', _, _)) = IsBounded h' × (h'.contract_id ≡ h.contract_id)

RunKeeps-step :
    (h h' : HostState)
    → h'.contract_id ≡ h.contract_id
    → (o : Option (HostState × Outcome × ℕ)) → RunKeeps h' o
    → RunKeeps h o
RunKeeps-step h h' e none k = tt
RunKeeps-step h h' e (some (h'', _, _)) (b, e') = (b, e' ∙ e)

run_guest-RunKeeps : (h : HostState) (g : Guest) → IsBounded h → RunKeeps h (run_guest h g)
unfolding run_guest Keeps
run_guest-RunKeeps h (finished outcome fuel) b = (b, refl)
run_guest-RunKeeps h (host_call call mem next) b =
    step (run_host h mem call) (run_host-Keeps h mem call) λ r k e.
      RunKeeps-step h r.host e (run_guest r.host (next r.code r.memory))
        (run_guest-RunKeeps r.host (next r.code r.memory) k)
  where
    step :
        (o : Option Reply)
        → KeepsResult h o
        → ((r : Reply)
            → IsBounded r.host
            → r.host.contract_id ≡ h.contract_id
            → RunKeeps h (run_guest r.host (next r.code r.memory)))
        → RunKeeps h (elim o [ none ↦ none | some r ↦ run_guest r.host (next r.code r.memory) ])
    step none k f = tt
    step (some r) k f = let (b', e) = k b in f r b' e

-- A write of the called contract within the key and value limits.
abbrev pub WriteFits : ContractId → StorageWrite → Type 0
WriteFits cid (set id key v) = (id ≡ cid) × (length key ≤ 256) × (length v ≤ 65536)
WriteFits cid (delete id key) = (id ≡ cid) × (length key ≤ 256)

overlay_writes-WriteFits :
    (cid : ContractId) (m : OrdMap Bytes (Option Bytes))
    → All EntryFits m
    → All (WriteFits cid) (overlay_writes cid m) × (length (overlay_writes cid m) ≡ length m)
unfolding overlay_writes
overlay_writes-WriteFits cid [] a = (tt, refl)
overlay_writes-WriteFits cid ((key, some v) ∷ m) ((k, l), a) =
    let (fit, len) = overlay_writes-WriteFits cid m a in (((refl, k, l), fit), omega arith)
overlay_writes-WriteFits cid ((key, none) ∷ m) ((k, _), a) =
    let (fit, len) = overlay_writes-WriteFits cid m a in (((refl, k), fit), omega arith)

-- The limits of the result of a call: on success, an output of at most 65536 bytes and at most 256
-- writes, all of the contract `cid` and within the key and value limits; and in every case no more
-- fuel than the call was given.
abbrev pub IsLimited : ContractId → ℕ → CallResult → Type 0
IsLimited cid fuel_limit (success output fuel_used writes) =
    (length output ≤ 65536)
    × (length writes ≤ 256)
    × All (WriteFits cid) writes
    × (fuel_used ≤ fuel_limit)
IsLimited cid fuel_limit (trap reason fuel_used) = fuel_used ≤ fuel_limit
IsLimited cid fuel_limit (fuel_exhausted fuel_used) = fuel_used ≤ fuel_limit
IsLimited cid fuel_limit (invalid_module reason) = Unit
IsLimited cid fuel_limit contract_not_found = Unit

call_result-IsLimited :
    (h : HostState) (fuel_limit : ℕ) (outcome : Outcome) (fuel : ℕ)
    → IsBounded h
    → IsLimited h.contract_id fuel_limit (call_result fuel_limit (h, outcome, fuel))
unfolding call_result
call_result-IsLimited h fuel_limit (returned code) fuel (sorted, count, all, out) =
    let (fit, len) = overlay_writes-WriteFits h.contract_id h.overlay all in
    on_if (IsLimited h.contract_id fuel_limit) (code == 0)
      (λ _. (out, omega arith, fit, omega arith)) (λ _. omega arith)
call_result-IsLimited h fuel_limit (failed message) fuel b =
    on_if (IsLimited h.contract_id fuel_limit)
      (contains message "fuel" || contains message "OutOfFuel") (λ _. omega arith)
      (λ _. omega arith)

abbrev OptionLimited : ContractId → ℕ → Option CallResult → Type 0
OptionLimited cid fuel_limit none = Unit
OptionLimited cid fuel_limit (some r) = IsLimited cid fuel_limit r

ended-IsLimited :
    (ctx : CallContext) (state : MemoryState) (o : Option (HostState × Outcome × ℕ))
    → RunKeeps (start_host ctx state) o
    → OptionLimited ctx.contract_id ctx.fuel_limit (o >>= λ r. some (call_result ctx.fuel_limit r))
unfolding start_host
ended-IsLimited ctx state none k = tt
ended-IsLimited ctx state (some (h, outcome, fuel)) (b, e) =
    subst (λ c. IsLimited c ctx.fuel_limit (call_result ctx.fuel_limit (h, outcome, fuel))) e
      (call_result-IsLimited h ctx.fuel_limit outcome fuel b)

start-IsBounded : (ctx : CallContext) (state : MemoryState) → IsBounded (start_host ctx state)
unfolding start_host
start-IsBounded ctx state = (tt, omega arith, tt, omega arith)

-- The module's code has run: the limits of what follows instantiation.
instance-IsLimited :
    (ctx : CallContext) (state : MemoryState) (i : Instance)
    → OptionLimited ctx.contract_id ctx.fuel_limit (elim i [
      | instantiation_error message fuel_remaining ↦
          some (trap ("instantiation error: " <> message) (ctx.fuel_limit - fuel_remaining))
      | no_dispatch ↦ some (trap "missing 'dispatch' export" 0)
      | dispatch guest ↦
          run_guest (start_host ctx state) guest >>= λ r. some (call_result ctx.fuel_limit r)
    ])
instance-IsLimited ctx state (instantiation_error message fuel) = omega arith
instance-IsLimited ctx state no_dispatch = omega arith
instance-IsLimited ctx state (dispatch guest) =
    ended-IsLimited ctx state (run_guest (start_host ctx state) guest)
      (run_guest-RunKeeps (start_host ctx state) guest (start-IsBounded ctx state))

-- Whatever the contract does under the engine, a result of `execute` is within the limits of a
-- call: on success an output of at most 65536 bytes and at most 256 writes, all of the called
-- contract, with keys of at most 256 and values of at most 65536 bytes; and in every case no more
-- fuel than the call was given.
pub execute-IsLimited :
    (engine : Engine) (ctx : CallContext) (state : MemoryState) (r : CallResult)
    → execute engine ctx state ≡ some r
    → IsLimited ctx.contract_id ctx.fuel_limit r
unfolding execute
execute-IsLimited engine ctx state r h = subst P h all
  where
    P : Option CallResult → Type 0
    P = OptionLimited ctx.contract_id ctx.fuel_limit

    all : P (execute engine ctx state)
    all =
        on_if P (ltb 16 ctx.depth) (λ _. omega arith)
          λ _.
            on_option P (Store.get_contract state ctx.contract_id) (λ _. tt)
              λ c _.
                on_result P (engine.parse_module c.1)
                  (λ _ _.
                    on_result P (engine.set_fuel ctx.fuel_limit)
                      (λ _ _. instance-IsLimited ctx state (
                        engine.instantiate c.1 ctx.fuel_limit ctx.opcode
                          (length ctx.input % 4294967296)))
                      (λ _ _. omega arith))
                  (λ _ _. tt)
