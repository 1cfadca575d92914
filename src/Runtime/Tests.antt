-- ===== src/Runtime/Tests.antt =====
-- A contract that stores, reads and deletes a key, and the theorems on the host functions and on
-- `execute` at it.
use Prim.Native.String.{String}
use zalkanes.Base.{
  List, Result, length, All, ◌%◌, ◌^◌, ◌≡◌, ◌↔◌, ◌<◌, ◌≤◌, ◌+◌, refl, [], ◌∷◌, none, some, ok,
  arith,
}
use zalkanes.Base.Bytes.{Bytes}
use zalkanes.Base.Order.{cmp_bytes}
use zalkanes.Base.OrdMap.{lookup, insert}
use zalkanes.State.Memory.{MemoryState, empty, get_contract}
use zalkanes.Runtime.{Validity, HostState, CallContext, CallResult, success, set}
use zalkanes.Runtime.Validate.{
  Payload, func, import_section, function_section, memory_section, count_payloads, count_payload,
  count_imports, count_import, max_all, check_counts, limit, check_imports, check_payloads,
  is_known, is_host_import, validate_module,
}
use zalkanes.Runtime.Validate.Known.{ImportsKnown}
use zalkanes.Runtime.Validate.Accepted.{CountsFit, validate_module-accepted_iff}
use zalkanes.Runtime.Memory.{as_usize, saturating_add, read_range}
use zalkanes.Runtime.Host.{
  storage_get, storage_set, storage_delete, input_read, is_full_for, run_host, output_write,
  call_set, call_output,
}
use zalkanes.Runtime.Host.Storage.{Reads, storage_get-set}
use zalkanes.Runtime.Host.Input.{input_read-panics_iff}
use zalkanes.Runtime.Execute.{
  Engine, Guest, finished, host_call, returned, dispatch, execute, run_guest, call_result,
  overlay_writes, start_host,
}
use zalkanes.Runtime.Execute.Bounds.{IsLimited, execute-IsLimited}

abbrev host : HostState
host = record {
  contract_id = 1 ∷ [];
  input = 5 ∷ 6 ∷ 7 ∷ [];
  output = [];
  block_height = 10;
  overlay = [];
  base = empty;
}

abbrev linear : Bytes
linear = 11 ∷ 12 ∷ 13 ∷ 14 ∷ 15 ∷ 16 ∷ []

-- Key 11, value 12 13.
set_answers : (storage_set host (some linear) 0 1 1 2).code ≡ 0
unfolding storage_set read_range as_usize saturating_add is_full_for lookup
set_answers = refl

delete_answers : (storage_delete host (some linear) 0 1).code ≡ 0
unfolding storage_delete read_range as_usize saturating_add is_full_for lookup
delete_answers = refl

storage_get-set_example :
    (val : Bytes) × (read_range linear 1 2 ≡ some val)
    × (length val ≤ 65536)
    × Reads
        (storage_set host (some linear) 0 1 1 2).host
        linear
        4
        val
        (storage_get (storage_set host (some linear) 0 1 1 2).host (some linear) 0 1 4)
storage_get-set_example =
    storage_get-set host linear linear 0 1 1 2 0 1 4 set_answers refl (omega arith)

-- Offset 1, length -1.
input_read-panics_iff_example :
    (input_read host (some linear) 0 1 4294967295 ≡ none)
    ↔ ((as_usize 1 < 3) × (18446744073709551616 ≤ as_usize 1 + as_usize 4294967295))
input_read-panics_iff_example =
    input_read-panics_iff host (some linear) 0 1 4294967295 (omega arith) (omega arith)
      (omega arith)

panics : input_read host (some linear) 0 1 4294967295 ≡ none
unfolding input_read as_usize
panics = refl

-- Sets a key, returns three bytes, and ends with code 0.
abbrev guest : Guest
guest =
    host_call (call_set 0 1 1 2) (some linear)
      (λ _ _. host_call (call_output 0 3) (some linear) (λ _ _. finished (returned 0) 400))

abbrev engine : Engine
engine = record {
  parse_module = λ _. ok tt;
  set_fuel = λ _. ok tt;
  instantiate = λ _ _ _ _. dispatch guest;
}

abbrev deployed : MemoryState
deployed = record empty { contracts = (1 ∷ [], (2 ∷ [], 3 ∷ [])) ∷ [] }

abbrev context : CallContext
context = record {
  contract_id = 1 ∷ [];
  caller = none;
  txid = [];
  block_height = 10;
  opcode = 2;
  input = [];
  fuel_limit = 1000;
  depth = 0;
}

abbrev result : CallResult
result = success (11 ∷ 12 ∷ 13 ∷ []) 600 (set (1 ∷ []) (11 ∷ []) (12 ∷ 13 ∷ []) ∷ [])

executes : execute engine context deployed ≡ some result
unfolding execute get_contract lookup insert cmp_bytes run_guest run_host storage_set output_write
    read_range as_usize saturating_add is_full_for call_result overlay_writes start_host
executes = refl

execute-IsLimited_example : IsLimited (1 ∷ []) 1000 result
execute-IsLimited_example = execute-IsLimited engine context deployed result executes

-- A module with one import of the host, a function and a page of memory.
abbrev payloads : List Payload
payloads =
    import_section (record { module_name = "env"; name = "storage_get"; ty = func } ∷ [])
    ∷ function_section 1
    ∷ memory_section (1 ∷ [])
    ∷ []

abbrev parses : Bytes → Validity
parses _ = ok tt

abbrev reads : Bytes → Result {0, 0} (List Payload) String
reads _ = ok payloads

validates : validate_module parses reads linear ≡ ok tt
unfolding validate_module check_counts limit count_payloads count_payload count_imports count_import
    max_all check_imports check_payloads is_known is_host_import
validates = refl

validate_module-accepted_iff_example : (validate_module parses reads linear ≡ ok tt) ↔ (
    (length linear % 2 ^ 32 ≤ 262144)
    × (parses linear ≡ ok tt)
    × ((ps : List Payload) × (reads linear ≡ ok ps) × CountsFit ps × All ImportsKnown ps))
validate_module-accepted_iff_example = validate_module-accepted_iff parses reads linear
