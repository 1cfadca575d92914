-- ===== src/Runtime/Host.antt =====
-- `build_linker` of crates/zalkanes-runtime/src/lib.rs: the six host functions over the contract's
-- memory and the write overlay. `none` as memory is a contract without a `memory` export; the word
-- 4294967295 is -1. Where the guards on the export and on the lengths all answer -1 and change nothing,
-- the export is tested first.
pub mod Bounds
pub mod Storage
pub mod Input
use zalkanes.Base.{
  ℕ, ◌+◌, ◌-◌, ◌%◌, min, Bool, true, false, ◌&&◌, ◌||◌, not, Option, some, none, List, [], ◌∷◌, ltb,
  leb, if◌then◌else◌, length, take, drop,
}
use zalkanes.Base.Bytes.{Bytes, to_be_32}
use zalkanes.Base.Order.{bytes_order}
use zalkanes.Base.OrdMap.{OrdMap, lookup, insert}
use zalkanes.Core.{
  max_storage_key_bytes, max_storage_value_bytes, max_storage_writes_per_call,
  max_return_data_bytes,
}
use zalkanes.State.Memory as Store
use zalkanes.Runtime.{HostState}
use zalkanes.Runtime.Memory.{as_usize, read_range, write_range, usize_bound}

abbrev pub minus_one : ℕ
minus_one = 4294967295

-- What a host function leaves: its result, the memory and the host state.
pub record Reply : Type 0 where
  pub code : ℕ
  pub memory : Option Bytes
  pub host : HostState

abbrev pub refuse : HostState → Option Bytes → Reply
refuse h mem = record { code = minus_one; memory = mem; host = h }

-- The overlay first, then the base store.
unfoldable pub read_through : HostState → Bytes → Option Bytes
read_through h key = elim (lookup key h.overlay) [
  | some v ↦ v
  | none ↦ Store.storage_get h.base h.contract_id key
]

-- A full overlay refuses a new key.
unfoldable pub is_full_for : HostState → Bytes → Bool
is_full_for h key =
    leb max_storage_writes_per_call (length h.overlay)
    && elim (lookup key h.overlay) [ some _ ↦ false | none ↦ true ]

unfoldable pub storage_get : HostState → Option Bytes → ℕ → ℕ → ℕ → Reply
storage_get h none key_ptr key_len val_ptr = refuse h none
storage_get h (some bytes) key_ptr key_len val_ptr = elim (read_range bytes key_ptr key_len) [
  | none ↦ refuse h (some bytes)
  | some key ↦ elim (read_through h key) [
    | none ↦ refuse h (some bytes)
    | some v ↦ elim (write_range bytes val_ptr v) [
      | none ↦ refuse h (some bytes)
      | some bytes' ↦ record { code = length v % 4294967296; memory = some bytes'; host = h }
    ]
  ]
]

unfoldable pub storage_set : HostState → Option Bytes → ℕ → ℕ → ℕ → ℕ → Reply
storage_set h none key_ptr key_len val_ptr val_len = refuse h none
storage_set h (some bytes) key_ptr key_len val_ptr val_len =
    if ltb max_storage_key_bytes key_len
    then refuse h (some bytes)
    else if ltb max_storage_value_bytes val_len
    then refuse h (some bytes)
    else elim (read_range bytes key_ptr key_len) [
      | none ↦ refuse h (some bytes)
      | some key ↦ elim (read_range bytes val_ptr val_len) [
        | none ↦ refuse h (some bytes)
        | some val ↦ if is_full_for h key then refuse h (some bytes) else record {
          code = 0;
          memory = some bytes;
          host = record h { overlay = insert key (some val) h.overlay };
        }
      ]
    ]

unfoldable pub storage_delete : HostState → Option Bytes → ℕ → ℕ → Reply
storage_delete h none key_ptr key_len = refuse h none
storage_delete h (some bytes) key_ptr key_len =
    if ltb max_storage_key_bytes key_len
    then refuse h (some bytes)
    else elim (read_range bytes key_ptr key_len) [
      | none ↦ refuse h (some bytes)
      | some key ↦ if is_full_for h key then refuse h (some bytes) else record {
        code = 0;
        memory = some bytes;
        host = record h { overlay = insert key none h.overlay };
      }
    ]

unfoldable pub output_write : HostState → Option Bytes → ℕ → ℕ → Reply
output_write h none ptr len = refuse h none
output_write h (some bytes) ptr len =
    if ltb max_return_data_bytes len
    then refuse h (some bytes)
    else elim (read_range bytes ptr len) [
      | none ↦ refuse h (some bytes)
      | some out ↦ record { code = 0; memory = some bytes; host = record h { output = out } }
    ]

unfoldable pub context_block_height : HostState → Option Bytes → ℕ → Reply
context_block_height h none out_ptr = refuse h none
context_block_height h (some bytes) out_ptr =
    elim (write_range bytes out_ptr (to_be_32 h.block_height)) [
      | none ↦ refuse h (some bytes)
      | some bytes' ↦ record { code = 0; memory = some bytes'; host = h }
    ]

-- The end of `input_read`: the slice into the memory.
unfoldable pub copy_input : HostState → Option Bytes → ℕ → Bytes → Reply
copy_input h none out_ptr slice = refuse h none
copy_input h (some bytes) out_ptr slice = elim (write_range bytes out_ptr slice) [
  | none ↦ refuse h (some bytes)
  | some bytes' ↦ record { code = length slice % 4294967296; memory = some bytes'; host = h }
]

-- `none` is a panic of the host: the slice ends before it starts. The sum `off + len as usize`
-- wraps, as a release build computes it.
unfoldable pub input_read : HostState → Option Bytes → ℕ → ℕ → ℕ → Option Reply
input_read h mem out_ptr offset len =
    let off = as_usize offset in
    if leb (length h.input) off
    then some (record { code = 0; memory = mem; host = h })
    else (let end = min (length h.input) ((off + as_usize len) % usize_bound) in
        if ltb end off
        then none
        else some (copy_input h mem out_ptr (take (end - off) (drop off h.input))))

-- A call of a host function, as the contract makes it.
pub data HostCall : Type 0 where
  call_get : (key_ptr key_len val_ptr : ℕ) → HostCall
  call_set : (key_ptr key_len val_ptr val_len : ℕ) → HostCall
  call_delete : (key_ptr key_len : ℕ) → HostCall
  call_output : (ptr len : ℕ) → HostCall
  call_height : (out_ptr : ℕ) → HostCall
  call_input : (out_ptr offset len : ℕ) → HostCall

unfoldable pub run_host : HostState → Option Bytes → HostCall → Option Reply
run_host h mem (call_get key_ptr key_len val_ptr) = some (storage_get h mem key_ptr key_len val_ptr)
run_host h mem (call_set key_ptr key_len val_ptr val_len) =
    some (storage_set h mem key_ptr key_len val_ptr val_len)
run_host h mem (call_delete key_ptr key_len) = some (storage_delete h mem key_ptr key_len)
run_host h mem (call_output ptr len) = some (output_write h mem ptr len)
run_host h mem (call_height out_ptr) = some (context_block_height h mem out_ptr)
run_host h mem (call_input out_ptr offset len) = input_read h mem out_ptr offset len
