-- ===== src/Runtime/Validate.antt =====
-- `validate_module` and `count_module_entities` of crates/zalkanes-runtime/src/lib.rs.
pub mod Counted
pub mod Sizes
pub mod Known
pub mod Accepted
use Prim.Native.String.{String}
use zalkanes.Base.{
  ℕ, ◌+◌, ◌%◌, ◌^◌, max, Bool, true, false, ◌&&◌, ◌||◌, List, [], ◌∷◌, ltb, if◌then◌else◌, length,
  Result, ok, err, and_then,
}
use zalkanes.Base.Bytes.{Bytes}
use zalkanes.Base.Text.{◌<>◌, decimal}
use text.Mathlib.Text as Text
use zalkanes.Runtime.{Validity}
use zalkanes.Core.{
  max_code_bytes, max_functions, max_globals, max_imports, max_exports, max_linear_memory_pages,
  max_table_elements,
}

-- What the section reader gives: `wasmparser`'s types, as far as they are read.
pub data TypeRef : Type 0 where
  func global tag : TypeRef
  table memory : (initial : ℕ) → TypeRef

pub record Import : Type 0 where
  pub module_name : String
  pub name : String
  pub ty : TypeRef

pub data Payload : Type 0 where
  import_section : List Import → Payload
  function_section global_section export_section : (count : ℕ) → Payload
  table_section memory_section : (initial : List ℕ) → Payload
  other_section : Payload

pub record ModuleCounts : Type 0 where
  pub funcs : ℕ
  pub globals : ℕ
  pub imports : ℕ
  pub exports : ℕ
  pub max_memory_pages : ℕ
  pub max_table_elems : ℕ

abbrev pub no_counts : ModuleCounts
no_counts = record {
  funcs = 0;
  globals = 0;
  imports = 0;
  exports = 0;
  max_memory_pages = 0;
  max_table_elems = 0;
}

unfoldable pub count_import : ModuleCounts → TypeRef → ModuleCounts
count_import c func = record c { funcs = c.funcs + 1 }
count_import c global = record c { globals = c.globals + 1 }
count_import c tag = c
count_import c (table initial) = record c { max_table_elems = max c.max_table_elems initial }
count_import c (memory initial) = record c { max_memory_pages = max c.max_memory_pages initial }

unfoldable pub count_imports : ModuleCounts → List Import → ModuleCounts
count_imports c [] = c
count_imports c (i ∷ is) = count_imports (count_import c i.ty) is

unfoldable pub max_all : ℕ → List ℕ → ℕ
max_all m [] = m
max_all m (x ∷ xs) = max_all (max m x) xs

unfoldable pub count_payload : ModuleCounts → Payload → ModuleCounts
count_payload c (import_section is) = count_imports (record c { imports = length is }) is
count_payload c (function_section count) = record c { funcs = c.funcs + count }
count_payload c (global_section count) = record c { globals = c.globals + count }
count_payload c (export_section count) = record c { exports = count }
count_payload c (table_section initial) = record c {
  max_table_elems = max_all c.max_table_elems initial;
}
count_payload c (memory_section initial) = record c {
  max_memory_pages = max_all c.max_memory_pages initial;
}
count_payload c other_section = c

unfoldable pub count_payloads : ModuleCounts → List Payload → ModuleCounts
count_payloads c [] = c
count_payloads c (p ∷ ps) = count_payloads (count_payload c p) ps

unfoldable pub is_host_import : String → Bool
is_host_import name =
    Text.◌==◌ name "storage_get"
    || (Text.◌==◌ name "storage_set"
        || (Text.◌==◌ name "storage_delete"
            || (Text.◌==◌ name "output_write"
                || (Text.◌==◌ name "context_block_height" || Text.◌==◌ name "input_read"))))

abbrev pub is_func : TypeRef → Bool
is_func func = true
is_func _ = false

unfoldable pub is_known : Import → Bool
is_known i = Text.◌==◌ i.module_name "env" && (is_host_import i.name && is_func i.ty)

unfoldable pub check_imports : List Import → Validity
check_imports [] = ok tt
check_imports (i ∷ is) =
    let rest = check_imports is in
    if is_known i
    then rest
    else err (
        "unresolvable import " <> i.module_name <> "::" <> i.name
        <> " (host ABI provides only env::{storage_get, storage_set, storage_delete, output_write, context_block_height, input_read})")

unfoldable pub check_payloads : List Payload → Validity
check_payloads [] = ok tt
check_payloads (import_section is ∷ ps) = and_then (check_imports is) (λ _. check_payloads ps)
check_payloads (function_section _ ∷ ps) = check_payloads ps
check_payloads (global_section _ ∷ ps) = check_payloads ps
check_payloads (export_section _ ∷ ps) = check_payloads ps
check_payloads (table_section _ ∷ ps) = check_payloads ps
check_payloads (memory_section _ ∷ ps) = check_payloads ps
check_payloads (other_section ∷ ps) = check_payloads ps

unfoldable pub limit : ℕ → ℕ → String → String → Validity
limit count bound before after =
    if ltb bound count then err (before <> decimal count <> after <> decimal bound) else ok tt

unfoldable pub check_counts : ModuleCounts → Validity
check_counts c =
    and_then (limit c.funcs max_functions "function count " " exceeds MAX_FUNCTIONS ") λ _.
      and_then (limit c.globals max_globals "global count " " exceeds MAX_GLOBALS ") λ _.
        and_then (limit c.imports max_imports "import count " " exceeds MAX_IMPORTS ") λ _.
          and_then (limit c.exports max_exports "export count " " exceeds MAX_EXPORTS ") λ _.
            and_then
              (limit c.max_memory_pages max_linear_memory_pages "memory "
                " pages exceeds MAX_LINEAR_MEMORY_PAGES ")
              λ _.
                limit c.max_table_elems max_table_elements "table "
                  " elements exceeds MAX_TABLE_ELEMENTS "

-- The module parser of wasmi, panics contained, and the section reader of wasmparser.
module _ (parse_module : Bytes → Validity) (parse_all : Bytes → Result (List Payload) String) where
  unfoldable pub validate_module : Bytes → Validity
  validate_module wasm =
      if ltb max_code_bytes (length wasm % 2 ^ 32)
      then err ("module too large: " <> decimal (length wasm) <> " > " <> decimal max_code_bytes)
      else and_then (parse_module wasm) λ _. and_then (parse_all wasm) λ payloads.
        and_then (check_counts (count_payloads no_counts payloads)) λ _. check_payloads payloads
