-- ===== src/Runtime/Validate/Known.antt =====
-- The imports that crates/zalkanes-runtime/src/lib.rs accepts: the six functions of the host.
use Prim.Native.String.{String}
use zalkanes.Base.{
  ◌≡◌, ◌↔◌, ◌⊎◌, inl, inr, refl, Bool, true, ◌&&◌, ◌||◌, List, [], ◌∷◌, All, ok, and_then,
  Bool-cases, arith,
}
use text.Mathlib.TextEquality.{eq_iff}
use zalkanes.Runtime.Validate.{
  TypeRef, func, global, tag, table, memory, Import, Payload, import_section, function_section,
  global_section, export_section, table_section, memory_section, other_section, is_func,
  is_host_import, is_known, check_imports, check_payloads,
}
use zalkanes.Runtime.{Validity}

-- The functions of the host.
abbrev pub host_functions : List String
host_functions =
    "storage_get" ∷ "storage_set" ∷ "storage_delete" ∷ "output_write" ∷ "context_block_height"
    ∷ "input_read" ∷ []

abbrev pub IsOneOf : List String → String → Type 0
IsOneOf [] s = ⊥
IsOneOf (t ∷ []) s = s ≡ t
IsOneOf (t ∷ u ∷ ts) s = (s ≡ t) ⊎ IsOneOf (u ∷ ts) s

-- A function of the module `env` with one of these names.
abbrev pub IsHostFunction : Import → Type 0
IsHostFunction i = (i.module_name ≡ "env") × IsOneOf host_functions i.name × (i.ty ≡ func)

abbrev pub ImportsKnown : Payload → Type 0
ImportsKnown (import_section is) = All IsHostFunction is
ImportsKnown _ = Unit

and_iff :
    {a b : Bool} {A B : Type 0} → (a ≡ true) ↔ A → (b ≡ true) ↔ B → ((a && b) ≡ true) ↔ (A × B)
and_iff {a} {b} f g = (
  λ h. (f.0 (ground arith), g.0 (ground arith)),
  λ (x, y). let ea = f.1 x in let eb = g.1 y in ground arith,
)

or_iff : {a b : Bool} {A B : Type 0} → (a ≡ true) ↔ A → (b ≡ true) ↔ B → ((a || b) ≡ true) ↔ (A ⊎ B)
or_iff {a} {b} f g = (
  λ h. elim (Bool-cases a) [ inl t ↦ inl (f.0 t) | inr e ↦ inr (g.0 (ground arith)) ],
  λ c. elim c [ inl x ↦ let ea = f.1 x in ground arith | inr y ↦ let eb = g.1 y in ground arith ],
)

is_func_iff : (t : TypeRef) → (is_func t ≡ true) ↔ (t ≡ func)
is_func_iff func = (λ _. refl, λ _. refl)
is_func_iff global = (λ h. cc, λ h. cc)
is_func_iff tag = (λ h. cc, λ h. cc)
is_func_iff (table n) = (λ h. cc, λ h. cc)
is_func_iff (memory n) = (λ h. cc, λ h. cc)

is_host_import_iff : (s : String) → (is_host_import s ≡ true) ↔ IsOneOf host_functions s
unfolding is_host_import
is_host_import_iff s = or_iff (eq_iff s "storage_get") (
    or_iff (eq_iff s "storage_set") (
      or_iff (eq_iff s "storage_delete") (
        or_iff (eq_iff s "output_write")
          (or_iff (eq_iff s "context_block_height") (eq_iff s "input_read")))))

is_known_iff : (i : Import) → (is_known i ≡ true) ↔ IsHostFunction i
unfolding is_known
is_known_iff i = (λ h. let (m, (n, t)) = all.0 h in (m, n, t), λ (m, n, t). all.1 (m, (n, t)))
  where
    all :
        (is_known i ≡ true)
        ↔ ((i.module_name ≡ "env") × (IsOneOf host_functions i.name × (i.ty ≡ func)))
    all =
        and_iff (eq_iff i.module_name "env")
          (and_iff (is_host_import_iff i.name) (is_func_iff i.ty))

-- Two checks in a row.
pub and_then-ok_iff :
    (m k : Validity) {A B : Type 0}
    → (m ≡ ok tt) ↔ A
    → (k ≡ ok tt) ↔ B
    → (and_then m (λ _. k) ≡ ok tt) ↔ (A × B)
and_then-ok_iff m k f g = (
  λ h. (f.0 (ground arith), g.0 (ground arith)),
  λ (x, y). let ea = f.1 x in let eb = g.1 y in ground arith,
)

check_imports_iff : (is : List Import) → (check_imports is ≡ ok tt) ↔ All IsHostFunction is
unfolding check_imports
check_imports_iff [] = (λ _. tt, λ _. refl)
check_imports_iff (i ∷ is) = (
  λ h. ((is_known_iff i).0 (ground arith), (check_imports_iff is).0 (ground arith)),
  λ (x, y). let ea = (is_known_iff i).1 x in let eb = (check_imports_iff is).1 y in ground arith,
)

skipped : {A B : Type 0} → A ↔ B → A ↔ (Unit {0} × B)
skipped f = (λ h. (tt, f.0 h), λ (_, h). f.1 h)

pub check_payloads_iff : (ps : List Payload) → (check_payloads ps ≡ ok tt) ↔ All ImportsKnown ps
unfolding check_payloads
check_payloads_iff [] = (λ _. tt, λ _. refl)
check_payloads_iff (import_section is ∷ ps) =
    and_then-ok_iff (check_imports is) (check_payloads ps) (check_imports_iff is)
      (check_payloads_iff ps)
check_payloads_iff (function_section _ ∷ ps) = skipped (check_payloads_iff ps)
check_payloads_iff (global_section _ ∷ ps) = skipped (check_payloads_iff ps)
check_payloads_iff (export_section _ ∷ ps) = skipped (check_payloads_iff ps)
check_payloads_iff (table_section _ ∷ ps) = skipped (check_payloads_iff ps)
check_payloads_iff (memory_section _ ∷ ps) = skipped (check_payloads_iff ps)
check_payloads_iff (other_section ∷ ps) = skipped (check_payloads_iff ps)
