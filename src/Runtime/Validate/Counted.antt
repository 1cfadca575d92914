-- ===== src/Runtime/Validate/Counted.antt =====
-- The entities of a WASM module said section by section, and `count_module_entities` of
-- crates/zalkanes-runtime/src/lib.rs, which counts them in one pass.
use zalkanes.Base.{ℕ, ◌+◌, ◌≡◌, ◌≤◌, List, [], ◌∷◌, length, refl, ap, ◌∙◌, All, arith}
use zalkanes.Runtime.Validate.{
  TypeRef, func, global, tag, table, memory, Import, Payload, import_section, function_section,
  global_section, export_section, table_section, memory_section, other_section, ModuleCounts,
  count_import, count_imports, count_payload, count_payloads,
}

-- The sum over a list.
abbrev pub total : {A : Type 0} → (A → ℕ) → List A → ℕ
total f [] = 0
total f (x ∷ xs) = f x + total f xs

abbrev pub is_function : TypeRef → ℕ
is_function func = 1
is_function _ = 0

abbrev pub is_global : TypeRef → ℕ
is_global global = 1
is_global _ = 0

-- The functions and globals that a section declares or imports.
abbrev pub functions_in : Payload → ℕ
functions_in (function_section count) = count
functions_in (import_section is) = total (λ i. is_function i.ty) is
functions_in _ = 0

abbrev pub globals_in : Payload → ℕ
globals_in (global_section count) = count
globals_in (import_section is) = total (λ i. is_global i.ty) is
globals_in _ = 0

-- The length of the last import section, and the count of the last export section.
abbrev pub imports_last : ℕ → List Payload → ℕ
imports_last n [] = n
imports_last n (import_section is ∷ ps) = imports_last (length is) ps
imports_last n (_ ∷ ps) = imports_last n ps

abbrev pub exports_last : ℕ → List Payload → ℕ
exports_last n [] = n
exports_last n (export_section count ∷ ps) = exports_last count ps
exports_last n (_ ∷ ps) = exports_last n ps

abbrev pub PagesFit : ℕ → TypeRef → Type 0
PagesFit bound (memory initial) = initial ≤ bound
PagesFit bound _ = Unit

abbrev pub ElementsFit : ℕ → TypeRef → Type 0
ElementsFit bound (table initial) = initial ≤ bound
ElementsFit bound _ = Unit

-- Every memory, declared or imported, starts with at most so many pages; every table likewise.
abbrev pub MemoryFits : ℕ → Payload → Type 0
MemoryFits bound (memory_section initial) = All (λ n. n ≤ bound) initial
MemoryFits bound (import_section is) = All (λ i. PagesFit bound i.ty) is
MemoryFits bound _ = Unit

abbrev pub TablesFit : ℕ → Payload → Type 0
TablesFit bound (table_section initial) = All (λ n. n ≤ bound) initial
TablesFit bound (import_section is) = All (λ i. ElementsFit bound i.ty) is
TablesFit bound _ = Unit

functions-count_imports :
    (c : ModuleCounts) (is : List Import)
    → (count_imports c is).funcs ≡ c.funcs + total (λ i. is_function i.ty) is
unfolding count_imports count_import
functions-count_imports c [] = omega arith
functions-count_imports c (i ∷ is) =
    functions-count_imports (count_import c i.ty) is ∙ one i.ty (total (λ j. is_function j.ty) is)
  where
    one : (t : TypeRef) (n : ℕ) → (count_import c t).funcs + n ≡ c.funcs + (is_function t + n)
    one func n = omega arith
    one global n = omega arith
    one tag n = omega arith
    one (table initial) n = omega arith
    one (memory initial) n = omega arith

globals-count_imports :
    (c : ModuleCounts) (is : List Import)
    → (count_imports c is).globals ≡ c.globals + total (λ i. is_global i.ty) is
unfolding count_imports count_import
globals-count_imports c [] = omega arith
globals-count_imports c (i ∷ is) =
    globals-count_imports (count_import c i.ty) is ∙ one i.ty (total (λ j. is_global j.ty) is)
  where
    one : (t : TypeRef) (n : ℕ) → (count_import c t).globals + n ≡ c.globals + (is_global t + n)
    one func n = omega arith
    one global n = omega arith
    one tag n = omega arith
    one (table initial) n = omega arith
    one (memory initial) n = omega arith

pub functions-count_payloads :
    (c : ModuleCounts) (ps : List Payload)
    → (count_payloads c ps).funcs ≡ c.funcs + total functions_in ps
unfolding count_payloads count_payload
functions-count_payloads c [] = omega arith
functions-count_payloads c (p ∷ ps) =
    functions-count_payloads (count_payload c p) ps ∙ one p (total functions_in ps)
  where
    one : (q : Payload) (n : ℕ) → (count_payload c q).funcs + n ≡ c.funcs + (functions_in q + n)
    one (import_section is) n =
        omega (arith, functions-count_imports (record c { imports = length is }) is)
    one (function_section count) n = omega arith
    one (global_section count) n = omega arith
    one (export_section count) n = omega arith
    one (table_section initial) n = omega arith
    one (memory_section initial) n = omega arith
    one other_section n = omega arith

pub globals-count_payloads :
    (c : ModuleCounts) (ps : List Payload)
    → (count_payloads c ps).globals ≡ c.globals + total globals_in ps
unfolding count_payloads count_payload
globals-count_payloads c [] = omega arith
globals-count_payloads c (p ∷ ps) =
    globals-count_payloads (count_payload c p) ps ∙ one p (total globals_in ps)
  where
    one : (q : Payload) (n : ℕ) → (count_payload c q).globals + n ≡ c.globals + (globals_in q + n)
    one (import_section is) n =
        omega (arith, globals-count_imports (record c { imports = length is }) is)
    one (function_section count) n = omega arith
    one (global_section count) n = omega arith
    one (export_section count) n = omega arith
    one (table_section initial) n = omega arith
    one (memory_section initial) n = omega arith
    one other_section n = omega arith

-- The other two fields are those before the loop over an import section.
count_imports-kept :
    (c : ModuleCounts) (is : List Import)
    → ((count_imports c is).imports ≡ c.imports) × ((count_imports c is).exports ≡ c.exports)
unfolding count_imports count_import
count_imports-kept c [] = (refl, refl)
count_imports-kept c (i ∷ is) =
    let (a, b) = count_imports-kept (count_import c i.ty) is in
    let (a1, b1) = one i.ty in (a ∙ a1, b ∙ b1)
  where
    one :
        (t : TypeRef)
        → ((count_import c t).imports ≡ c.imports) × ((count_import c t).exports ≡ c.exports)
    one func = (refl, refl)
    one global = (refl, refl)
    one tag = (refl, refl)
    one (table initial) = (refl, refl)
    one (memory initial) = (refl, refl)

pub imports-count_payloads :
    (c : ModuleCounts) (ps : List Payload)
    → (count_payloads c ps).imports ≡ imports_last c.imports ps
unfolding count_payloads count_payload
imports-count_payloads c [] = refl
imports-count_payloads c (import_section is ∷ ps) =
    imports-count_payloads (count_imports (record c { imports = length is }) is) ps
    ∙ ap (λ n. imports_last n ps) (count_imports-kept (record c { imports = length is }) is).0
imports-count_payloads c (function_section count ∷ ps) = imports-count_payloads _ ps
imports-count_payloads c (global_section count ∷ ps) = imports-count_payloads _ ps
imports-count_payloads c (export_section count ∷ ps) = imports-count_payloads _ ps
imports-count_payloads c (table_section initial ∷ ps) = imports-count_payloads _ ps
imports-count_payloads c (memory_section initial ∷ ps) = imports-count_payloads _ ps
imports-count_payloads c (other_section ∷ ps) = imports-count_payloads c ps

pub exports-count_payloads :
    (c : ModuleCounts) (ps : List Payload)
    → (count_payloads c ps).exports ≡ exports_last c.exports ps
unfolding count_payloads count_payload
exports-count_payloads c [] = refl
exports-count_payloads c (import_section is ∷ ps) =
    exports-count_payloads (count_imports (record c { imports = length is }) is) ps
    ∙ ap (λ n. exports_last n ps) (count_imports-kept (record c { imports = length is }) is).1
exports-count_payloads c (function_section count ∷ ps) = exports-count_payloads _ ps
exports-count_payloads c (global_section count ∷ ps) = exports-count_payloads _ ps
exports-count_payloads c (export_section count ∷ ps) = exports-count_payloads _ ps
exports-count_payloads c (table_section initial ∷ ps) = exports-count_payloads _ ps
exports-count_payloads c (memory_section initial ∷ ps) = exports-count_payloads _ ps
exports-count_payloads c (other_section ∷ ps) = exports-count_payloads c ps
