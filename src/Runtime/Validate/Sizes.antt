-- ===== src/Runtime/Validate/Sizes.antt =====
-- The largest memory and table that `count_module_entities` of crates/zalkanes-runtime/src/lib.rs
-- finds are within a bound exactly when each of them is.
use zalkanes.Base.{ℕ, ◌≤◌, ◌↔◌, max, List, [], ◌∷◌, length, All, arith}
use zalkanes.Runtime.Validate.{
  TypeRef, func, global, tag, table, memory, Import, Payload, import_section, function_section,
  global_section, export_section, table_section, memory_section, other_section, ModuleCounts,
  count_import, count_imports, max_all, count_payload, count_payloads,
}
use zalkanes.Runtime.Validate.Counted.{PagesFit, ElementsFit, MemoryFits, TablesFit}

-- Whether the bound holds of what the loop holds before and of every element, and of what it holds
-- after.
abbrev Bounds : ℕ → ℕ → ℕ → Type 0 → Type 0
Bounds bound before after P = (after ≤ bound) ↔ ((before ≤ bound) × P)

-- One round, then the others.
then_bounds :
    (bound a b c : ℕ) (P Q : Type 0)
    → Bounds bound a b P
    → Bounds bound b c Q
    → Bounds bound a c (P × Q)
then_bounds bound a b c P Q one rest = (
  λ h. let (hb, q) = rest.0 h in let (ha, p) = one.0 hb in (ha, (p, q)),
  λ (ha, (p, q)). rest.1 (one.1 (ha, p), q),
)

same_bound : (bound a : ℕ) → Bounds bound a a Unit
same_bound bound a = (λ h. (h, tt), λ (h, _). h)

max_bound : (bound a n : ℕ) → Bounds bound a (max a n) (n ≤ bound)
max_bound bound a n = (λ h. (omega arith, omega arith), λ (h, k). omega arith)

max_all-Bounds :
    (bound m : ℕ) (ns : List ℕ) → Bounds bound m (max_all m ns) (All (λ n. n ≤ bound) ns)
unfolding max_all
max_all-Bounds bound m [] = same_bound bound m
max_all-Bounds bound m (n ∷ ns) =
    then_bounds bound m (max m n) (max_all (max m n) ns) _ _ (max_bound bound m n)
      (max_all-Bounds bound (max m n) ns)

module _ (bound : ℕ) where
  count_import-pages :
      (c : ModuleCounts) (t : TypeRef)
      → Bounds bound c.max_memory_pages (count_import c t).max_memory_pages (PagesFit bound t)
  unfolding count_import
  count_import-pages c func = same_bound bound _
  count_import-pages c global = same_bound bound _
  count_import-pages c tag = same_bound bound _
  count_import-pages c (table initial) = same_bound bound _
  count_import-pages c (memory initial) = max_bound bound c.max_memory_pages initial

  count_import-elements :
      (c : ModuleCounts) (t : TypeRef)
      → Bounds bound c.max_table_elems (count_import c t).max_table_elems (ElementsFit bound t)
  unfolding count_import
  count_import-elements c func = same_bound bound _
  count_import-elements c global = same_bound bound _
  count_import-elements c tag = same_bound bound _
  count_import-elements c (table initial) = max_bound bound c.max_table_elems initial
  count_import-elements c (memory initial) = same_bound bound _

  count_imports-pages :
      (c : ModuleCounts) (is : List Import)
      → Bounds bound c.max_memory_pages
          (count_imports c is).max_memory_pages
          (All (λ i. PagesFit bound i.ty) is)
  unfolding count_imports
  count_imports-pages c [] = same_bound bound _
  count_imports-pages c (i ∷ is) =
      then_bounds bound c.max_memory_pages (count_import c i.ty).max_memory_pages
        (count_imports (count_import c i.ty) is).max_memory_pages _ _ (count_import-pages c i.ty)
        (count_imports-pages (count_import c i.ty) is)

  count_imports-elements :
      (c : ModuleCounts) (is : List Import)
      → Bounds bound c.max_table_elems
          (count_imports c is).max_table_elems
          (All (λ i. ElementsFit bound i.ty) is)
  unfolding count_imports
  count_imports-elements c [] = same_bound bound _
  count_imports-elements c (i ∷ is) =
      then_bounds bound c.max_table_elems (count_import c i.ty).max_table_elems
        (count_imports (count_import c i.ty) is).max_table_elems _ _ (count_import-elements c i.ty)
        (count_imports-elements (count_import c i.ty) is)

  count_payload-pages :
      (c : ModuleCounts) (p : Payload)
      → Bounds bound c.max_memory_pages (count_payload c p).max_memory_pages (MemoryFits bound p)
  unfolding count_payload
  count_payload-pages c (import_section is) =
      count_imports-pages (record c { imports = length is }) is
  count_payload-pages c (function_section count) = same_bound bound _
  count_payload-pages c (global_section count) = same_bound bound _
  count_payload-pages c (export_section count) = same_bound bound _
  count_payload-pages c (table_section initial) = same_bound bound _
  count_payload-pages c (memory_section initial) = max_all-Bounds bound c.max_memory_pages initial
  count_payload-pages c other_section = same_bound bound _

  count_payload-elements :
      (c : ModuleCounts) (p : Payload)
      → Bounds bound c.max_table_elems (count_payload c p).max_table_elems (TablesFit bound p)
  unfolding count_payload
  count_payload-elements c (import_section is) =
      count_imports-elements (record c { imports = length is }) is
  count_payload-elements c (function_section count) = same_bound bound _
  count_payload-elements c (global_section count) = same_bound bound _
  count_payload-elements c (export_section count) = same_bound bound _
  count_payload-elements c (table_section initial) = max_all-Bounds bound c.max_table_elems initial
  count_payload-elements c (memory_section initial) = same_bound bound _
  count_payload-elements c other_section = same_bound bound _

  pub count_payloads-pages :
      (c : ModuleCounts) (ps : List Payload)
      → ((count_payloads c ps).max_memory_pages ≤ bound)
        ↔ ((c.max_memory_pages ≤ bound) × All (MemoryFits bound) ps)
  unfolding count_payloads
  count_payloads-pages c [] = same_bound bound _
  count_payloads-pages c (p ∷ ps) =
      then_bounds bound c.max_memory_pages (count_payload c p).max_memory_pages
        (count_payloads (count_payload c p) ps).max_memory_pages _ _ (count_payload-pages c p)
        (count_payloads-pages (count_payload c p) ps)

  pub count_payloads-elements :
      (c : ModuleCounts) (ps : List Payload)
      → ((count_payloads c ps).max_table_elems ≤ bound)
        ↔ ((c.max_table_elems ≤ bound) × All (TablesFit bound) ps)
  unfolding count_payloads
  count_payloads-elements c [] = same_bound bound _
  count_payloads-elements c (p ∷ ps) =
      then_bounds bound c.max_table_elems (count_payload c p).max_table_elems
        (count_payloads (count_payload c p) ps).max_table_elems _ _ (count_payload-elements c p)
        (count_payloads-elements (count_payload c p) ps)
