-- ===== src/Runtime/Validate/Accepted.antt =====
-- What `validate_module` of crates/zalkanes-runtime/src/lib.rs accepts.
use Prim.Native.String.{String}
use zalkanes.Base.{
  ℕ, ◌%◌, ◌^◌, ◌≤◌, ◌≡◌, ◌↔◌, ◌∙◌, List, length, All, Result, ok, and_then, and_then-ok, arith,
}
use zalkanes.Base.Bytes.{Bytes}
use zalkanes.Runtime.{Validity}
use zalkanes.Runtime.Validate.{
  Payload, ModuleCounts, no_counts, count_payloads, check_payloads, check_counts, limit,
  validate_module,
}
use zalkanes.Runtime.Validate.Counted.{
  total, functions_in, globals_in, imports_last, exports_last, MemoryFits, TablesFit,
  functions-count_payloads, globals-count_payloads, imports-count_payloads, exports-count_payloads,
}
use zalkanes.Runtime.Validate.Sizes.{count_payloads-pages, count_payloads-elements}
use zalkanes.Runtime.Validate.Known.{ImportsKnown, and_then-ok_iff, check_payloads_iff}

-- The sections of a module within the limits of the protocol.
pub record CountsFit (ps : List Payload) : Type 0 where
  pub functions : total functions_in ps ≤ 4096
  pub globals : total globals_in ps ≤ 512
  pub imports : imports_last 0 ps ≤ 64
  pub exports : exports_last 0 ps ≤ 64
  pub memory : All (MemoryFits 256) ps
  pub tables : All (TablesFit 16384) ps

limit_iff :
    (count bound : ℕ) (before after : String) {n : ℕ}
    → count ≡ n
    → (limit count bound before after ≡ ok tt) ↔ (n ≤ bound)
unfolding limit
limit_iff count bound before after e = (λ h. ground arith, λ h. ground arith)

limit-All_iff :
    (count bound : ℕ) (before after : String) {A : Type 0}
    → (count ≤ bound) ↔ ((0 ≤ bound) × A)
    → (limit count bound before after ≡ ok tt) ↔ A
unfolding limit
limit-All_iff count bound before after f =
    (λ h. (f.0 (ground arith)).1, λ a. let small = f.1 (omega arith, a) in ground arith)

check_counts_iff :
    (ps : List Payload) → (check_counts (count_payloads no_counts ps) ≡ ok tt) ↔ CountsFit ps
unfolding check_counts
check_counts_iff ps = (
  λ h.
      let (f, (g, (i, (e, (m, t))))) = each.0 h in
      record { functions = f; globals = g; imports = i; exports = e; memory = m; tables = t },
  λ v. each.1 (v.functions, (v.globals, (v.imports, (v.exports, (v.memory, v.tables))))),
)
  where
    c : ModuleCounts
    c = count_payloads no_counts ps

    functions_counted : c.funcs ≡ total functions_in ps
    functions_counted = functions-count_payloads no_counts ps ∙ omega arith

    globals_counted : c.globals ≡ total globals_in ps
    globals_counted = globals-count_payloads no_counts ps ∙ omega arith

    each : (check_counts c ≡ ok tt) ↔ (
        (total functions_in ps ≤ 4096)
        × ((total globals_in ps ≤ 512)
            × ((imports_last 0 ps ≤ 64)
                × ((exports_last 0 ps ≤ 64)
                    × (All (MemoryFits 256) ps × All (TablesFit 16384) ps)))))
    each = and_then-ok_iff _ _ (limit_iff c.funcs 4096 _ _ functions_counted) (
        and_then-ok_iff _ _ (limit_iff c.globals 512 _ _ globals_counted) (
          and_then-ok_iff _ _ (limit_iff c.imports 64 _ _ (imports-count_payloads no_counts ps)) (
            and_then-ok_iff _ _ (limit_iff c.exports 64 _ _ (exports-count_payloads no_counts ps)) (
              and_then-ok_iff _ _
                (limit-All_iff c.max_memory_pages 256 _ _ (count_payloads-pages 256 no_counts ps))
                (limit-All_iff c.max_table_elems 16384 _ _
                  (count_payloads-elements 16384 no_counts ps))))))

-- A module is accepted exactly when it parses, its length cut to 32 bits is at most 262144, and its
-- sections can be read and fit: at most 4096 functions and 512 globals, declared and imported ones
-- together, at most 64 imports in the last import section and 64 exports in the last export section,
-- no memory that starts with more than 256 pages and no table with more than 16384 elements, declared
-- or imported, and every import a function of the module `env` with one of the host's six names.
pub validate_module-accepted_iff :
    (parse_module : Bytes → Validity) (parse_all : Bytes → Result (List Payload) String)
    (wasm : Bytes)
    → (validate_module parse_module parse_all wasm ≡ ok tt) ↔ (
        (length wasm % 2 ^ 32 ≤ 262144)
        × (parse_module wasm ≡ ok tt)
        × ((payloads : List Payload) × (parse_all wasm ≡ ok payloads)
            × CountsFit payloads
            × All ImportsKnown payloads))
unfolding validate_module
validate_module-accepted_iff parse_module parse_all wasm = (
  λ h.
      let small : (length wasm % 2 ^ 32 ≤ 262144)
          × (and_then (parse_module wasm) (λ _. and_then (parse_all wasm) λ payloads.
                and_then (check_counts (count_payloads no_counts payloads))
                  λ _. check_payloads payloads)
              ≡ ok tt) =
        ground arith in
      let (_, parsed, h1) = and_then-ok _ _ small.1 in
      let (payloads, read, h2) = and_then-ok _ _ h1 in
      let (counted, known) = (sections payloads).0 h2 in
      (small.0, parsed, (payloads, read, counted, known)),
  λ (short, parsed, (payloads, read, counted, known)).
      let checked = (sections payloads).1 (counted, known) in ground (arith, checked),
)
  where
    sections :
        (ps : List Payload)
        → (and_then (check_counts (count_payloads no_counts ps)) (λ _. check_payloads ps) ≡ ok tt)
          ↔ (CountsFit ps × All ImportsKnown ps)
    sections ps = and_then-ok_iff _ _ (check_counts_iff ps) (check_payloads_iff ps)
