-- ===== src/Runtime/Host/Bounds.antt =====
-- Resource bounds that the host functions of crates/zalkanes-runtime/src/lib.rs keep.
use zalkanes.Base.{
  ℕ, ◌+◌, ◌%◌, min, ◌≤◌, ◌<◌, ◌≡◌, refl, Option, some, none, false, ltb, leb, length, All, arith,
  on_if, on_option,
}
use zalkanes.Base.Bytes.{Bytes, to_be_32}
use zalkanes.Base.Order.{bytes_order}
use zalkanes.Base.OrdMap.{insert, IsSorted, insert-IsSorted, length-insert, All-insert}
use zalkanes.Runtime.{HostState}
use zalkanes.Runtime.Memory.{as_usize, usize_bound, read_range, write_range, length-read_range}
use zalkanes.Runtime.Host.{
  Reply, HostCall, call_get, call_set, call_delete, call_output, call_height, call_input, run_host,
  storage_get, storage_set, storage_delete, output_write, context_block_height, input_read,
  copy_input, is_full_for, read_through,
}

-- An entry within the key and value limits.
abbrev pub EntryFits : Bytes × Option Bytes → Type 0
EntryFits (key, some v) = (length key ≤ 256) × (length v ≤ 65536)
EntryFits (key, none) = (length key ≤ 256) × Unit

-- The overlay is a map of at most 256 entries within their limits, and the output is within its own.
abbrev pub IsBounded : HostState → Type 0
IsBounded h =
    IsSorted h.overlay
    × (length h.overlay ≤ 256)
    × All EntryFits h.overlay
    × (length h.output ≤ 65536)

insert-IsBounded :
    (h : HostState) (key : Bytes) (v : Option Bytes)
    → is_full_for h key ≡ false
    → EntryFits (key, v)
    → IsBounded h
    → IsBounded (record h { overlay = insert key v h.overlay })
unfolding is_full_for
insert-IsBounded h key v room fits (sorted, count, all, out) =
    let l = length-insert key v h.overlay sorted in
    (
      insert-IsSorted key v h.overlay sorted,
      ground (arith, l),
      All-insert EntryFits key v h.overlay fits all,
      out,
    )

-- A step keeps the bounds and the contract that is called.
unfoldable pub Keeps : HostState → HostState → Type 0
Keeps h h' = IsBounded h → IsBounded h' × (h'.contract_id ≡ h.contract_id)

Keeps-refl : (h : HostState) → Keeps h h
unfolding Keeps
Keeps-refl h b = (b, refl)

Keeps-insert :
    (h : HostState) (key : Bytes) (v : Option Bytes)
    → is_full_for h key ≡ false
    → EntryFits (key, v)
    → Keeps h (record h { overlay = insert key v h.overlay })
unfolding Keeps
Keeps-insert h key v room fits b = (insert-IsBounded h key v room fits b, refl)

abbrev pub KeepsReply : HostState → Reply → Type 0
KeepsReply h r = Keeps h r.host

-- What a guard and a read leave: a byte string within the guard's bound.
pub guarded :
    (bytes : Bytes) (ptr len bound : ℕ) {v : Bytes}
    → bound < 2147483648
    → ltb bound len ≡ false
    → read_range bytes ptr len ≡ some v
    → length v ≤ bound
guarded bytes ptr len bound hb hl h =
    let small : len ≤ bound = ground arith in
    let l = length-read_range bytes ptr len (omega arith) h in omega arith

storage_set-Keeps :
    (h : HostState) (mem : Option Bytes) (kp kl vp vl : ℕ)
    → KeepsReply h (storage_set h mem kp kl vp vl)
unfolding storage_set
storage_set-Keeps h none kp kl vp vl = Keeps-refl h
storage_set-Keeps h (some bytes) kp kl vp vl =
    on_if (KeepsReply h) (ltb 256 kl) (λ _. Keeps-refl h)
      λ hk.
        on_if (KeepsReply h) (ltb 65536 vl) (λ _. Keeps-refl h)
          λ hv.
            on_option (KeepsReply h) (read_range bytes kp kl) (λ _. Keeps-refl h)
              λ key rk.
                on_option (KeepsReply h) (read_range bytes vp vl) (λ _. Keeps-refl h)
                  λ val rv.
                    on_if (KeepsReply h) (is_full_for h key) (λ _. Keeps-refl h)
                      λ room. Keeps-insert h key (some val) room (
                        guarded bytes kp kl 256 (omega arith) hk rk,
                        guarded bytes vp vl 65536 (omega arith) hv rv,
                      )

storage_delete-Keeps :
    (h : HostState) (mem : Option Bytes) (kp kl : ℕ) → KeepsReply h (storage_delete h mem kp kl)
unfolding storage_delete
storage_delete-Keeps h none kp kl = Keeps-refl h
storage_delete-Keeps h (some bytes) kp kl =
    on_if (KeepsReply h) (ltb 256 kl) (λ _. Keeps-refl h)
      λ hk.
        on_option (KeepsReply h) (read_range bytes kp kl) (λ _. Keeps-refl h)
          λ key rk.
            on_if (KeepsReply h) (is_full_for h key) (λ _. Keeps-refl h)
              λ room. Keeps-insert h key none room (guarded bytes kp kl 256 (omega arith) hk rk, tt)

storage_get-Keeps :
    (h : HostState) (mem : Option Bytes) (kp kl vp : ℕ) → KeepsReply h (storage_get h mem kp kl vp)
unfolding storage_get
storage_get-Keeps h none kp kl vp = Keeps-refl h
storage_get-Keeps h (some bytes) kp kl vp =
    on_option (KeepsReply h) (read_range bytes kp kl) (λ _. Keeps-refl h)
      λ key rk.
        on_option (KeepsReply h) (read_through h key) (λ _. Keeps-refl h)
          λ v rt.
            on_option (KeepsReply h) (write_range bytes vp v) (λ _. Keeps-refl h)
              λ _ _. Keeps-refl h

Keeps-output :
    (h : HostState) (out : Bytes) → length out ≤ 65536 → Keeps h (record h { output = out })
unfolding Keeps
Keeps-output h out l (sorted, count, all, _) = ((sorted, count, all, l), refl)

output_write-Keeps :
    (h : HostState) (mem : Option Bytes) (p l : ℕ) → KeepsReply h (output_write h mem p l)
unfolding output_write
output_write-Keeps h none p l = Keeps-refl h
output_write-Keeps h (some bytes) p l =
    on_if (KeepsReply h) (ltb 65536 l) (λ _. Keeps-refl h)
      λ hl.
        on_option (KeepsReply h) (read_range bytes p l) (λ _. Keeps-refl h)
          λ out r. Keeps-output h out (guarded bytes p l 65536 (omega arith) hl r)

height-Keeps :
    (h : HostState) (mem : Option Bytes) (p : ℕ) → KeepsReply h (context_block_height h mem p)
unfolding context_block_height
height-Keeps h none p = Keeps-refl h
height-Keeps h (some bytes) p =
    on_option (KeepsReply h) (write_range bytes p (to_be_32 h.block_height)) (λ _. Keeps-refl h)
      λ _ _. Keeps-refl h

copy_input-Keeps :
    (h : HostState) (mem : Option Bytes) (p : ℕ) (slice : Bytes)
    → KeepsReply h (copy_input h mem p slice)
unfolding copy_input
copy_input-Keeps h none p slice = Keeps-refl h
copy_input-Keeps h (some bytes) p slice =
    on_option (KeepsReply h) (write_range bytes p slice) (λ _. Keeps-refl h) λ _ _. Keeps-refl h

abbrev pub KeepsResult : HostState → Option Reply → Type 0
KeepsResult h none = Unit
KeepsResult h (some r) = KeepsReply h r

input_read-Keeps :
    (h : HostState) (mem : Option Bytes) (p off len : ℕ)
    → KeepsResult h (input_read h mem p off len)
unfolding input_read
input_read-Keeps h mem p off len =
    on_if (KeepsResult h) (leb (length h.input) (as_usize off)) (λ _. Keeps-refl h)
      λ _.
        on_if (KeepsResult h)
          (ltb (min (length h.input) ((as_usize off + as_usize len) % usize_bound)) (as_usize off))
          (λ _. tt) (λ _. copy_input-Keeps h mem p _)

-- Every host function keeps the bounds and the contract.
pub run_host-Keeps :
    (h : HostState) (mem : Option Bytes) (call : HostCall) → KeepsResult h (run_host h mem call)
unfolding run_host
run_host-Keeps h mem (call_get kp kl vp) = storage_get-Keeps h mem kp kl vp
run_host-Keeps h mem (call_set kp kl vp vl) = storage_set-Keeps h mem kp kl vp vl
run_host-Keeps h mem (call_delete kp kl) = storage_delete-Keeps h mem kp kl
run_host-Keeps h mem (call_output p l) = output_write-Keeps h mem p l
run_host-Keeps h mem (call_height p) = height-Keeps h mem p
run_host-Keeps h mem (call_input p off len) = input_read-Keeps h mem p off len
