-- ===== src/Runtime/Host/Input.antt =====
-- `input_read` of crates/zalkanes-runtime/src/lib.rs: when it panics and what it copies.
use zalkanes.Base.{
  ℕ, ◌+◌, ◌-◌, ◌%◌, min, ◌≤◌, ◌<◌, ◌≡◌, refl, Option, some, none, true, false, ltb, leb, ◌↔◌,
  length, take, drop, arith, length-take, length-drop, take-min, on_option, ◌⊎◌, inl, inr,
}
use zalkanes.Base.Bytes.{Bytes}
use zalkanes.Runtime.{HostState}
use zalkanes.Runtime.Memory.{as_usize, read_range, write_range, read-write_range}
use zalkanes.Runtime.Host.{Reply, minus_one, input_read, copy_input}

abbrev pub Word : ℕ → Type 0
Word n = n < 4294967296

-- For 32-bit words and an input that fits in memory, `input_read` panics exactly when the offset lies
-- within the input and the sum of offset and length, both sign-extended, reaches 2^64.
pub input_read-panics_iff :
    (h : HostState) (mem : Option Bytes) (out offset len : ℕ)
    → Word offset
    → Word len
    → length h.input < 18446744073709551616
    → (input_read h mem out offset len ≡ none) ↔ (
        (as_usize offset < length h.input)
        × (18446744073709551616 ≤ as_usize offset + as_usize len))
unfolding input_read as_usize
input_read-panics_iff h mem out offset len wo wl hi = ground arith

-- What the slice of `input_read` leaves.
abbrev pub Copies : ℕ → Bytes → Bytes → Reply → Type 0
Copies out bytes slice r =
    ((r.code ≡ minus_one) × (r.memory ≡ some bytes))
    ⊎ ((r.code ≡ length slice)
        × ((bytes' : Bytes) × (r.memory ≡ some bytes')
            × (read_range bytes' out r.code ≡ some slice)))

copy_input-Copies :
    (h : HostState) (bytes : Bytes) (out : ℕ) (slice : Bytes)
    → length slice < 2147483648
    → Copies out bytes slice (copy_input h (some bytes) out slice)
unfolding copy_input
copy_input-Copies h bytes out slice small =
    on_option (Copies out bytes slice) (write_range bytes out slice) (λ _. inl (refl, refl))
      λ bytes' w.
        let e : length slice % 4294967296 ≡ length slice = omega arith in
        inr (e, (bytes', refl, rw e (read-write_range bytes out slice small w)))

input_read-copy_input :
    (h : HostState) (mem : Option Bytes) (out offset len : ℕ)
    → offset < length h.input
    → length h.input < 2147483648
    → len < 2147483648
    → input_read h mem out offset len ≡ some (copy_input h mem out (take len (drop offset h.input)))
unfolding input_read as_usize
input_read-copy_input h mem out offset len ho hi hl =
    let test : leb (length h.input) offset ≡ false = ground arith in
    let small_offset : ltb offset 2147483648 ≡ true = ground arith in
    let small_len : ltb len 2147483648 ≡ true = ground arith in
    let wrap : (offset + len) % 18446744073709551616 ≡ offset + len = omega arith in
    let order : ltb (min (length h.input) (offset + len)) offset ≡ false = ground arith in
    let cut : min (length h.input) (offset + len) - offset
        ≡ min len (length (drop offset h.input)) =
      omega (arith, length-drop offset h.input) in
    rw (small_offset, small_len, test, wrap, order, cut, take-min len (drop offset h.input)) refl

-- For a non-negative offset within an input below 2^31 bytes and a non-negative length, `input_read`
-- does not panic: it answers -1 and leaves the memory alone, or it answers the length of the part of
-- the input from the offset on, cut to the length asked for, and copies that part to the memory.
pub input_read-Copies :
    (h : HostState) (bytes : Bytes) (out offset len : ℕ)
    → offset < length h.input
    → length h.input < 2147483648
    → len < 2147483648
    → (r : Reply) × (input_read h (some bytes) out offset len ≡ some r)
      × Copies out bytes (take len (drop offset h.input)) r
input_read-Copies h bytes out offset len ho hi hl =
    let slice = take len (drop offset h.input) in
    let small : length slice < 2147483648 =
      omega (arith, length-take len (drop offset h.input), length-drop offset h.input) in
    (
      copy_input h (some bytes) out slice,
      input_read-copy_input h (some bytes) out offset len ho hi hl,
      copy_input-Copies h bytes out slice small,
    )
