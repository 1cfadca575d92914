-- ===== src/Runtime/Memory.antt =====
-- The linear memory of a contract as the host functions of crates/zalkanes-runtime/src/lib.rs read
-- and write it. An `i32` is its 32-bit word; `as usize` on a 64-bit host extends the sign.
use zalkanes.Base.{
  ℕ, ◌+◌, ◌-◌, ◌≤◌, ◌<◌, min, ◌≡◌, refl, Option, some, none, ◌++◌, ltb, leb, if◌then◌else◌, length,
  take, drop, arith, length-append, false, length-take, length-drop, take-append, drop-append,
}
use zalkanes.Base.Bytes.{Bytes}

abbrev pub usize_bound : ℕ
usize_bound = 18446744073709551616

unfoldable pub as_usize : ℕ → ℕ
as_usize n = if ltb n 2147483648 then n else n + 18446744069414584320

unfoldable pub saturating_add : ℕ → ℕ → ℕ
saturating_add a b = min (a + b) 18446744073709551615

-- `data[s..e].to_vec()` behind the test `e > data.len()`.
unfoldable pub read_range : Bytes → ℕ → ℕ → Option Bytes
unfolding as_usize saturating_add
read_range bytes ptr len =
    let s = as_usize ptr in
    let e = saturating_add s (as_usize len) in
    if ltb (length bytes) e then none else some (take (e - s) (drop s bytes))

-- `data[dst..end].copy_from_slice(v)` behind `checked_add` and the test `end > data.len()`.
unfoldable pub write_range : Bytes → ℕ → Bytes → Option Bytes
unfolding as_usize
write_range bytes ptr v =
    let dst = as_usize ptr in
    let end = dst + length v in
    if leb usize_bound end
    then none
    else if ltb (length bytes) end
    then none
    else some (take dst bytes ++ (v ++ drop end bytes))

-- A range that is read ends within the memory.
read_range-some :
    (bytes : Bytes) (ptr len : ℕ) {v : Bytes}
    → read_range bytes ptr len ≡ some v
    → (saturating_add (as_usize ptr) (as_usize len) ≤ length bytes)
      × (v
          ≡ take
              (saturating_add (as_usize ptr) (as_usize len) - as_usize ptr)
              (drop (as_usize ptr) bytes))
unfolding read_range
read_range-some bytes ptr len h = (ground arith, ground arith)

as_usize_small : (n : ℕ) → n < 2147483648 → as_usize n ≡ n
unfolding as_usize
as_usize_small n h = ground arith

pub length-read_range :
    (bytes : Bytes) (ptr len : ℕ) {v : Bytes}
    → len < 2147483648
    → read_range bytes ptr len ≡ some v
    → length v ≤ len
unfolding saturating_add
length-read_range bytes ptr len {v} hl h =
    let e = (read_range-some bytes ptr len h).1 in
    let n =
      length-take (saturating_add (as_usize ptr) (as_usize len) - as_usize ptr)
        (drop (as_usize ptr) bytes) in
    let small = as_usize_small len hl in
    let m : length v
        ≡ min (saturating_add (as_usize ptr) (as_usize len) - as_usize ptr)
            (length (drop (as_usize ptr) bytes)) =
      rw e n in
    omega arith

write_range-some :
    (bytes : Bytes) (ptr : ℕ) (v : Bytes) {bytes' : Bytes}
    → write_range bytes ptr v ≡ some bytes'
    → (as_usize ptr + length v < 18446744073709551616)
      × (as_usize ptr + length v ≤ length bytes)
      × (bytes' ≡ take (as_usize ptr) bytes ++ (v ++ drop (as_usize ptr + length v) bytes))
unfolding write_range
write_range-some bytes ptr v h = (ground arith, ground arith, ground arith)

length_splice :
    (n : ℕ) (v bytes : Bytes)
    → n + length v ≤ length bytes
    → length (take n bytes ++ (v ++ drop (n + length v) bytes)) ≡ length bytes
length_splice n v bytes h =
    let a = length-append (take n bytes) (v ++ drop (n + length v) bytes) in
    let b = length-append v (drop (n + length v) bytes) in
    omega (arith, length-take n bytes, length-drop (n + length v) bytes)

-- A write keeps the memory's length.
pub length-write_range :
    (bytes : Bytes) (ptr : ℕ) (v : Bytes) {bytes' : Bytes}
    → write_range bytes ptr v ≡ some bytes'
    → length bytes' ≡ length bytes
length-write_range bytes ptr v h =
    let (_, fits, e) = write_range-some bytes ptr v h in
    rw e (length_splice (as_usize ptr) v bytes fits)

-- What was written is read back.
pub read-write_range :
    (bytes : Bytes) (ptr : ℕ) (v : Bytes) {bytes' : Bytes}
    → length v < 2147483648
    → write_range bytes ptr v ≡ some bytes'
    → read_range bytes' ptr (length v) ≡ some v
unfolding read_range saturating_add
read-write_range bytes ptr v {bytes'} hv h =
    let (bound, fits, e) = write_range-some bytes ptr v h in
    let l = length-write_range bytes ptr v h in
    let p = as_usize ptr in
    let small = as_usize_small (length v) hv in
    let sum : min (p + as_usize (length v)) 18446744073709551615 ≡ p + length v = omega arith in
    let test : ltb (length bytes') (p + length v) ≡ false = ground arith in
    let front : length (take p bytes) ≡ p = omega (arith, length-take p bytes) in
    let diff : p + length v - p ≡ length v = omega arith in
    rw
      (
        sum,
        test,
        diff,
        e,
        drop-append p (take p bytes) (v ++ drop (p + length v) bytes) front,
        take-append (length v) v (drop (p + length v) bytes) refl,
      )
      refl
