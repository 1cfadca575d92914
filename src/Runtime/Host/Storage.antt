-- ===== src/Runtime/Host/Storage.antt =====
-- The storage host functions of crates/zalkanes-runtime/src/lib.rs as one read-write store.
use zalkanes.Base.{
  ℕ, ◌+◌, ◌%◌, ◌≤◌, ◌<◌, ◌≡◌, ap, ◌++◌, take, drop, refl, ◌∙◌, Option, some, none, ltb, length,
  arith, on_if, on_option, ◌⊎◌, inl, inr,
}
use zalkanes.Base.Bytes.{Bytes}
use zalkanes.Base.Order.{bytes_order}
use zalkanes.Base.OrdMap.{lookup, insert, lookup-insert}
use zalkanes.Runtime.{HostState}
use zalkanes.Runtime.Memory.{as_usize, read_range, write_range}
use zalkanes.Runtime.Host.{
  Reply, refuse, storage_get, storage_set, storage_delete, read_through, is_full_for,
}
use zalkanes.Runtime.Host.Bounds.{guarded}

-- What a `storage_set` that answers 0 has read and recorded.
abbrev HasSet : HostState → Bytes → ℕ → ℕ → ℕ → ℕ → Reply → Type 0
HasSet h bytes kp kl vp vl r =
    r.code ≡ 0
    → (key : Bytes) × (val : Bytes) × (read_range bytes kp kl ≡ some key)
      × (read_range bytes vp vl ≡ some val)
      × (length val ≤ 65536)
      × (r.host ≡ record h { overlay = insert key (some val) h.overlay })

storage_set-HasSet :
    (h : HostState) (bytes : Bytes) (kp kl vp vl : ℕ)
    → HasSet h bytes kp kl vp vl (storage_set h (some bytes) kp kl vp vl)
unfolding storage_set
storage_set-HasSet h bytes kp kl vp vl =
    on_if P (ltb 256 kl) (λ _ z. absurd (omega arith))
      λ hk.
        on_if P (ltb 65536 vl) (λ _ z. absurd (omega arith))
          λ hv.
            on_option P (read_range bytes kp kl) (λ _ z. absurd (omega arith))
              λ key rk.
                on_option P (read_range bytes vp vl) (λ _ z. absurd (omega arith))
                  λ val rv.
                    on_if P (is_full_for h key) (λ _ z. absurd (omega arith))
                      λ room z.
                        (key, val, rk, rv, guarded bytes vp vl 65536 (omega arith) hv rv, refl)
  where
    P : Reply → Type 0
    P = HasSet h bytes kp kl vp vl

-- The answer to a read of a key that holds `val`, for a place `out` in the memory: -1 with nothing
-- changed exactly where the value does not fit there, and otherwise its length, with the value in
-- that place and the bytes in front of it and behind it as they were.
abbrev pub Reads : HostState → Bytes → ℕ → Bytes → Reply → Type 0
Reads h bytes out val r =
    ((length bytes < as_usize out + length val) × (r ≡ refuse h (some bytes)))
    ⊎ ((as_usize out + length val ≤ length bytes)
        × (r.code ≡ length val)
        × (r.host ≡ h)
        × (r.memory
            ≡ some (take (as_usize out) bytes ++ (val ++ drop (as_usize out + length val) bytes))))

storage_get-found :
    (h : HostState) (bytes key val : Bytes) (kp kl out : ℕ)
    → length val ≤ 65536
    → length bytes ≤ 4294967296
    → read_range bytes kp kl ≡ some key
    → read_through h key ≡ some val
    → Reads h bytes out val (storage_get h (some bytes) kp kl out)
unfolding storage_get write_range
storage_get-found h bytes key val kp kl out small mem rk rt =
    let copy : Reads h bytes out val (elim (write_range bytes out val) [
      | none ↦ refuse h (some bytes)
      | some bytes' ↦ record { code = length val % 4294967296; memory = some bytes'; host = h }
    ]) =
      on_option (Reads h bytes out val) (write_range bytes out val) (λ e. inl (ground arith, refl))
        (λ bytes' w. inr (ground arith, omega arith, refl, ap some (ground arith))) in
    rw (rk, rt, storage_get) copy

read_through-insert :
    (h : HostState) (key : Bytes) (v : Option Bytes)
    → read_through (record h { overlay = insert key v h.overlay }) key ≡ v
unfolding read_through
read_through-insert h key v =
    let e : lookup key (insert key v h.overlay) ≡ some v =
      rw (lookup-insert key v key h.overlay, bytes_order.cmp_refl key) refl in
    rw (e, read_through) refl

-- After a `storage_set` that answers 0 there is a value, the one at the place it was given, of at most
-- 65536 bytes, such that a `storage_get` of the same key, from whatever memory of at most 4 GiB the
-- contract then has, answers -1 and changes nothing if the value does not fit at the place asked
-- for, and otherwise answers its length and copies it there and nowhere else.
pub storage_get-set :
    (h : HostState) (bytes bytes' : Bytes) (kp kl vp vl kp' kl' out : ℕ)
    → (storage_set h (some bytes) kp kl vp vl).code ≡ 0
    → read_range bytes' kp' kl' ≡ read_range bytes kp kl
    → length bytes' ≤ 4294967296
    → (val : Bytes) × (read_range bytes vp vl ≡ some val)
      × (length val ≤ 65536)
      × Reads
          (storage_set h (some bytes) kp kl vp vl).host
          bytes'
          out
          val
          (storage_get (storage_set h (some bytes) kp kl vp vl).host (some bytes') kp' kl' out)
storage_get-set h bytes bytes' kp kl vp vl kp' kl' out z same_key mem =
    let (key, val, rk, rv, small, e) = storage_set-HasSet h bytes kp kl vp vl z in
    let found : read_through (storage_set h (some bytes) kp kl vp vl).host key ≡ some val =
      rw e (read_through-insert h key (some val)) in
    (
      val,
      rv,
      small,
      storage_get-found (storage_set h (some bytes) kp kl vp vl).host bytes' key val kp' kl' out
          small mem (same_key ∙ rk) found,
    )

-- What a `storage_delete` that answers 0 has read and recorded.
abbrev HasDeleted : HostState → Bytes → ℕ → ℕ → Reply → Type 0
HasDeleted h bytes kp kl r =
    r.code ≡ 0
    → (key : Bytes) × (read_range bytes kp kl ≡ some key)
      × (r.host ≡ record h { overlay = insert key none h.overlay })

storage_delete-HasDeleted :
    (h : HostState) (bytes : Bytes) (kp kl : ℕ)
    → HasDeleted h bytes kp kl (storage_delete h (some bytes) kp kl)
unfolding storage_delete
storage_delete-HasDeleted h bytes kp kl =
    on_if P (ltb 256 kl) (λ _ z. absurd (omega arith))
      λ hk.
        on_option P (read_range bytes kp kl) (λ _ z. absurd (omega arith))
          λ key rk.
            on_if P (is_full_for h key) (λ _ z. absurd (omega arith)) λ room z. (key, rk, refl)
  where
    P : Reply → Type 0
    P = HasDeleted h bytes kp kl

-- After a `storage_delete` that answers 0, a `storage_get` of the same key answers -1 and leaves the
-- memory alone.
pub storage_get-delete :
    (h : HostState) (bytes bytes' : Bytes) (kp kl kp' kl' out : ℕ)
    → (storage_delete h (some bytes) kp kl).code ≡ 0
    → read_range bytes' kp' kl' ≡ read_range bytes kp kl
    → storage_get (storage_delete h (some bytes) kp kl).host (some bytes') kp' kl' out
      ≡ refuse (storage_delete h (some bytes) kp kl).host (some bytes')
unfolding storage_get
storage_get-delete h bytes bytes' kp kl kp' kl' out z same_key =
    let (key, rk, e) = storage_delete-HasDeleted h bytes kp kl z in
    let gone : read_through (storage_delete h (some bytes) kp kl).host key ≡ none =
      rw e (read_through-insert h key none) in
    let read : read_range bytes' kp' kl' ≡ some key = same_key ∙ rk in
    rw (read, gone, storage_get) refl
