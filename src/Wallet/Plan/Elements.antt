-- ===== src/Wallet/Plan/Elements.antt =====
-- The encodings of inputs, anchors, outputs and change, of crates/zalkanes-wallet/src/plan.rs.
use zalkanes.Base.{ℕ, ◌≡◌, ◌<◌, refl, Option, none, some, ◌++◌, arith}
use zalkanes.Base.Bytes.{Bytes}
use zalkanes.Wallet.Plan.{
  PlanInput, PlanOutput, PlanAnchor, PlanChange, input_bytes, anchor_bytes, output_bytes,
  change_bytes,
}
use zalkanes.Wallet.Plan.Encoding.{
  Splits, Is32Long, IsU16Long, Fits, byte-Splits, to_le-Splits, hash-Splits, counted-Splits, both,
}

abbrev pub IsInput : PlanInput → Type 0
IsInput i = Is32Long i.txid × (i.output_index < 4294967296) × (i.value < 18446744073709551616)

abbrev pub IsAnchor : PlanAnchor → Type 0
IsAnchor a = (a.height < 4294967296) × Is32Long a.root

abbrev pub IsOutput : PlanOutput → Type 0
IsOutput o = (o.value < 18446744073709551616) × IsU16Long o.script

pub four_bytes_lem : (n : ℕ) → n < 4294967296 → Fits 4 n
four_bytes_lem n h = omega arith

pub eight_bytes_lem : (n : ℕ) → n < 18446744073709551616 → Fits 8 n
eight_bytes_lem n h = omega arith

pub input_bytes-Splits : Splits input_bytes IsInput
unfolding input_bytes
input_bytes-Splits = record {
  split = λ a b x y (ta, ia, va) (tb, ib, vb) h.
      let (e, ex) =
        (both byte-Splits (both hash-Splits (both (to_le-Splits 4) (to_le-Splits 8)))).split
          (a.pool, (a.txid, (a.output_index, a.value)))
          (b.pool, (b.txid, (b.output_index, b.value))) x y
          (tt, (ta, (four_bytes_lem _ ia, eight_bytes_lem _ va)))
          (tt, (tb, (four_bytes_lem _ ib, eight_bytes_lem _ vb))) h in
      (
        λ i. record {
          pool = (e i).0;
          txid = (e i).1.0;
          output_index = (e i).1.1.0;
          value = (e i).1.1.1;
        },
        ex,
      );
}

pub anchor_bytes-Splits : Splits anchor_bytes IsAnchor
unfolding anchor_bytes
anchor_bytes-Splits = record {
  split = λ a b x y (ha, ra) (hb, rb) h.
      let (e, ex) =
        (both byte-Splits (both (to_le-Splits 4) hash-Splits)).split (a.pool, (a.height, a.root))
          (b.pool, (b.height, b.root)) x y (tt, (four_bytes_lem _ ha, ra))
          (tt, (four_bytes_lem _ hb, rb)) h in
      (λ i. record { pool = (e i).0; height = (e i).1.0; root = (e i).1.1 }, ex);
}

pub output_bytes-Splits : Splits output_bytes IsOutput
unfolding output_bytes
output_bytes-Splits = record {
  split = λ a b x y (va, sa) (vb, sb) h.
      let (e, ex) =
        (both (to_le-Splits 8) counted-Splits).split (a.value, a.script) (b.value, b.script) x y
          (eight_bytes_lem _ va, sa) (eight_bytes_lem _ vb, sb) h in
      (λ i. record { value = (e i).0; script = (e i).1 }, ex);
}

abbrev pub IsChange : Option PlanChange → Type 0
IsChange none = Unit
IsChange (some c) = (c.value < 18446744073709551616) × IsU16Long c.destination_bytes

change_split :
    (a b : Option PlanChange) (x y : Bytes)
    → IsChange a
    → IsChange b
    → change_bytes a ++ x ≡ change_bytes b ++ y
    → (a ≡ b) × (x ≡ y)
unfolding change_bytes
change_split none none x y va vb h = (refl, cc)
change_split none (some d) x y va vb h = let e : ◌≡◌ {A = ℕ} 0 1 = cc in absurd (omega (arith, e))
change_split (some c) none x y va vb h = let e : ◌≡◌ {A = ℕ} 1 0 = cc in absurd (omega (arith, e))
change_split (some c) (some d) x y (vc, dc) (vd, dd) h =
    let (e, ex) =
      (both byte-Splits (both (to_le-Splits 8) (both byte-Splits counted-Splits))).split
        (1, (c.value, (c.pool, c.destination_bytes))) (1, (d.value, (d.pool, d.destination_bytes)))
        x y (tt, (eight_bytes_lem _ vc, (tt, dc))) (tt, (eight_bytes_lem _ vd, (tt, dd))) h in
    (
      λ i. some record { value = (e i).1.0; pool = (e i).1.1.0; destination_bytes = (e i).1.1.1 },
      ex,
    )

pub change_bytes-Splits : Splits change_bytes IsChange
change_bytes-Splits = record { split = change_split }
