-- ===== src/Tx/Plan/Balanced.antt =====
-- Where the value goes in the plans of crates/zalkanes-tx/src/lib.rs.
use zalkanes.Base.{
  ℕ, ◌≡◌, ◌<◌, ◌+◌, refl, ap, ap₂, subst, sym, ◌∙◌, List, [], ◌∷◌, ◌++◌, map, length, Result, ok,
  and_then-ok, arith, not, ◌||◌, ◌==◌, Bool-cases, inl, inr,
}
use zalkanes.Base.Bytes.{Bytes}
use zalkanes.Tx.Plan.{
  SigningKey, SpendInput, SpendOutput, PreparedTx, sum, sum_u64, checked_sub, sub_or_small,
  change_output, funding_input, funding_script, carrier_output, carrier_inputs, prepared,
  prepare_plan, deploy_fee, deployed, deploy_plan, called, call_plan,
}

sum-append : (xs ys : List ℕ) → sum (xs ++ ys) ≡ sum xs + sum ys
unfolding sum
sum-append [] ys = omega arith
sum-append (x ∷ xs) ys = omega (arith, sum-append xs ys)

sum_u64-sum : (xs : List ℕ) → sum xs < 18446744073709551616 → sum_u64 xs ≡ sum xs
unfolding sum_u64
sum_u64-sum xs h = omega arith

sub_or_small-ok : (a b v : ℕ) → sub_or_small a b ≡ ok v → a ≡ v + b
unfolding sub_or_small checked_sub
sub_or_small-ok a b v h = ground arith

abbrev pub output_values : List SpendOutput → List ℕ
output_values = map (λ o. o.value)

sum-change_output : (c : ℕ) (script : Bytes) → sum (output_values (change_output c script)) ≡ c
unfolding change_output sum
sum-change_output c script = ground arith

map-append_values :
    (xs ys : List SpendOutput) → output_values (xs ++ ys) ≡ output_values xs ++ output_values ys
map-append_values [] ys = refl
map-append_values (x ∷ xs) ys = ap (λ t. x.value ∷ t) (map-append_values xs ys)

ok-injective : {A E : Type 0} {a b : A} → ◌≡◌ {A = Result A E} (ok a) (ok b) → a ≡ b
ok-injective h = cc

module _ (hash160 : Bytes → Bytes) (O : Type 0) where
  abbrev pub input_values : List (SpendInput O) → List ℕ
  input_values = map (λ i. i.value)

  -- What goes in comes out, or is the fee; the change is what the outputs return, and the selected
  -- value is what goes in.
  pub record Balanced (p : PreparedTx O) : Type 0 where
    pub conserved : sum (input_values p.inputs) ≡ sum (output_values p.outputs) + p.fee
    pub selected : p.selected_value ≡ sum (input_values p.inputs)

  funding-values :
      (key : SigningKey) (us : List (O × ℕ))
      → input_values (map (funding_input hash160 O key) us) ≡ map (λ u. u.1) us
  funding-values key [] = refl
  funding-values key ((o, v) ∷ us) = ap (λ t. v ∷ t) (funding-values key us)

  carrier-values :
      (key : SigningKey) (vs : List ℕ) → output_values (map (carrier_output hash160 O key) vs) ≡ vs
  carrier-values key [] = refl
  carrier-values key (v ∷ vs) = ap (λ t. v ∷ t) (carrier-values key vs)

  carrier_inputs-values :
      (key : SigningKey) (i : ℕ) (os : List O) (vs : List ℕ) (cs : List Bytes)
      → length os ≡ length vs
      → length os ≡ length cs
      → input_values (carrier_inputs hash160 O key i os vs cs) ≡ vs
  unfolding carrier_inputs
  carrier_inputs-values key i [] [] cs h k = refl
  carrier_inputs-values key i [] (v ∷ vs) cs h k = absurd (omega arith)
  carrier_inputs-values key i (o ∷ os) [] cs h k = absurd (omega arith)
  carrier_inputs-values key i (o ∷ os) (v ∷ vs) [] h k = absurd (omega arith)
  carrier_inputs-values key i (o ∷ os) (v ∷ vs) (c ∷ cs) h k =
      ap (λ t. v ∷ t) (carrier_inputs-values key (i + 1) os vs cs (omega arith) (omega arith))

  prepared-Balanced :
      (key : SigningKey) (us : List (O × ℕ)) (vs : List ℕ) (fee : ℕ) (p : PreparedTx O)
      → sum (map (λ u. u.1) us) < 18446744073709551616
      → sum vs < 18446744073709551616
      → prepared hash160 O key us vs fee ≡ ok p
      → Balanced p
  unfolding prepared
  prepared-Balanced key us vs fee p hu hv h =
      let (v, hv', h') =
        and_then-ok (sub_or_small (sum_u64 (map (λ u. u.1) us)) (sum_u64 vs)) _ h in
      let (change, hc, h'') = and_then-ok (sub_or_small v fee) _ h' in
      let eu = sum_u64-sum (map (λ u. u.1) us) hu in
      let ev = sum_u64-sum vs hv in
      let a = sub_or_small-ok _ _ v hv' in
      let b = sub_or_small-ok v fee change hc in
      subst Balanced (ok-injective h'') record {
        conserved =
            ap sum (funding-values key us)
            ∙ (omega (arith, eu, ev, a, b)
                ∙ ap (λ t. t + fee)
                    (sym (
                      ap sum (map-append_values (map (carrier_output hash160 O key) vs) _)
                      ∙ sum-append (output_values (map (carrier_output hash160 O key) vs)) _
                      ∙ ap₂ (λ x y. sum x + y) (carrier-values key vs)
                          (sum-change_output change (funding_script hash160 O key)))));
        selected = eu ∙ ap sum (sym (funding-values key us));
      }

  deployed-Balanced :
      (key : SigningKey) (os : List O) (vs : List ℕ) (cs : List Bytes) (op_return : Bytes) (fee : ℕ)
      (p : PreparedTx O)
      → sum vs < 18446744073709551616
      → length os ≡ length vs
      → length os ≡ length cs
      → deployed hash160 O key os vs cs op_return fee ≡ ok p
      → Balanced p
  unfolding deployed sum
  deployed-Balanced key os vs cs op_return fee p hv lv lc h =
      let (change, hc, h') = and_then-ok (sub_or_small (sum_u64 vs) fee) _ h in
      let ev = sum_u64-sum vs hv in
      let a = sub_or_small-ok (sum_u64 vs) fee change hc in
      let ins = ap sum (carrier_inputs-values key 0 os vs cs lv lc) in
      let out = sum-change_output change (funding_script hash160 O key) in
      subst Balanced (ok-injective h')
        record { conserved = ins ∙ omega (arith, ev, a, out); selected = ev ∙ sym ins }

  called-Balanced :
      (key : SigningKey) (o : O) (value : ℕ) (op_return : Bytes) (fee : ℕ) (p : PreparedTx O)
      → called hash160 O key o value op_return fee ≡ ok p
      → Balanced p
  unfolding called sum
  called-Balanced key o value op_return fee p h =
      let (change, hc, h') = and_then-ok (sub_or_small value fee) _ h in
      let a = sub_or_small-ok value fee change hc in
      subst Balanced (ok-injective h')
        record { conserved = omega (arith, a); selected = omega arith }

  pub prepare_plan-Balanced :
      (key : SigningKey) (us : List (O × ℕ)) (vs : List ℕ) (p : PreparedTx O)
      → sum (map (λ u. u.1) us) < 18446744073709551616
      → sum vs < 18446744073709551616
      → prepare_plan hash160 O key us vs ≡ ok p
      → Balanced p
  unfolding prepare_plan
  prepare_plan-Balanced key [] vs p hu hv h = cc
  prepare_plan-Balanced key (u ∷ us) [] p hu hv h = cc
  prepare_plan-Balanced key (u ∷ us) (v ∷ vs) p hu hv h =
      prepared-Balanced key (u ∷ us) (v ∷ vs) _ p hu hv h

  pub deploy_plan-Balanced :
      (key : SigningKey) (os : List O) (vs : List ℕ) (cs : List Bytes) (op_return : Bytes)
      (p : PreparedTx O)
      → sum vs < 18446744073709551616
      → deploy_plan hash160 O key os vs cs op_return ≡ ok p
      → Balanced p
  unfolding deploy_plan
  deploy_plan-Balanced key os vs cs op_return p hv h =
      elim (Bool-cases (not (length os == length cs) || not (length os == length vs))) [
        | inl mismatch ↦ ground (arith, mismatch, h)
        | inr same ↦
            deployed-Balanced key os vs cs op_return (deploy_fee hash160 O key cs op_return) p hv
              (ground (arith, same)) (ground (arith, same)) (ground (arith, same, h))
      ]

  pub call_plan-Balanced :
      (key : SigningKey) (o : O) (value : ℕ) (op_return : Bytes) (p : PreparedTx O)
      → call_plan hash160 O key o value op_return ≡ ok p
      → Balanced p
  unfolding call_plan
  call_plan-Balanced key o value op_return p h = called-Balanced key o value op_return _ p h
