-- ===== src/Indexer/Transaction/Failed.antt =====
-- The results of calls, as `execute_call` records them, in crates/zalkanes-indexer/src/lib.rs.
use zalkanes.Base.{
  ℕ, ◌≡◌, ◌<◌, refl, some, none, [], ◌∷◌, ◌++◌, true, false, ◌==◌, Result, ok, err, ◌⊎◌, inl, inr,
  on_if, on_option, arith,
}
use zalkanes.Base.Bytes.{Bytes}
use zalkanes.Core.{ContractId, Execution}
use zalkanes.Runtime.{CallResult, success, trap, fuel_exhausted, invalid_module, contract_not_found}
use zalkanes.Runtime.Execute.{execute}
use zalkanes.State.Memory.{MemoryState, projected_root}
use zalkanes.Indexer.{ParsedTransaction, Failure, Environment}
use zalkanes.Indexer.Transaction.{
  Progress, apply_writes, summary, fuel_limit, record_call, call_context, execute_call,
}

module _ (env : Environment) (store : MemoryState) where
  -- What a recorded call leaves, from what `execute` gave: one execution, successful exactly as the
  -- result is, and its writes in the pending commit if it succeeded, none if it did not.
  abbrev pub Recorded : Progress → Progress → Execution → CallResult → Type 0
  Recorded p q e (success output fuel_used writes) =
      (e.success ≡ true)
      × (e.return_data ≡ output)
      × (e.fuel_used ≡ fuel_used)
      × (q.commit ≡ apply_writes p.commit writes)
      × (e.state_root_after ≡ projected_root env.blake2b store (apply_writes p.commit writes))
  Recorded p q e r =
      (e.success ≡ false)
      × (e.return_data ≡ [])
      × (e.fuel_used ≡ (summary r).fuel_used)
      × (q.commit ≡ p.commit)
      × (e.state_root_after ≡ projected_root env.blake2b store p.commit)

  -- Nothing new exactly where there is no fuel, and otherwise one execution.
  abbrev pub CallLeaves :
      Progress → ParsedTransaction → ContractId → ℕ → Bytes → Result Progress Failure → Type 0
  CallLeaves p tx cid opcode input (err _) =
      (0 < fuel_limit p) × (execute env.engine (call_context p tx cid opcode input) store ≡ none)
  CallLeaves p tx cid opcode input (ok q) =
      ((fuel_limit p ≡ 0) × (q ≡ p))
      ⊎ ((0 < fuel_limit p)
          × ((r : CallResult) × (e : Execution) × (execute env.engine
                  (call_context p tx cid opcode input) store
                ≡ some r)
              × (q.executions ≡ p.executions ++ (e ∷ []))
              × (e.contract_id ≡ cid)
              × Recorded p q e r))

  recorded :
      (p : Progress)
      → (tx : ParsedTransaction) → (cid : ContractId) → (opcode : ℕ) → (r : CallResult)
      → (e : Execution) × ((record_call env store p tx cid opcode (summary r)).executions
          ≡ p.executions ++ (e ∷ []))
        × (e.contract_id ≡ cid)
        × Recorded p (record_call env store p tx cid opcode (summary r)) e r
  unfolding record_call summary apply_writes
  recorded p tx cid opcode (success output fuel_used writes) =
      (_, refl, refl, (refl, refl, refl, refl, refl))
  recorded p tx cid opcode (trap reason fuel_used) = (_, refl, refl, (refl, refl, refl, refl, refl))
  recorded p tx cid opcode (fuel_exhausted fuel_used) =
      (_, refl, refl, (refl, refl, refl, refl, refl))
  recorded p tx cid opcode (invalid_module reason) = (_, refl, refl, (refl, refl, refl, refl, refl))
  recorded p tx cid opcode contract_not_found = (_, refl, refl, (refl, refl, refl, refl, refl))

  -- `execute_call` leaves everything as it was exactly when no fuel is left. With fuel it fails
  -- exactly when `execute` panics, and otherwise adds one execution of the contract: a call that
  -- succeeds has its output and fuel recorded and its writes in the pending commit, of which the root
  -- afterwards is; any other result returns nothing and leaves the pending commit and its root.
  pub execute_call-failed :
      (p : Progress)
      → (tx : ParsedTransaction) → (cid : ContractId) → (opcode : ℕ) → (input : Bytes)
      → CallLeaves p tx cid opcode input (execute_call env store p tx cid opcode input)
  unfolding execute_call
  execute_call-failed p tx cid opcode input =
      on_if (CallLeaves p tx cid opcode input) (fuel_limit p == 0)
        (λ none_left. inl (ground arith, refl))
        λ some_left.
          on_option (CallLeaves p tx cid opcode input)
            (execute env.engine (call_context p tx cid opcode input) store)
            (λ panics. (ground arith, panics))
            (λ r e.
              let (x, added, of, left) = recorded p tx cid opcode r in
              inr (ground arith, (r, x, e, added, of, left)))
