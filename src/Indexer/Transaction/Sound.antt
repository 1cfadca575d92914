-- ===== src/Indexer/Transaction/Sound.antt =====
-- What crates/zalkanes-indexer/src/lib.rs deploys, and that the pending commit stays that of its
-- block.
use zalkanes.Base.{
  ℕ, ◌≤◌, ◌≡◌, List, [], ◌∷◌, ◌++◌, false, not, ◌||◌, ltb, ◌==◌, Result, ok, err, and_then, length,
  All, All-append, arith, on_if, on_option, on_result,
}
use zalkanes.Base.Bytes.{Bytes}
use zalkanes.Core.{ContractId, CodeHash, BlockHeight, BlockHash, derive}
use zalkanes.Protocol.{Message, deploy, call, call_carrier, DeployMessage}
use zalkanes.Carrier.{reconstruct}
use zalkanes.Carrier.Reconstruct.{reconstruct-ok}
use zalkanes.Runtime.{StorageWrite, set, delete}
use zalkanes.Runtime.Validate.{validate_module}
use zalkanes.Runtime.Execute.{execute}
use zalkanes.State.{BlockCommit}
use zalkanes.State.Memory.{MemoryState, has_contract}
use zalkanes.Indexer.{IndexerConfig, ParsedTransaction, Failure, Environment}
use zalkanes.Indexer.Transaction.{
  Progress, apply_write, apply_writes, summary, collect_chunks, message_of, fuel_limit, record_call,
  call_context, execute_call, handle_call, handle_call_carrier, handle_deploy, count_deploy,
  count_carrier, handle_message, count_message, is_over_cap, process_outputs, process_transaction,
}

module _ (env : Environment) (store : MemoryState) where
  -- A deployment of code with the hash it is stored under, within the size limit, that the validator
  -- accepts, under an id that the store does not hold.
  abbrev pub Deployable : ContractId × CodeHash × Bytes → Type 0
  Deployable (id, code_hash, wasm) =
      (env.sha256 wasm ≡ code_hash)
      × (length wasm ≤ 262144)
      × (validate_module env.engine.parse_module env.parse_all wasm ≡ ok tt)
      × (has_contract store id ≡ false)

  -- The pending commit is for the block, and what it deploys is deployable.
  pub record IsSound (height : BlockHeight) (hash : BlockHash) (c : BlockCommit) : Type 0 where
    pub height_kept : c.height ≡ height
    pub hash_kept : c.zcash_block_hash ≡ hash
    pub deployable : All Deployable c.deploys

  module _ (height : BlockHeight) (hash : BlockHash) where
    abbrev pub Sound : Result Progress Failure → Type 0
    Sound (err _) = Unit
    Sound (ok p) = IsSound height hash p.commit

    apply_writes-IsSound :
        (ws : List StorageWrite) (c : BlockCommit)
        → IsSound height hash c
        → IsSound height hash (apply_writes c ws)
    unfolding apply_writes apply_write
    apply_writes-IsSound [] c s = s
    apply_writes-IsSound (set id key v ∷ ws) c s =
        apply_writes-IsSound ws (record c { upserts = c.upserts ++ ((id, key, v) ∷ []) })
          (record {
            height_kept = s.height_kept;
            hash_kept = s.hash_kept;
            deployable = s.deployable;
          })
    apply_writes-IsSound (delete id key ∷ ws) c s =
        apply_writes-IsSound ws (record c { deletes = c.deletes ++ ((id, key) ∷ []) })
          (record {
            height_kept = s.height_kept;
            hash_kept = s.hash_kept;
            deployable = s.deployable;
          })

    execute_call-Sound :
        (p : Progress)
        → (tx : ParsedTransaction) → (cid : ContractId) → (opcode : ℕ) → (input : Bytes)
        → IsSound height hash p.commit
        → Sound (execute_call env store p tx cid opcode input)
    unfolding execute_call record_call
    execute_call-Sound p tx cid opcode input s =
        on_if Sound (fuel_limit p == 0) (λ _. s)
          λ _.
            on_option Sound (execute env.engine (call_context p tx cid opcode input) store)
              (λ _. tt) (λ r _. apply_writes-IsSound (summary r).writes p.commit s)

    handle_deploy-IsSound :
        (config : IndexerConfig)
        → (p : Progress) → (tx : ParsedTransaction) → (m : DeployMessage)
        → IsSound height hash p.commit
        → IsSound height hash (handle_deploy env store config p tx m).commit
    unfolding handle_deploy
    handle_deploy-IsSound config p tx m s =
        on_result Q
          (reconstruct env.sha256 (collect_chunks tx.inputs) m.chunk_count m.code_length
            m.code_hash)
          (λ wasm e.
            on_if Q (has_contract store (id wasm)) (λ _. s)
              λ fresh.
                on_result Q (validate_module env.engine.parse_module env.parse_all wasm)
                  (λ _ v. record {
                    height_kept = s.height_kept;
                    hash_kept = s.hash_kept;
                    deployable =
                        All-append Deployable p.commit.deploys ((id wasm, m.code_hash, wasm) ∷ [])
                          s.deployable (accepted wasm e v fresh, tt);
                  })
                  (λ _ _. s))
          (λ _ _. s)
      where
        Q : Progress → Type 0
        Q q = IsSound height hash q.commit

        id : Bytes → ContractId
        id wasm = derive env.blake2b config.network tx.txid m.output_index m.code_hash

        accepted :
            (wasm : Bytes)
            → reconstruct env.sha256
                (collect_chunks tx.inputs)
                m.chunk_count
                m.code_length
                m.code_hash
              ≡ ok wasm
            → validate_module env.engine.parse_module env.parse_all wasm ≡ ok tt
            → has_contract store (id wasm) ≡ false
            → Deployable (id wasm, m.code_hash, wasm)
        accepted wasm e v fresh =
            let (_, _, _, len, same, _, small, _) =
              reconstruct-ok env.sha256 (collect_chunks tx.inputs) m.chunk_count m.code_length
                m.code_hash wasm e in
            (same, omega arith, v, fresh)

    handle_message-Sound :
        (config : IndexerConfig)
        → (p : Progress) → (tx : ParsedTransaction) → (out_idx : ℕ) → (m : Message)
        → IsSound height hash p.commit
        → Sound (handle_message env store config p tx out_idx m)
    unfolding handle_message handle_call handle_call_carrier count_deploy count_carrier
    handle_message-Sound config p tx out_idx (deploy m) s =
        on_if Sound (not (m.output_index == out_idx)) (λ _. s)
          λ _.
            on_if Sound
              (ltb 4194304 (count_deploy p m.code_length).limits.carrier_bytes
                || ltb 4194304 (count_deploy p m.code_length).limits.deploy_bytes)
              (λ _. s) (λ _. handle_deploy-IsSound config (count_deploy p m.code_length) tx m s)
    handle_message-Sound config p tx out_idx (call m) s =
        execute_call-Sound p tx m.contract_id m.opcode m.input s
    handle_message-Sound config p tx out_idx (call_carrier m) s =
        let p' = count_carrier p m.input_length in
        on_if Sound (ltb 4194304 p'.limits.carrier_bytes) (λ _. s)
          λ _.
            on_result Sound
              (reconstruct env.sha256 (collect_chunks tx.inputs) m.carrier_count m.input_length
                m.input_hash)
              (λ calldata _. execute_call-Sound p' tx m.contract_id m.opcode calldata s) (λ _ _. s)

    Sound-then :
        (m : Result Progress Failure) (f : Progress → Result Progress Failure)
        → Sound m
        → ((p : Progress) → IsSound height hash p.commit → Sound (f p))
        → Sound (and_then m f)
    Sound-then (err _) f s k = tt
    Sound-then (ok p) f s k = k p s

    process_outputs-Sound :
        (config : IndexerConfig)
        → (p : Progress) → (tx : ParsedTransaction) → (outputs : List (ℕ × Bytes))
        → IsSound height hash p.commit
        → Sound (process_outputs env store config p tx outputs)
    unfolding process_outputs count_message
    process_outputs-Sound config p tx [] s = s
    process_outputs-Sound config p tx ((out_idx, script) ∷ outputs) s =
        on_option Sound (message_of script) (λ _. process_outputs-Sound config p tx outputs s)
          (λ m _.
            on_if Sound (is_over_cap (count_message p)) (λ _. s)
              (λ _.
                Sound-then (handle_message env store config (count_message p) tx out_idx m)
                  (λ q. process_outputs env store config q tx outputs)
                  (handle_message-Sound config (count_message p) tx out_idx m s)
                  (λ q sq. process_outputs-Sound config q tx outputs sq)))

    -- A transaction that is processed without a failure leaves the pending commit that of its block, and
    -- what the commit deploys has the hash it is stored under, is within the size limit and accepted by
    -- the validator, and goes under an id that the store does not hold.
    pub process_transaction-Sound :
        (config : IndexerConfig)
        → (p : Progress) → (tx : ParsedTransaction) → IsSound height hash p.commit
        → Sound (process_transaction env store config p tx)
    unfolding process_transaction
    process_transaction-Sound config p tx s =
        process_outputs-Sound config (record p { tx_fuel_used = 0; tx_messages = 0 }) tx tx.outputs
          s
