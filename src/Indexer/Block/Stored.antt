-- ===== src/Indexer/Block/Stored.antt =====
-- What `process_parsed_block` of crates/zalkanes-indexer/src/lib.rs leaves in the store.
use zalkanes.Base.{
  ◌≡◌, refl, ◌∙◌, sym, ap, subst, some, List, [], ◌∷◌, Result, ok, err, and_then, ltb, on_if,
}
use zalkanes.Core.{BlockHeight, BlockHash, Execution}
use zalkanes.Base.Order.{bytes_order}
use zalkanes.Base.OrdMap.{insert}
use zalkanes.State.{BlockCommit}
use zalkanes.State.Memory.{MemoryState, commit_block, compute_root, save_executions}
use zalkanes.Indexer.{
  IndexerConfig, activation_height, BlockExecution, ParsedTransaction, ParsedBlock, Failure,
  Environment,
}
use zalkanes.Indexer.Transaction.{Progress, process_transaction}
use zalkanes.Indexer.Transaction.Sound.{IsSound, Sound, process_transaction-Sound}
use zalkanes.Indexer.Block.{
  Processed, commit_empty, finish_block, empty_commit, start_progress, process_transactions,
  process_parsed_block,
}

-- Saving executions changes nothing else of the store.
record Untouched (s s' : MemoryState) : Type 0 where
  metadata : s'.metadata ≡ s.metadata
  contracts : s'.contracts ≡ s.contracts
  storage : s'.storage ≡ s.storage

save_executions-Untouched :
    (es : List Execution) (s : MemoryState) → Untouched s (save_executions s es)
unfolding save_executions
save_executions-Untouched [] s = record { metadata = refl; contracts = refl; storage = refl }
save_executions-Untouched (e ∷ es) s =
    let u = save_executions-Untouched es (record s { executions = insert e.txid e s.executions }) in
    record { metadata = u.metadata; contracts = u.contracts; storage = u.storage }

module _ (env : Environment) where
  abbrev Shows : BlockHeight → BlockHash → Result Processed Failure → Type 0
  Shows height hash (err _) = Unit
  Shows height hash (ok (s, e)) =
      (s.metadata.indexed_height ≡ some height)
      × (s.metadata.indexed_block_hash ≡ some hash)
      × (s.metadata.persisted_root ≡ some e.state_root_after)
      × (e.state_root_after ≡ compute_root env.blake2b s)

  commit_block-root :
      (s : MemoryState) (c : BlockCommit)
      → (commit_block env.blake2b s c).1 ≡ compute_root env.blake2b (commit_block env.blake2b s c).0
  unfolding commit_block compute_root
  commit_block-root s c = refl

  commit_block-metadata :
      (s : MemoryState) (c : BlockCommit)
      → ((commit_block env.blake2b s c).0.metadata.indexed_height ≡ some c.height)
        × ((commit_block env.blake2b s c).0.metadata.indexed_block_hash ≡ some c.zcash_block_hash)
        × ((commit_block env.blake2b s c).0.metadata.persisted_root
            ≡ some (commit_block env.blake2b s c).1)
  unfolding commit_block
  commit_block-metadata s c = (refl, refl, refl)

  commit_empty-Shows :
      (s : MemoryState) (height : BlockHeight) (hash : BlockHash)
      → Shows height hash (ok (commit_empty env s height hash))
  unfolding commit_empty
  commit_empty-Shows s height hash =
      let (h, b, r) = commit_block-metadata s (empty_commit height hash) in
      (h, b, r, commit_block-root s (empty_commit height hash))

  save_executions-root :
      (s : MemoryState) (es : List Execution)
      → compute_root env.blake2b (save_executions s es) ≡ compute_root env.blake2b s
  unfolding compute_root
  save_executions-root s es =
      let u = save_executions-Untouched es s in rw (u.contracts, u.storage, compute_root) refl

  finish_block-Shows :
      (s : MemoryState) (parsed : ParsedBlock) (p : Progress)
      → p.commit.height ≡ parsed.height
      → p.commit.zcash_block_hash ≡ parsed.hash
      → Shows parsed.height parsed.hash (ok (finish_block env s parsed p))
  unfolding finish_block
  finish_block-Shows s parsed p eh eb =
      let s' = (commit_block env.blake2b s p.commit).0 in
      let u = save_executions-Untouched p.executions s' in
      let (h, b, r) = commit_block-metadata s p.commit in
      (
        ap (λ m. m.indexed_height) u.metadata ∙ (h ∙ ap some eh),
        ap (λ m. m.indexed_block_hash) u.metadata ∙ (b ∙ ap some eb),
        ap (λ m. m.persisted_root) u.metadata ∙ r,
        commit_block-root s p.commit ∙ sym (save_executions-root s' p.executions),
      )

  process_transactions-Sound :
      (height : BlockHeight)
      → (hash : BlockHash) → (s : MemoryState) → (config : IndexerConfig) → (p : Progress)
      → (txs : List ParsedTransaction) → IsSound env s height hash p.commit
      → Sound env s height hash (process_transactions env s config p txs)
  unfolding process_transactions
  process_transactions-Sound height hash s config p [] sound = sound
  process_transactions-Sound height hash s config p (tx ∷ txs) sound =
      step (process_transaction env s config p tx)
        (process_transaction-Sound env s height hash config p tx sound)
        λ q sq. process_transactions-Sound height hash s config q txs sq
    where
      step :
          (m : Result Progress Failure)
          → Sound env s height hash m
          → ((q : Progress)
              → IsSound env s height hash q.commit
              → Sound env s height hash (process_transactions env s config q txs))
          → Sound env s height hash (and_then m (λ q. process_transactions env s config q txs))
      step (err _) v k = tt
      step (ok q) v k = k q v

  finish_all :
      (s : MemoryState) (parsed : ParsedBlock) (m : Result Progress Failure)
      → Sound env s parsed.height parsed.hash m
      → Shows parsed.height parsed.hash (and_then m (λ p. ok (finish_block env s parsed p)))
  finish_all s parsed (err _) sound = tt
  finish_all s parsed (ok p) sound = finish_block-Shows s parsed p sound.height_kept sound.hash_kept

  start-Sound :
      (s : MemoryState) (height : BlockHeight) (hash : BlockHash)
      → IsSound env s height hash (start_progress height hash).commit
  start-Sound s height hash = record { height_kept = refl; hash_kept = refl; deployable = tt }

  activated-Shows :
      (s : MemoryState)
      → (config : IndexerConfig) → (parsed : ParsedBlock) → (activation : BlockHeight)
      → activation_height config ≡ some activation
      → Shows parsed.height parsed.hash (process_parsed_block env s config parsed)
  unfolding process_parsed_block
  activated-Shows s config parsed activation ha =
      rw (ha, process_parsed_block)
        (on_if (Shows parsed.height parsed.hash) (ltb parsed.height activation)
          (λ _. commit_empty-Shows s parsed.height parsed.hash)
          (λ _.
            finish_all s parsed
              (process_transactions env s config (start_progress parsed.height parsed.hash)
                parsed.transactions)
              (process_transactions-Sound parsed.height parsed.hash s config
                (start_progress parsed.height parsed.hash) parsed.transactions
                (start-Sound s parsed.height parsed.hash))))

  -- On a network with an activation height, a block that is processed leaves a store that shows the
  -- block's height, its hash and the root of the result, and that root is the root computed from the
  -- store.
  pub process_parsed_block-stored :
      (s s' : MemoryState)
      → (config : IndexerConfig) → (parsed : ParsedBlock) → (e : BlockExecution)
      → (activation : BlockHeight) → activation_height config ≡ some activation
      → process_parsed_block env s config parsed ≡ ok (s', e)
      → (s'.metadata.indexed_height ≡ some parsed.height)
        × (s'.metadata.indexed_block_hash ≡ some parsed.hash)
        × (s'.metadata.persisted_root ≡ some e.state_root_after)
        × (e.state_root_after ≡ compute_root env.blake2b s')
  process_parsed_block-stored s s' config parsed e activation ha h =
      subst (Shows parsed.height parsed.hash) h (activated-Shows s config parsed activation ha)
