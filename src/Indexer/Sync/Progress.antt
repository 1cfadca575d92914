-- ===== src/Indexer/Sync/Progress.antt =====
-- The loop of `tick` of crates/zalkanes-indexer/src/sync.rs on a network with an activation height.
use Prim.Native.String.{String}
use zalkanes.Base.{
  ℕ, [], zero, suc, ◌≡◌, ◌<◌, ◌-◌, refl, ap, ◌∙◌, Bool, true, false, some, Result, ok, err, ltb,
  arith, on_if, on_result, ◌⊎◌, inl, inr, Bool-cases,
}
use zalkanes.Base.Bytes.{Bytes}
use zalkanes.Core.{BlockHeight, BlockHash}
use zalkanes.State.Memory.{MemoryState, commit_block}
use zalkanes.Indexer.{IndexerConfig, activation_height, ParsedBlock, Environment, Failure}
use zalkanes.Indexer.Parse.{parse_block}
use zalkanes.Indexer.Block.{Processed, process_parsed_block, process_zcash_block, commit_empty}
use zalkanes.Indexer.Block.Stored.{process_parsed_block-stored}
use zalkanes.Indexer.Sync.{
  ChainSource, SyncError, End, finished, failed, index_loop, index_one, index_raw, next_of,
  below_activation, settled, indexed_height,
}

module _ (env : Environment) (source : ChainSource) (config : IndexerConfig)
    (act : BlockHeight) where
  -- A store that is a result shows the height.
  abbrev Shown : BlockHeight → Result MemoryState SyncError → Type 0
  Shown h (ok s) = indexed_height s ≡ some h
  Shown h (err _) = Unit

  commit_empty-height :
      (s : MemoryState) (h : BlockHeight) (hash : BlockHash)
      → indexed_height (commit_empty env s h hash).0 ≡ some h
  unfolding commit_empty commit_block
  commit_empty-height s h hash = refl

  parsed_at :
      (raw : Bytes) (h : BlockHeight) (hash : BlockHash) (parsed : ParsedBlock)
      → parse_block env raw h hash config.network ≡ ok parsed
      → parsed.height ≡ h
  unfolding parse_block
  parsed_at raw h hash parsed e = ground arith

  processed_at :
      (what : String) (s : MemoryState) (h : BlockHeight) (parsed : ParsedBlock)
      → activation_height config ≡ some act
      → parsed.height ≡ h
      → Shown h (settled env source config what s (process_parsed_block env s config parsed))
  processed_at what s h parsed ha eh = go (process_parsed_block env s config parsed) refl
    where
      go :
          (m : Result Processed Failure)
          → process_parsed_block env s config parsed ≡ m
          → Shown h (settled env source config what s m)
      go (err _) hm = tt
      go (ok (s', e)) hm =
          (process_parsed_block-stored env s s' config parsed e act ha hm).0 ∙ ap some eh

  index_raw-Shown :
      (h : BlockHeight) (hash : BlockHash) (s : MemoryState)
      → activation_height config ≡ some act
      → Shown h (index_raw env source config h hash s)
  unfolding index_raw
  index_raw-Shown h hash s ha =
      on_result (Shown h) (source.raw_block hash)
        (λ raw _.
          on_result (Shown h) (parse_block env raw h hash config.network)
            (λ parsed hp. processed_at _ s h parsed ha (parsed_at raw h hash parsed hp))
            (λ _ _. tt))
        (λ _ _. tt)

  early_Shown :
      (what : String) (h : BlockHeight) (hash : BlockHash) (s : MemoryState)
      → activation_height config ≡ some act
      → below_activation env source config h ≡ true
      → Shown h (settled env source config what s (process_zcash_block env s config h hash []))
  unfolding process_zcash_block
  early_Shown what h hash s ha hb =
      let below : ltb h act ≡ true = ground (arith, ha, hb) in
      rw (ha, process_zcash_block) (rw below (commit_empty-height s h hash))

  index_one-Shown :
      (h : BlockHeight) (s : MemoryState)
      → activation_height config ≡ some act
      → Shown h (index_one env source config h s)
  unfolding index_one
  index_one-Shown h s ha =
      on_result (Shown h) (source.block_hash h)
        (λ hash _.
          on_if (Shown h) (below_activation env source config h)
            (λ hb. early_Shown _ h hash s ha hb) (λ _. index_raw-Shown h hash s ha))
        (λ _ _. tt)

  -- A loop that came to its end past the tip, or gave up on an error.
  abbrev pub CaughtUp : BlockHeight → End × MemoryState → Type 0
  CaughtUp tip m =
      ((m.0 ≡ finished) × (tip < next_of env source config m.1))
      ⊎ ((e : SyncError) × (m.0 ≡ failed e))

  next_shown :
      (s : MemoryState) (h : BlockHeight)
      → h < 4294967295
      → indexed_height s ≡ some h
      → next_of env source config s ≡ suc h
  next_shown s h hb e = rw (e, next_of) (omega arith)

  -- On a network with an activation height, with the flag not set and the tip below the last height,
  -- fuel for one round more than there are blocks to index is enough: the loop ends with an error, or
  -- with every block up to the tip indexed.
  pub index_loop-CaughtUp :
      (fuel : ℕ) (stop : ℕ → Bool) (tip : BlockHeight) (s : MemoryState)
      → activation_height config ≡ some act
      → ((n : ℕ) → stop n ≡ false)
      → tip < 4294967295
      → suc tip - next_of env source config s < fuel
      → CaughtUp tip (index_loop env source config fuel stop tip s)
  unfolding index_loop
  index_loop-CaughtUp zero stop tip s ha hs ht hf = absurd (omega arith)
  index_loop-CaughtUp (suc fuel) stop tip s ha hs ht hf =
      elim (Bool-cases (ltb tip (next_of env source config s))) [
        | inl past ↦ rw (hs fuel, index_loop) (rw past (inl (refl, ground arith)))
        | inr behind ↦
            rw (hs fuel, index_loop)
              (rw behind (
                go (index_one env source config (next_of env source config s) s)
                  (index_one-Shown (next_of env source config s) s ha)
                  (λ s' e.
                    let en = next_shown s' (next_of env source config s) (ground arith) e in
                    index_loop-CaughtUp fuel stop tip s' ha hs ht (ground arith))))
      ]
    where
      go :
          (m : Result MemoryState SyncError)
          → Shown (next_of env source config s) m
          → ((s' : MemoryState)
              → indexed_height s' ≡ some (next_of env source config s)
              → CaughtUp tip (index_loop env source config fuel stop tip s'))
          → CaughtUp tip (elim m [
            | err e ↦ (failed e, s)
            | ok store' ↦ index_loop env source config fuel stop tip store'
          ])
      go (err e) v k = inr (e, refl)
      go (ok s') v k = k s' v
