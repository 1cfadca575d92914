-- ===== src/Indexer/Sync/Reorg.antt =====
-- The loop of `handle_reorg` of crates/zalkanes-indexer/src/sync.rs on a store that a run of commits
-- has built.
use Prim.Native.String.{String}
use zalkanes.Base.{
  ℕ, zero, suc, ◌-◌, ◌≡◌, ◌<◌, refl, ap, sym, ◌∙◌, true, false, some, ok, err, arith, ◌⊎◌, inl, inr,
  Bool-cases, Option-cases, Result-cases, List, [], ◌∷◌, ◌++◌, length, All, All-append, All-imp,
}
use zalkanes.Base.Bytes.{Bytes}
use zalkanes.Base.Order.{bytes_eq, bytes_eq_refl, eq_of_bytes_eq, nat_order}
use zalkanes.Base.OrdMap.{lookup}
use zalkanes.Core.{BlockHeight, BlockHash, TxId, Execution}
use zalkanes.Base.OrdMap.{OrdMap}
use zalkanes.State.{BlockCommit}
use zalkanes.State.Memory.{
  MemoryState, last_metadata, no_metadata, apply_commit, empty, commit_block, rollback_to,
  rollback_loop, rollback_height, sort_descending, heights_above, keys,
}
use zalkanes.State.Memory.Rollback.{
  IsValid, IsAt, Descending, Descending-tail, Descending-above, run, run-IsValid, keys-run_below,
  rollback_to-run,
}
use zalkanes.Indexer.Sync.{ChainSource, transient, End, finished, failed, handle_reorg, sub_one}

-- The store with other executions, which commits and rollbacks neither read nor write.
abbrev pub with_executions : OrdMap TxId Execution → MemoryState → MemoryState
with_executions e s = record s { executions = e }

module _ (e : OrdMap TxId Execution) where
  rollback_height-with :
      (t h : BlockHeight) (s : MemoryState)
      → rollback_height t h (with_executions e s) ≡ with_executions e (rollback_height t h s)
  unfolding rollback_height
  rollback_height-with t h s = elim (Option-cases (lookup h s.undo)) [
    | inl gone ↦ rw (gone, rollback_height) refl
    | inr (ops, found) ↦ rw (found, rollback_height) refl
  ]

  rollback_loop-with :
      (t : BlockHeight) (hs : List BlockHeight) (s : MemoryState)
      → rollback_loop t hs (with_executions e s) ≡ with_executions e (rollback_loop t hs s)
  unfolding rollback_loop
  rollback_loop-with t [] s = refl
  rollback_loop-with t (h ∷ hs) s =
      ap (rollback_loop t hs) (rollback_height-with t h s)
      ∙ rollback_loop-with t hs (rollback_height t h s)

  rollback_to-with :
      (t : BlockHeight) (s : MemoryState)
      → rollback_to (with_executions e s) t ≡ with_executions e (rollback_to s t)
  unfolding rollback_to
  rollback_to-with t s =
      ap {A = MemoryState} (λ x. record x { metadata = last_metadata x.history })
        (rollback_loop-with t (sort_descending (heights_above t (keys s.undo))) s)

module _ (blake2b : Bytes → Bytes → Bytes) (source : ChainSource) where
  -- The store of a run of commits from the empty store, the latest first, whatever the executions.
  abbrev pub IsRun : List BlockCommit → MemoryState → Type 0
  IsRun cs s = with_executions [] s ≡ run blake2b empty cs

  empty-IsValid : IsValid empty
  unfolding last_metadata
  empty-IsValid = record {
    contracts_sorted = tt;
    storage_sorted = tt;
    undo_sorted = tt;
    metadata_last = refl;
  }

  empty-IsAt : IsAt 0 empty
  empty-IsAt = record { undo_at = tt; history_at = tt }

  history-run_below :
      (c : BlockCommit) (cs : List BlockCommit)
      → Descending 0 (c ∷ cs)
      → All (λ r. r.height < c.height) (run blake2b empty cs).history
  unfolding run commit_block apply_commit
  history-run_below c [] d = tt
  history-run_below c (b ∷ cs) (lt, ds) =
      All-append _ (run blake2b empty cs).history _
        (All-imp _ (λ k h. omega (arith, lt)) (run blake2b empty cs).history
          (history-run_below b cs ds))
        (lt, tt)

  -- One rollback below the latest commit takes it back.
  take_back :
      (c : BlockCommit) (cs : List BlockCommit) (s : MemoryState)
      → Descending 0 (c ∷ cs)
      → c.height < 4294967296
      → IsRun (c ∷ cs) s
      → IsRun cs (rollback_to s (sub_one c.height))
  unfolding run
  take_back c cs s d hb r =
      let above = Descending-above 0 c cs d in
      let e : sub_one c.height ≡ c.height - 1 = omega (arith, above) in
      let v = run-IsValid blake2b empty cs empty-IsValid in
      let below = keys-run_below blake2b 0 empty c cs empty-IsAt d in
      let at : IsAt (c.height - 1) (run blake2b empty cs) = record {
        undo_at = All-imp _ (λ k h. omega arith) (keys (run blake2b empty cs).undo) below;
        history_at =
            All-imp _ (λ k h. omega arith) (run blake2b empty cs).history
              (history-run_below c cs d);
      } in
      sym (rollback_to-with [] (sub_one c.height) s)
      ∙ ap (λ x. rollback_to x (sub_one c.height)) r
      ∙ ap (rollback_to (run blake2b empty (c ∷ cs))) e
      ∙ rollback_to-run blake2b (c.height - 1) (run blake2b empty cs) (c ∷ []) v at
          (omega (arith, above))

  -- The block of the commit is on the chain of the source.
  abbrev pub IsCanonical : BlockCommit → Type 0
  IsCanonical c = source.block_hash c.height ≡ ok c.zcash_block_hash

  -- Where the loop may stop: at an empty store, at a canonical tip, or with the error of the source
  -- at a tip for whose height the source gives no hash.
  abbrev pub Stopped : List BlockCommit → End → Type 0
  Stopped [] end = end ≡ finished
  Stopped (c ∷ cs) end =
      ((end ≡ finished) × IsCanonical c)
      ⊎ ((e : String) × (source.block_hash c.height ≡ err e)
          × (end ≡ failed (transient "fetching canonical block hash for reorg check" e)))

  -- The latest commits were taken back, none of them canonical; the store is the run of the others,
  -- and the loop may stop at the latest of these.
  abbrev pub Reorged : List BlockCommit → End × MemoryState → Type 0
  Reorged cs (end, s) =
      (gone : List BlockCommit) × (kept : List BlockCommit) × (cs ≡ gone ++ kept)
      × All (λ c. ¬ (IsCanonical c)) gone
      × IsRun kept s
      × Stopped kept end

  one_more :
      (c : BlockCommit) (cs : List BlockCommit) (m : End × MemoryState)
      → ¬ (IsCanonical c)
      → Reorged cs m
      → Reorged (c ∷ cs) m
  one_more c cs m off (gone, kept, e, offs, r, end) =
      (c ∷ gone, kept, ap (λ x. c ∷ x) e, (off, offs), r, end)

  not-IsCanonical :
      (c : BlockCommit) (canonical : BlockHash)
      → source.block_hash c.height ≡ ok canonical
      → bytes_eq canonical c.zcash_block_hash ≡ false
      → ¬ (IsCanonical c)
  not-IsCanonical c canonical h hb hc =
      let e : canonical ≡ c.zcash_block_hash = cc in
      let same : bytes_eq canonical c.zcash_block_hash ≡ true =
        rw e (bytes_eq_refl c.zcash_block_hash) in
      cc

  empty_metadata : (s : MemoryState) → IsRun [] s → s.metadata ≡ no_metadata
  unfolding run
  empty_metadata s r = ap (λ x. x.metadata) r

  shown_metadata :
      (c : BlockCommit) (cs : List BlockCommit) (s : MemoryState)
      → IsRun (c ∷ cs) s
      → (s.metadata.indexed_height ≡ some c.height)
        × (s.metadata.indexed_block_hash ≡ some c.zcash_block_hash)
  unfolding run commit_block
  shown_metadata c cs s r =
      (ap (λ x. x.metadata.indexed_height) r, ap (λ x. x.metadata.indexed_block_hash) r)

  -- On a store that commits at ascending 32-bit heights above 0 have built, one round more than there
  -- are commits is enough fuel: the loop takes back the latest commits, none of which is on the chain
  -- of the source, the store is the one of the other commits, and the loop has finished with an empty
  -- store or a tip on that chain, or has failed with the source's own error for the height of the tip.
  pub handle_reorg-Reorged :
      (fuel : ℕ) (cs : List BlockCommit) (s : MemoryState)
      → length cs < fuel
      → Descending 0 cs
      → All (λ c. c.height < 4294967296) cs
      → IsRun cs s
      → Reorged cs (handle_reorg source fuel s)
  unfolding handle_reorg
  handle_reorg-Reorged zero cs s hf d hb r = absurd (omega arith)
  handle_reorg-Reorged (suc fuel) [] s hf d hb r =
      rw (ap (λ m. m.indexed_height) (empty_metadata s r), handle_reorg) ([], [], refl, tt, r, refl)
  handle_reorg-Reorged (suc fuel) (c ∷ cs) s hf d (hc, hb) r =
      let (eh, eb) = shown_metadata c cs s r in
      elim (Result-cases (source.block_hash c.height)) [
        | inr (e, gave_up) ↦
            rw (eh, handle_reorg)
              (rw eb (rw gave_up ([], c ∷ cs, refl, tt, r, inr (e, gave_up, refl))))
        | inl (canonical, answered) ↦ elim (Bool-cases (bytes_eq canonical c.zcash_block_hash)) [
          | inl same ↦
              rw (eh, handle_reorg)
                (rw eb (
                  rw answered (
                    rw same (
                      [],
                      c ∷ cs,
                      refl,
                      tt,
                      r,
                      inl (
                        refl,
                        answered ∙ ap ok (eq_of_bytes_eq canonical c.zcash_block_hash same),
                      ),
                    ))))
          | inr other ↦
              rw (eh, handle_reorg)
                (rw eb (
                  rw answered (
                    rw other (
                      one_more c cs (handle_reorg source fuel (rollback_to s (sub_one c.height)))
                        (not-IsCanonical c canonical answered other)
                        (handle_reorg-Reorged fuel cs (rollback_to s (sub_one c.height))
                          (omega arith) (Descending-tail 0 c cs d) hb (take_back c cs s d hc r))))))
        ]
      ]
