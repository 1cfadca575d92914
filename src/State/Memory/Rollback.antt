-- ===== src/State/Memory/Rollback.antt =====
-- Rolling back to the height before a run of commits gives back the store before the run.
use zalkanes.Base.{
  ◌≡◌, ◌≤◌, ◌<◌, refl, ap, ◌∙◌, sym, some, List, [], ◌∷◌, ◌++◌, arith, All, All-append, All-imp,
  map,
}
use mathlib.Core.List.{append-nil}
use zalkanes.Base.Bytes.{Bytes}
use zalkanes.Base.Order.{nat_order, bytes_order, pair_order}
use zalkanes.Base.OrdMap.{
  lookup, insert, remove, put_back, IsSorted, insert-IsSorted, put_back-insert, lookup-insert,
}
use zalkanes.Core.{BlockHeight}
use zalkanes.State.{BlockCommit, HeightRecord}
use zalkanes.State.Memory.{
  MemoryState, Metadata, keys, heights_above, sort_descending, retain, rollback_height,
  rollback_loop, rollback_to, last_metadata, apply_commit, commit_block,
}
use zalkanes.State.Memory.Undoing.{
  undo_all-commit, apply_deploys-IsSorted, apply_upserts-IsSorted, apply_deletes-IsSorted,
}
use zalkanes.State.Memory.Heights.{
  keys-insert_last, lookup_fresh, heights_above-append, heights_above-none, heights_above-All,
  sort_descending-last, retain-append, retain-All,
}

-- What every commit and rollback keeps.
pub record IsValid (s : MemoryState) : Type 0 where
  pub contracts_sorted : IsSorted s.contracts
  pub storage_sorted : IsSorted s.storage
  pub undo_sorted : IsSorted s.undo
  pub metadata_last : s.metadata ≡ last_metadata s.history

-- A store that has indexed nothing above `t`.
pub record IsAt (t : BlockHeight) (s : MemoryState) : Type 0 where
  pub undo_at : All (λ h. h ≤ t) (keys s.undo)
  pub history_at : All (λ r. r.height ≤ t) s.history

-- Heights that fall, all above `t`: the commits of a run, the latest first.
abbrev pub Descending : BlockHeight → List BlockCommit → Type 0
Descending t [] = Unit
Descending t (c ∷ []) = t < c.height
Descending t (c ∷ d ∷ cs) = (d.height < c.height) × Descending t (d ∷ cs)

last_metadata-append :
    (rs : List HeightRecord) (r : HeightRecord)
    → last_metadata (rs ++ (r ∷ [])) ≡ last_metadata (r ∷ [])
unfolding last_metadata
last_metadata-append [] r = refl
last_metadata-append (x ∷ []) r = refl
last_metadata-append (x ∷ y ∷ rs) r = last_metadata-append (y ∷ rs) r

pub Descending-tail :
    (t : BlockHeight) (c : BlockCommit) (cs : List BlockCommit)
    → Descending t (c ∷ cs)
    → Descending t cs
Descending-tail t c [] d = tt
Descending-tail t c (e ∷ cs) d = d.1

pub Descending-above :
    (t : BlockHeight) (c : BlockCommit) (cs : List BlockCommit)
    → Descending t (c ∷ cs)
    → t < c.height
Descending-above t c [] d = d
Descending-above t c (e ∷ cs) (lt, ds) = omega (arith, Descending-above t e cs ds)

last_above :
    (t : BlockHeight) (c : BlockCommit) (cs : List BlockCommit)
    → Descending t (c ∷ cs)
    → heights_above t (c.height ∷ []) ≡ c.height ∷ []
unfolding heights_above
last_above t c cs d = ground (arith, Descending-above t c cs d)

retain_none : (t : BlockHeight) (r : HeightRecord) → t < r.height → retain t (r ∷ []) ≡ []
unfolding retain
retain_none t r h = ground arith

executions-apply_commit :
    (s : MemoryState) (c : BlockCommit) → (apply_commit s c).0.executions ≡ s.executions
unfolding apply_commit
executions-apply_commit s c = refl

module _ (blake2b : Bytes → Bytes → Bytes) where
  -- The commits of a run, the latest first.
  unfoldable pub run : MemoryState → List BlockCommit → MemoryState
  run s [] = s
  run s (c ∷ cs) = (commit_block blake2b (run s cs) c).0

  -- Every commit keeps the store well formed.
  pub commit_block-IsValid :
      (s : MemoryState) (c : BlockCommit) → IsValid s → IsValid (commit_block blake2b s c).0
  unfolding commit_block apply_commit
  commit_block-IsValid s c v = record {
    contracts_sorted = apply_deploys-IsSorted s.contracts c.deploys v.contracts_sorted;
    storage_sorted =
        apply_deletes-IsSorted _ c.deletes
          (apply_upserts-IsSorted s.storage c.upserts v.storage_sorted);
    undo_sorted = insert-IsSorted c.height _ s.undo v.undo_sorted;
    metadata_last = sym (last_metadata-append s.history _ ∙ (unfold last_metadata in refl));
  }

  -- One round of the loop of `rollback_to` takes back the latest commit; history and metadata
  -- are whatever they are by then.
  rollback_height-commit :
      (t : BlockHeight) (s : MemoryState) (c : BlockCommit) (h : List HeightRecord) (m : Metadata)
      → IsValid s
      → All (λ k. k < c.height) (keys s.undo)
      → rollback_height t c.height
          (record (commit_block blake2b s c).0 { history = h; metadata = m })
        ≡ record s { history = retain t h; metadata = m }
  unfolding rollback_height commit_block
  rollback_height-commit t s c h m v fresh =
      let maps = undo_all-commit s c v.contracts_sorted v.storage_sorted in
      rw (found, rollback_height)
        (λ i. record {
          contracts = (maps i).0;
          storage = (maps i).1;
          metadata = m;
          history = retain t h;
          undo = removed i;
          executions = executions-apply_commit s c i;
        })
    where
      found :
          lookup c.height (insert c.height (apply_commit s c).1 s.undo) ≡ some (apply_commit s c).1
      found = ground (arith, lookup-insert c.height (apply_commit s c).1 c.height s.undo)

      removed : remove c.height (insert c.height (apply_commit s c).1 s.undo) ≡ s.undo
      removed =
          ap (λ o. put_back c.height o (insert c.height (apply_commit s c).1 s.undo))
            (sym (lookup_fresh c.height s.undo fresh))
          ∙ put_back-insert c.height (apply_commit s c).1 s.undo v.undo_sorted

  pub run-IsValid : (s : MemoryState) (cs : List BlockCommit) → IsValid s → IsValid (run s cs)
  unfolding run
  run-IsValid s [] v = v
  run-IsValid s (c ∷ cs) v = commit_block-IsValid (run s cs) c (run-IsValid s cs v)

  keys-commit :
      (s : MemoryState) (c : BlockCommit)
      → All (λ k. k < c.height) (keys s.undo)
      → keys (commit_block blake2b s c).0.undo ≡ keys s.undo ++ (c.height ∷ [])
  unfolding commit_block
  keys-commit s c a = keys-insert_last c.height (apply_commit s c).1 s.undo a

  -- The journal of a run lies below the height of the next commit.
  pub keys-run_below :
      (t : BlockHeight) (s : MemoryState) (c : BlockCommit) (cs : List BlockCommit)
      → IsAt t s
      → Descending t (c ∷ cs)
      → All (λ k. k < c.height) (keys (run s cs).undo)
  unfolding run
  keys-run_below t s c [] at d = All-imp _ (λ k h. omega arith) (keys s.undo) at.undo_at
  keys-run_below t s c (d ∷ cs) at (lt, ds) =
      let below = keys-run_below t s d cs at ds in
      rw (keys-commit (run s cs) d below) (
        All-append _ (keys (run s cs).undo) (d.height ∷ [])
          (All-imp _ (λ k h. omega arith) (keys (run s cs).undo) below) (lt, tt))

  -- The heights that a rollback undoes are those of the run, the latest first.
  heights-run :
      (t : BlockHeight) (s : MemoryState) (cs : List BlockCommit)
      → IsAt t s
      → Descending t cs
      → sort_descending (heights_above t (keys (run s cs).undo)) ≡ map (λ c. c.height) cs
  unfolding run
  heights-run t s [] at d =
      ap sort_descending (heights_above-none t (keys s.undo) at.undo_at)
      ∙ (unfold sort_descending in refl)
  heights-run t s (c ∷ cs) at d =
      let below = keys-run_below t s c cs at d in
      ap (λ ks. sort_descending (heights_above t ks)) (keys-commit (run s cs) c below)
      ∙ ap sort_descending (
          heights_above-append t (keys (run s cs).undo) (c.height ∷ [])
          ∙ ap (λ x. heights_above t (keys (run s cs).undo) ++ x) (last_above t c cs d))
      ∙ sort_descending-last c.height _ (heights_above-All _ t (keys (run s cs).undo) below)
      ∙ ap (λ x. c.height ∷ x) (heights-run t s cs at (Descending-tail t c cs d))

  retain-commit :
      (t : BlockHeight) (s : MemoryState) (c : BlockCommit)
      → t < c.height
      → retain t (commit_block blake2b s c).0.history ≡ retain t s.history
  unfolding commit_block apply_commit
  retain-commit t s c h =
      retain-append t s.history _
      ∙ ap (λ x. retain t s.history ++ x) (retain_none t _ h)
      ∙ append-nil (retain t s.history)

  retain-run :
      (t : BlockHeight) (s : MemoryState) (cs : List BlockCommit)
      → IsAt t s
      → Descending t cs
      → retain t (run s cs).history ≡ s.history
  unfolding run
  retain-run t s [] at d = retain-All t s.history at.history_at
  retain-run t s (c ∷ cs) at d =
      retain-commit t (run s cs) c (Descending-above t c cs d)
      ∙ retain-run t s cs at (Descending-tail t c cs d)

  rollback_loop-run :
      (t : BlockHeight) (s : MemoryState) (cs : List BlockCommit) (m : Metadata)
      → IsValid s
      → IsAt t s
      → Descending t cs
      → rollback_loop t
          (map (λ c. c.height) cs)
          (record (run s cs) { history = s.history; metadata = m })
        ≡ record s { metadata = m }
  unfolding run rollback_loop
  rollback_loop-run t s [] m v at d = refl
  rollback_loop-run t s (c ∷ cs) m v at d =
      ap (rollback_loop t (map (λ c'. c'.height) cs)) (
        rollback_height-commit t (run s cs) c s.history m (run-IsValid s cs v)
          (keys-run_below t s c cs at d)
        ∙ ap (λ h. record (run s cs) { history = h; metadata = m })
            (retain-All t s.history at.history_at))
      ∙ rollback_loop-run t s cs m v at (Descending-tail t c cs d)

  rollback_loop-cons :
      (t : BlockHeight) (c : BlockCommit) (cs : List BlockCommit) (s : MemoryState)
      → rollback_loop t (map (λ c'. c'.height) (c ∷ cs)) s
        ≡ rollback_loop t (map (λ c'. c'.height) cs) (rollback_height t c.height s)
  unfolding rollback_loop
  rollback_loop-cons t c cs s = refl

  rollback_loop-all :
      (t : BlockHeight) (s : MemoryState) (cs : List BlockCommit)
      → IsValid s
      → IsAt t s
      → Descending t cs
      → rollback_loop t (map (λ c. c.height) cs) (run s cs)
        ≡ record s { metadata = (run s cs).metadata }
  rollback_loop-all t s [] v at d = unfold run rollback_loop in refl
  rollback_loop-all t s (c ∷ cs) v at d =
      first ∙ rollback_loop-run t s cs (run s (c ∷ cs)).metadata v at (Descending-tail t c cs d)
    where
      latest : rollback_height t c.height (run s (c ∷ cs)) ≡ record (run s cs) {
        history = retain t (run s (c ∷ cs)).history;
        metadata = (run s (c ∷ cs)).metadata;
      }
      latest =
          unfold run in
          rollback_height-commit t (run s cs) c _ _ (run-IsValid s cs v)
            (keys-run_below t s c cs at d)

      first :
          rollback_loop t (map (λ c'. c'.height) (c ∷ cs)) (run s (c ∷ cs))
          ≡ rollback_loop t
              (map (λ c'. c'.height) cs)
              (record (run s cs) { history = s.history; metadata = (run s (c ∷ cs)).metadata })
      first =
          rollback_loop-cons t c cs (run s (c ∷ cs))
          ∙ ap (rollback_loop t (map (λ c'. c'.height) cs)) (
              latest
              ∙ ap (λ h. record (run s cs) { history = h; metadata = (run s (c ∷ cs)).metadata })
                  (retain-run t s (c ∷ cs) at d))

  -- After any run of commits at ascending heights above `t` on a well-formed store that has
  -- indexed nothing above `t`, `rollback_to t` gives back the store as it was before the run, in
  -- every field.
  pub rollback_to-run :
      (t : BlockHeight) (s : MemoryState) (cs : List BlockCommit)
      → IsValid s
      → IsAt t s
      → Descending t cs
      → rollback_to (run s cs) t ≡ s
  unfolding rollback_to
  rollback_to-run t s cs v at d =
      ap {A = MemoryState} (λ x. record x { metadata = last_metadata x.history })
        (ap (λ hs. rollback_loop t hs (run s cs)) (heights-run t s cs at d)
          ∙ rollback_loop-all t s cs v at d)
      ∙ ap {B = MemoryState} (λ m. record s { metadata = m }) (sym v.metadata_last)
