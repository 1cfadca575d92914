-- ===== src/Indexer/Block/Activation.antt =====
-- The activation height in crates/zalkanes-indexer/src/lib.rs.
use zalkanes.Base.{
  ◌≡◌, refl, Option, some, [], true, ltb, ◌==◌, Result, ok, err, map, arith, subst, on_result,
  on_option, on_if,
}
use zalkanes.Base.Bytes.{Bytes}
use zalkanes.Core.{BlockHeight, BlockHash, mainnet}
use zalkanes.State.Memory.{MemoryState}
use zalkanes.Indexer.{
  IndexerConfig, activation_on, activation_height, ReadBlock, ParsedBlock, BlockExecution, Failure,
  Environment,
}
use zalkanes.Indexer.Parse.{parse_block, parse_transaction}
use zalkanes.Indexer.Block.{
  Processed, commit_empty, process_parsed_block, process_zcash_block, parse_and_process,
}

abbrev Unchanged : MemoryState → Result Processed Failure → Type 0
Unchanged store (err _) = Unit
Unchanged store (ok (store', e)) =
    (store' ≡ store)
    × (e.executions ≡ [])
    × (e.deployed ≡ [])
    × (e.state_root_after ≡ e.state_root_before)

-- On mainnet, whatever the override, a block that is processed leaves the store and its root as
-- they were and executes and deploys nothing.
pub process_zcash_block-mainnet :
    (env : Environment)
    → (store store' : MemoryState) → (o : Option BlockHeight) → (height : BlockHeight)
    → (hash : BlockHash) → (raw : Bytes) → (e : BlockExecution)
    → process_zcash_block env store
        (record { network = mainnet; regtest_activation_override = o })
        height
        hash
        raw
      ≡ ok (store', e)
    → (store' ≡ store)
      × (e.executions ≡ [])
      × (e.deployed ≡ [])
      × (e.state_root_after ≡ e.state_root_before)
unfolding process_zcash_block parse_and_process process_parsed_block activation_on
process_zcash_block-mainnet env store store' o height hash raw e h = subst (Unchanged store) h (
    on_result (Unchanged store) (parse_block env raw height hash mainnet)
      (λ _ _. (refl, refl, refl, refl)) (λ _ _. tt))

parse_and_process-read :
    (env : Environment)
    → (store : MemoryState) → (config : IndexerConfig) → (height : BlockHeight) → (hash : BlockHash)
    → (raw : Bytes) → (block : ReadBlock) → env.read_block raw config.network ≡ ok block
    → block.claimed_height ≡ height
    → parse_and_process env store config height hash raw
      ≡ process_parsed_block env store config
          (record { height = height; hash = hash; transactions = map parse_transaction block.vtx })
unfolding parse_and_process parse_block
parse_and_process-read env store config height hash raw block hr hc =
    let agree : (block.claimed_height == height) ≡ true = ground arith in
    rw (hr, agree, parse_and_process, parse_block) refl

process_parsed_block-early :
    (env : Environment)
    → (store : MemoryState) → (config : IndexerConfig) → (parsed : ParsedBlock)
    → (activation : BlockHeight) → activation_height config ≡ some activation
    → ltb parsed.height activation ≡ true
    → ok (commit_empty env store parsed.height parsed.hash)
      ≡ process_parsed_block env store config parsed
unfolding process_parsed_block
process_parsed_block-early env store config parsed activation ha early =
    rw (ha, early, process_parsed_block) refl

-- Where the block parses and claims the height it is given, the fast path of `process_zcash_block` has
-- no effect of its own: it is parsing followed by `process_parsed_block`.
pub process_zcash_block-fast_path :
    (env : Environment)
    → (store : MemoryState) → (config : IndexerConfig) → (height : BlockHeight) → (hash : BlockHash)
    → (raw : Bytes) → (block : ReadBlock) → env.read_block raw config.network ≡ ok block
    → block.claimed_height ≡ height
    → process_zcash_block env store config height hash raw
      ≡ process_parsed_block env store config
          (record { height = height; hash = hash; transactions = map parse_transaction block.vtx })
unfolding process_zcash_block
process_zcash_block-fast_path env store config height hash raw block hr hc =
    let later = parse_and_process-read env store config height hash raw block hr hc in
    on_option Agrees (activation_height config) (λ _. later)
      λ activation ha.
        on_if Agrees (ltb height activation)
          (process_parsed_block-early env store config parsed activation ha) (λ _. later)
  where
    parsed : ParsedBlock
    parsed = record { height = height; hash = hash; transactions = map parse_transaction block.vtx }

    Agrees : Result Processed Failure → Type 0
    Agrees r = r ≡ process_parsed_block env store config parsed
