-- ===== src/Indexer/Sync/Tests.antt =====
-- A source of empty blocks, a store of two commits, and the theorems on the sync loop at them.
use zalkanes.Base.{
  ◌≡◌, refl, arith, List, [], ◌∷◌, false, none, some, ok, length, ltb, if◌then◌else◌,
}
use zalkanes.Base.Bytes.{Bytes}
use zalkanes.Core.{mainnet, regtest}
use zalkanes.Runtime.Execute.{Engine, finished, returned, dispatch}
use zalkanes.State.{BlockCommit}
use zalkanes.State.Memory.{MemoryState, empty, apply_commit, commit_block}
use zalkanes.State.Memory.Rollback.{run}
use zalkanes.Indexer.{IndexerConfig, ParsedBlock, Environment, activation_on}
use zalkanes.Indexer.Parse.{parse_block}
use zalkanes.Indexer.Block.{empty_commit}
use zalkanes.Indexer.Sync.{ChainSource, out_of_fuel, index_loop, handle_reorg}
use zalkanes.Indexer.Sync.Spinning.{index_loop-spins}
use zalkanes.Indexer.Sync.Progress.{index_loop-CaughtUp, CaughtUp}
use zalkanes.Indexer.Sync.Reorg.{handle_reorg-Reorged, Reorged, IsRun}

abbrev toy_hash : Bytes → Bytes → Bytes
toy_hash personalization bytes = length bytes ∷ []

abbrev engine : Engine
engine = record {
  parse_module = λ _. ok tt;
  set_fuel = λ _. ok tt;
  instantiate = λ _ _ _ _. dispatch (finished (returned 0) 0);
}

-- Every block is the empty block of height 1.
abbrev env : Environment
env = record {
  sha256 = λ bytes. length bytes ∷ [];
  blake2b = toy_hash;
  engine = engine;
  parse_all = λ _. ok [];
  read_block = λ _ _. ok record { claimed_height = 1; vtx = [] };
}

-- Height 2 has moved to another block.
abbrev source : ChainSource
source = record {
  tip = ok record { height = 1; hash = 1 ∷ [] };
  block_hash = λ h. ok (if ltb h 2 then 1 ∷ [] else 9 ∷ []);
  raw_block = λ _. ok [];
}

abbrev on_mainnet : IndexerConfig
on_mainnet = record { network = mainnet; regtest_activation_override = none }

abbrev on_regtest : IndexerConfig
on_regtest = record { network = regtest; regtest_activation_override = some 1 }

abbrev parsed : ParsedBlock
parsed = record { height = 1; hash = 1 ∷ []; transactions = [] }

index_loop-spins_example :
    index_loop env source on_mainnet 1000 (λ _. false) 1 empty ≡ (out_of_fuel, empty)
unfolding activation_on parse_block
index_loop-spins_example =
    index_loop-spins env source on_mainnet 1000 (λ _. false) 1 empty (1 ∷ []) [] parsed refl
      (λ _. refl) (omega arith) refl refl refl

index_loop-CaughtUp_example :
    CaughtUp env source on_regtest 1 1 (index_loop env source on_regtest 2 (λ _. false) 1 empty)
unfolding activation_on
index_loop-CaughtUp_example =
    index_loop-CaughtUp env source on_regtest 1 2 (λ _. false) 1 empty refl (λ _. refl)
      (omega arith) (omega arith)

abbrev commits : List BlockCommit
commits = empty_commit 2 (2 ∷ []) ∷ empty_commit 1 (1 ∷ []) ∷ []

abbrev two_blocks : MemoryState
two_blocks = run toy_hash empty commits

built : IsRun toy_hash source commits two_blocks
unfolding run commit_block apply_commit
built = refl

handle_reorg-Reorged_example : Reorged toy_hash source commits (handle_reorg source 3 two_blocks)
handle_reorg-Reorged_example =
    handle_reorg-Reorged toy_hash source 3 commits two_blocks (omega arith)
      (omega arith, omega arith) (omega arith, (omega arith, tt)) built
