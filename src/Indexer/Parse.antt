-- ===== src/Indexer/Parse.antt =====
-- `parse_block` of crates/zalkanes-indexer/src/parse.rs, over what `Block::read` gives.
use Prim.Native.String.{String}
use zalkanes.Base.{
  ℕ, ◌+◌, ◌%◌, ◌^◌, none, some, List, [], ◌∷◌, map, not, ◌==◌, if◌then◌else◌, Result, ok, err,
  and_then,
}
use zalkanes.Base.Bytes.{Bytes}
use zalkanes.Base.Text.{◌<>◌, decimal}
use zalkanes.Core.{Network, BlockHeight, BlockHash}
use zalkanes.Indexer.{ParsedTransaction, ParsedBlock, ReadTransaction, Environment}

-- `enumerate` with the index cut to `w` bits.
unfoldable pub number_scripts : ℕ → ℕ → List Bytes → List (ℕ × Bytes)
number_scripts w i [] = []
number_scripts w i (s ∷ ss) = (i % 2 ^ w, s) ∷ number_scripts w (i + 1) ss

unfoldable pub parse_transaction : ReadTransaction → ParsedTransaction
parse_transaction tx = elim tx.transparent_bundle [
  | none ↦ record { txid = tx.txid; outputs = []; inputs = [] }
  | some (vout, vin) ↦ record {
    txid = tx.txid;
    outputs = number_scripts 16 0 vout;
    inputs = number_scripts 32 0 vin;
  }
]

unfoldable pub parse_block :
    Environment → Bytes → BlockHeight → BlockHash → Network → Result ParsedBlock String
parse_block env raw height hash network = and_then (env.read_block raw network) λ block.
    if not (block.claimed_height == height)
    then err (
        "block height mismatch: chain source said "
        <> decimal height
        <> ", coinbase claims "
        <> decimal block.claimed_height)
    else ok
        (record { height = height; hash = hash; transactions = map parse_transaction block.vtx })
