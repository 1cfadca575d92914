-- ===== src/Lib.antt =====
-- zalkanes: smart contracts carried by transparent Zcash transactions. An indexer reads each Zcash
-- block, finds protocol messages in OP_RETURN outputs, rebuilds deployed WASM modules from the
-- scriptSigs of inputs, executes calls under metered fuel, and commits the writes of the block to a
-- state store whose root every node must compute alike and which a chain reorganisation rolls back.
--
-- The parts, and the files that model them.
-- Core: crates/zalkanes-core/src/types.rs and consensus.rs, identifiers, `Execution`, the networks,
--   `ContractId::derive` and the consensus constants.
-- Protocol: crates/zalkanes-protocol/src/lib.rs, the messages DEPLOY, CALL and CALL_CARRIER with
--   `parse_op_return` and the encoders.
-- Carrier: crates/zalkanes-carrier/src/lib.rs, `split` and `reconstruct`; Carrier/Script has
--   `extract_op_return_data`, `parse_script_pushes` and `chunk_from_script_sig`.
-- Tx: crates/zalkanes-tx/src/lib.rs, the script builders, sizes and fees; Tx/Carried follows a module
--   from its sender to the indexer, and Tx/Plan has the PREPARE, DEPLOY and CALL plans.
-- State: crates/zalkanes-state/src/lib.rs, the commit, the leaves and the root; State/Memory is the
--   store `MemoryState` with `projected_root`, State/Undo the binary form of the undo journal.
-- Runtime: crates/zalkanes-runtime/src/lib.rs; Runtime/Host has the six host functions,
--   Runtime/Memory the ranges of linear memory, Runtime/Execute `execute` and Runtime/Validate
--   `validate_module`.
-- Indexer: crates/zalkanes-indexer/src/lib.rs and parse.rs; Indexer/Parse is `parse_block`,
--   Indexer/Transaction `process_transaction` with its handlers, Indexer/Block
--   `process_parsed_block` and `process_zcash_block`.
--   Indexer/Sync is crates/zalkanes-indexer/src/sync.rs: `tick` with `handle_reorg`, the fast-forward
--   and the index loop, `run`, and the health bookkeeping.
-- Wallet: crates/zalkanes-wallet/src; Wallet/Journal is journal.rs, with the stages in Journal/Stage,
--   Wallet/Broadcast is broadcast.rs, `broadcast_verified` and `reconcile`, Wallet/Recovery is
--   `startup_recover` of recovery.rs, Wallet/Funding is funding.rs, policy.rs and the plan of
--   transparent.rs, and Wallet/Plan is `commit_plan` of plan.rs.
-- Base: lists, results, orders, ordered maps, bytes and texts that the parts share.
--
-- The indexer calls the protocol and carrier readers, the runtime and the store, as the source does;
-- `&mut` arguments are records passed on (`Progress`, `HostState`, `MemoryState`), and a Rust
-- `BTreeMap` is an association list kept in key order, so that two maps with the same entries are
-- equal. Numbers are naturals; where the source casts to a narrower integer or wraps, the remainder is
-- written out, and an `i32` of a contract is its 32-bit word.
--
-- Parameters, for code outside the repository: SHA-256, BLAKE2b-256 with a personalization, HASH160,
-- the wasmi engine (`Engine`: parsing, fuel, and instantiation, which gives what the contract does as
-- a finite tree of host calls), the wasmparser section reader, the reader of Zcash blocks, the chain
-- source, the broadcast transport, the status source and the lock store. What a theorem assumes of
-- them, such as a lock store that releases, is among its conditions. The journal's SQLite table is the
-- list of its rows.
--
-- Fuel: `pieces` and `push_loop` run on the length of the byte string they take from, and each round
-- takes at least a byte; the round trips through them hold with that fuel. The loops of the sync run
-- on fuel with an end of its own for running out of it.
--
-- Not modelled: the RocksDB store, the signing of transactions, the shielded wallet and its
-- database, the authorization of plans, the chain source, the command line, the RPC server, the SDK,
-- and the example contracts.

pub mod Base
pub mod Core
pub mod Protocol
pub mod Carrier
pub mod Tx
pub mod State
pub mod Runtime
pub mod Indexer
pub mod Wallet
