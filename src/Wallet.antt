-- ===== src/Wallet.antt =====
-- crates/zalkanes-wallet: the operation journal, broadcast and reconciliation.
pub mod Journal
pub mod Broadcast
pub mod Funding
pub mod Plan
pub mod Recovery
mod Tests
