-- ===== src/RootTxn.antt =====
-- python/rill_xray_agent/root_txn.py: the transaction that changes the managed configuration file,
-- with its write-ahead work directory, its rollback and its recovery.
pub mod World
pub mod Steps
pub mod Triples
pub mod Apply
pub mod Safe
pub mod Mutation
pub mod Budget
pub mod Finish
pub mod Restore
pub mod Recovery
pub mod Atomic
pub mod Recover
pub mod Attempt
pub mod Prepare
pub mod Crash
pub mod Scan
pub mod Unbegun
mod Examples
