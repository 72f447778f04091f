-- ===== src/Operation.antt =====
-- python/rill_xray_agent/operation.py: the recovery of an operation whose intent is on disk.
pub mod Recover
pub mod Healed
pub mod Recorded
pub mod Converges
mod Examples
