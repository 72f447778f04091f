-- ===== src/Audit.antt =====
-- python/rill_xray_agent/audit.py: the audit chain, an append-only log in segment files with a head and
-- an intent.
pub mod Redact
pub mod Log
pub mod Chain
pub mod Crash
pub mod Capacity
mod Examples
