-- ===== src/Ledger.antt =====
-- python/rill_xray_agent/state.py, `ClosedLedger`: the tombstones of the decisions that are closed.
pub mod Files
pub mod Final
mod Examples
