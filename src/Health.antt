-- ===== src/Health.antt =====
-- python/rill_xray_agent/health.py: what the runtime reads off the transactions before it is ready.
pub mod Scan
pub mod Ready
mod Examples
