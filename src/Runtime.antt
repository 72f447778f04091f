-- ===== src/Runtime.antt =====
-- python/rill_xray_agent/state.py, `RuntimeState`: the registration of decisions and their results.
pub mod Decisions
pub mod Once
mod Examples
