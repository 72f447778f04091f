-- ===== src/Observer.antt =====
-- python/rill_xray_agent/observer_transition.py: the commit of an observation and its events.
pub mod Transition
pub mod Replay
pub mod Load
pub mod Once
pub mod Commit
pub mod Repeated
mod Examples
