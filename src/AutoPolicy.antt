-- ===== src/AutoPolicy.antt =====
-- python/rill_xray_agent/auto_policy.py: the cooldowns, the rate limit and the rollback fuse of
-- automatic applies. `load` is in the child `Load`, the methods in `Methods`.
pub mod State
pub mod Load
pub mod Methods
pub mod Branches
pub mod Eligible
pub mod Restart
pub mod Replay
pub mod Fuse
pub mod Window
mod Examples
