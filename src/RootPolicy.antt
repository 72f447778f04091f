-- ===== src/RootPolicy.antt =====
-- python/rill_xray_agent/root_policy.py: the root-owned execution policy with its epoch, over the
-- ledger of `AutoPolicy`. The operations are in the children `Load` and `Methods`.
pub mod State
pub mod Load
pub mod Methods
pub mod Epoch
pub mod History
pub mod Eligible
pub mod Stale
mod Examples
