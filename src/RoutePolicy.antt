-- ===== src/RoutePolicy.antt =====
-- python/rill_xray_agent/route_policy.py: the fail-closed gate before a route plan may be applied.
pub mod Gates
pub mod Plan
pub mod Apply
pub mod Concrete
mod Examples
