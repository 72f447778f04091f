-- ===== src/RouteExecutor.antt =====
-- python/rill_xray_agent/route_executor.py: the only component that changes the routing rules of the
-- host. What it accepts as a request, how it edits the rules and which gates it asks.
pub mod Errors
pub mod Validate
pub mod Compile
pub mod Splice
pub mod Tags
pub mod UserRules
pub mod Config
pub mod Reads
pub mod Places
pub mod Bounds
pub mod Flooded
pub mod Request
pub mod Gates
pub mod Authorize
pub mod Cleared
pub mod Recovered
pub mod Authorized
pub mod Directory
pub mod Run
pub mod Examples
mod Samples
