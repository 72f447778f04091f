-- ===== src/RouteContract.antt =====
-- python/rill_xray_agent/route_contract.py: the operations on routing rules that the planner and the
-- executor agree on, and how risky each is against the rules in force.
pub mod Names
pub mod Risk
pub mod Aggregate
