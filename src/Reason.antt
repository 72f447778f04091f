-- ===== src/Reason.antt =====
-- The texts that `blockedBy` lists hold, in auto_policy.py, root_policy.py and route_policy.py.
use rill_xray_agent.Prelude.{Bool, List, ◌∷◌, if◌then◌else◌}

pub data Reason : Type 0 where
  policy_corrupt fusible_closed same_recommendation_cooldown auto_global_cooldown : Reason
  auto_rate_limited mode_safe_disabled mode_observe_only execution_epoch_mismatch : Reason
  auto_requires_confirmation auto_risk_not_eligible auto_op_not_allowlisted : Reason
  health_not_ready recovery_required observation_integrity_invalid : Reason
  timeline_integrity_invalid feature_not_released feature_not_supported : Reason
  plan_invalid plan_expired generation_mismatch config_hash_mismatch : Reason
  observation_stale rate_limited in_cooldown : Reason

-- `if test: blocked.append(reason)`, before the reasons that follow
abbrev pub when : Bool → Reason → List Reason → List Reason
when test reason rest = if test then reason ∷ rest else rest
