-- ===== src/RoutePolicy/Gates.antt =====
-- `RoutePolicy`.
use rill_xray_agent.Prelude.{Bool, true, false, not, ◌&&◌, ◌||◌, List, [], ◌∷◌, if◌then◌else◌}
use rill_xray_agent.Reason.{
  Reason, when, mode_safe_disabled, mode_observe_only, health_not_ready, recovery_required,
  observation_integrity_invalid, timeline_integrity_invalid, feature_not_released,
  feature_not_supported, plan_invalid, plan_expired, generation_mismatch, config_hash_mismatch,
  execution_epoch_mismatch, observation_stale, fusible_closed, rate_limited, in_cooldown,
  auto_requires_confirmation, auto_risk_not_eligible, auto_op_not_allowlisted,
}
use rill_xray_agent.ReleaseCapabilities.{
  Manifest, Feature, route_assist, bounded_auto, is_supported, is_released,
}
use rill_xray_agent.RootPolicy.State.{
  Mode, RouteStage, normal, observe_only, safe_disabled, assist, auto,
}

-- The arguments of `__init__`; `health_ready` is `health.get('status') == 'ready'`. The mode is one of
-- the three that the runtime service lets through before it plans; the source takes any other text for
-- the mode normal.
pub record RoutePolicy : Type 0 where
  pub mode : Mode
  pub configured_stage : RouteStage
  pub release_capabilities : Manifest
  pub health_ready : Bool
  pub recovery_needed : Bool
  pub observation_fresh : Bool
  pub observation_integrity_valid : Bool
  pub timeline_integrity_valid : Bool
  pub plan_valid : Bool
  pub plan_not_expired : Bool
  pub generation_match : Bool
  pub config_hash_match : Bool
  pub execution_epoch_match : Bool
  pub fusible_open : Bool
  pub rate_limit_ok : Bool
  pub cooldown_ok : Bool
  pub auto_confirmed : Bool
  pub risk_auto_eligible : Bool
  pub auto_allowlisted_op : Bool

pub data FeatureStatus : Type 0 where
  unsupported unreleased released : FeatureStatus

-- `_feature_status`
unfoldable pub feature_status : Manifest → Feature → FeatureStatus
feature_status m f =
    if is_supported m f then (if is_released m f then released else unreleased) else unsupported

-- `effectiveStage`
pub data EffectiveStage : Type 0 where
  stage_disabled stage_observe stage_assist stage_auto : EffectiveStage

-- `_result`
pub record Decision : Type 0 where
  pub can_plan : Bool
  pub can_manual_approve : Bool
  pub can_manual_apply : Bool
  pub can_auto_apply : Bool
  pub shadow_would_apply : Bool
  pub effective_stage : EffectiveStage
  pub blocked_by : List Reason

abbrev pub is_status_released : FeatureStatus → Bool
is_status_released released = true
is_status_released _ = false

abbrev pub is_status_supported : FeatureStatus → Bool
is_status_supported unsupported = false
is_status_supported _ = true

-- `configured_stage in ('assist', 'auto')`
abbrev pub needs_route_assist : RouteStage → Bool
needs_route_assist assist = true
needs_route_assist auto = true
needs_route_assist _ = false

-- `configured_stage == 'auto'`
abbrev pub needs_bounded_auto : RouteStage → Bool
needs_bounded_auto auto = true
needs_bounded_auto _ = false

-- the reason for a feature that is needed and not released
abbrev pub feature_reason : Bool → FeatureStatus → List Reason → List Reason
feature_reason true unsupported rest = feature_not_supported ∷ rest
feature_reason true unreleased rest = feature_not_released ∷ rest
feature_reason _ _ rest = rest

abbrev pub health_reasons : RoutePolicy → List Reason → List Reason
health_reasons p rest = when (not p.health_ready) health_not_ready (
    when p.recovery_needed recovery_required (
      when (not p.observation_integrity_valid) observation_integrity_invalid
        (when (not p.timeline_integrity_valid) timeline_integrity_invalid rest)))

abbrev pub plan_reasons : RoutePolicy → List Reason → List Reason
plan_reasons p rest = when (not p.plan_valid) plan_invalid (
    when (not p.plan_not_expired) plan_expired (
      when (not p.generation_match) generation_mismatch (
        when (not p.config_hash_match) config_hash_mismatch
          (when (not p.execution_epoch_match) execution_epoch_mismatch rest))))

abbrev pub auto_reasons : RoutePolicy → List Reason
auto_reasons p = when (not p.observation_fresh) observation_stale (
    when (not p.fusible_open) fusible_closed (
      when (not p.rate_limit_ok) rate_limited (
        when (not p.cooldown_ok) in_cooldown (
          when (not p.auto_confirmed) auto_requires_confirmation (
            when (not p.risk_auto_eligible) auto_risk_not_eligible
              (when (not p.auto_allowlisted_op) auto_op_not_allowlisted []))))))

-- `blocked` at the end of `_compute_normal`
unfoldable pub blocked_by : RoutePolicy → List Reason
blocked_by p =
    let stage = p.configured_stage in
    health_reasons p (
      feature_reason (needs_route_assist stage) (feature_status p.release_capabilities route_assist)
        (feature_reason (needs_bounded_auto stage)
          (feature_status p.release_capabilities bounded_auto)
          (let autos = if needs_bounded_auto stage then auto_reasons p else [] in
            if needs_route_assist stage || needs_bounded_auto stage
            then plan_reasons p autos
            else autos)))

abbrev pub plan_gates_ok : RoutePolicy → Bool
plan_gates_ok p =
    p.plan_valid && p.plan_not_expired && p.generation_match && p.config_hash_match
    && p.execution_epoch_match

-- `can_plan`
unfoldable pub plan_allowed : RoutePolicy → Bool
plan_allowed p =
    p.health_ready
    && not p.recovery_needed
    && p.observation_integrity_valid
    && p.timeline_integrity_valid

unfoldable pub manual_gates_ok : RoutePolicy → Bool
unfolding plan_allowed
manual_gates_ok p =
    is_status_released (feature_status p.release_capabilities route_assist)
    && needs_route_assist p.configured_stage
    && plan_allowed p
    && plan_gates_ok p

unfoldable pub auto_gates_ok : RoutePolicy → Bool
unfolding plan_allowed
auto_gates_ok p =
    is_status_released (feature_status p.release_capabilities bounded_auto)
    && needs_bounded_auto p.configured_stage
    && plan_allowed p
    && plan_gates_ok p
    && p.observation_fresh
    && p.fusible_open
    && p.rate_limit_ok
    && p.cooldown_ok
    && p.auto_confirmed
    && p.risk_auto_eligible
    && p.auto_allowlisted_op

-- `_compute_normal`
unfoldable pub compute_normal : RoutePolicy → Decision
compute_normal p = record {
  can_plan = plan_allowed p;
  can_manual_approve = manual_gates_ok p;
  can_manual_apply = manual_gates_ok p;
  can_auto_apply = auto_gates_ok p;
  shadow_would_apply =
      not p.recovery_needed
      && p.health_ready
      && p.observation_integrity_valid
      && p.timeline_integrity_valid
      && (is_status_supported (feature_status p.release_capabilities route_assist)
          || is_status_supported (feature_status p.release_capabilities bounded_auto));
  effective_stage =
      if auto_gates_ok p
      then stage_auto
      else if manual_gates_ok p
      then stage_assist
      else stage_observe;
  blocked_by = blocked_by p;
}

abbrev pub closed : Bool → EffectiveStage → Reason → Decision
closed can_plan stage reason = record {
  can_plan = can_plan;
  can_manual_approve = false;
  can_manual_apply = false;
  can_auto_apply = false;
  shadow_would_apply = false;
  effective_stage = stage;
  blocked_by = reason ∷ [];
}

abbrev compute : Mode → RoutePolicy → Decision
compute safe_disabled p = closed false stage_disabled mode_safe_disabled
compute observe_only p = closed true stage_observe mode_observe_only
compute normal p = compute_normal p

-- `evaluate`, which keeps what `_compute` has returned
unfoldable pub evaluate : RoutePolicy → Decision
evaluate p = compute p.mode p
