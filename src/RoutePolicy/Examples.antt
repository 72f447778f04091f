-- ===== src/RoutePolicy/Examples.antt =====
-- The theorems on the route policy and the release gate at a concrete plan and host.
use rill_xray_agent.Prelude.{◌≡◌, refl, ◌↔◌, ◌⊎◌, true, false, some, []}
use rill_xray_agent.Prelude.Int.{pos}
use rill_xray_agent.Json.{Json, bool, num, str, obj, field, end}
use rill_xray_agent.ReleaseCapabilities.{
  Manifest, route_assist, bounded_auto, entry, load, is_released, is_supported, SaysReleased,
  is_released-says,
}
use rill_xray_agent.RootPolicy.State.{normal, assist, auto}
use rill_xray_agent.RoutePolicy.Gates.{
  RoutePolicy, released, feature_status, compute_normal, manual_gates_ok, plan_allowed, evaluate,
}
use rill_xray_agent.RoutePolicy.Plan.{Context, policy_of, evaluate_plan_policy}
use rill_xray_agent.RoutePolicy.Apply.{OnlyAssistMissing, assist_iff, auto_iff}
use rill_xray_agent.RoutePolicy.Concrete.{IsSubmittable, plan-IsSubmittable}

-- Route Assist is released, Bounded Auto is not
abbrev assist_released : Json
assist_released = obj (
    field "schemaVersion" (num (pos 1)) (
      field "features" (obj (field "routeAssist" (obj (field "released" (bool true) end)) end))
        end))

is_assist_released : is_released (load (some assist_released)) route_assist ≡ true
unfolding load is_released entry
is_assist_released = refl

is_released-says_example : SaysReleased (some assist_released) route_assist
is_released-says_example = is_released-says (some assist_released) route_assist is_assist_released

abbrev manifest : Manifest
manifest = record {
  on_route_assist = record { supported = true; released = true };
  on_bounded_auto = record { supported = true; released = false };
}

abbrev context : Context
context = record {
  mode = normal;
  configured_stage = assist;
  release_capabilities = manifest;
  health_ready = true;
  recovery_needed = false;
  observation_fresh = true;
  observation_integrity_valid = true;
  timeline_integrity_valid = true;
  current_generation = 4;
  current_config_sha256 = some "live";
  current_execution_epoch = num (pos 7);
  auto_confirmed = false;
  risk_auto_eligible = false;
  auto_allowlisted_op = false;
  fusible_open = true;
  rate_limit_ok = true;
  cooldown_ok = true;
  now = 1000;
}

abbrev plan : Json
plan = obj (
    field "schemaVersion" (num (pos 1)) (
      field "planSha256" (str "plan") (
        field "expiresAtEpochSeconds" (num (pos 2000)) (
          field "configurationGeneration" (num (pos 4))
            (field "sourceConfigSha256" (str "live") end)))))

plan_applicable : (evaluate_plan_policy context plan).can_manual_apply ≡ true
unfolding evaluate_plan_policy policy_of evaluate compute_normal manual_gates_ok plan_allowed
    feature_status is_supported is_released entry
plan_applicable = refl

plan-IsSubmittable_example : IsSubmittable context plan
plan-IsSubmittable_example = plan-IsSubmittable context plan plan_applicable

abbrev gates : RoutePolicy
gates = record {
  mode = normal;
  configured_stage = assist;
  release_capabilities = manifest;
  health_ready = true;
  recovery_needed = false;
  observation_fresh = true;
  observation_integrity_valid = true;
  timeline_integrity_valid = true;
  plan_valid = true;
  plan_not_expired = true;
  generation_match = true;
  config_hash_match = true;
  execution_epoch_match = true;
  fusible_open = true;
  rate_limit_ok = true;
  cooldown_ok = true;
  auto_confirmed = true;
  risk_auto_eligible = true;
  auto_allowlisted_op = true;
}

assist_iff_example : ((evaluate gates).can_manual_apply ≡ true) ↔ ((evaluate gates).blocked_by ≡ [])
assist_iff_example = assist_iff gates refl refl

-- Bounded Auto is released, Route Assist is not
abbrev auto_alone : RoutePolicy
auto_alone = record gates {
  configured_stage = auto;
  release_capabilities = record {
    on_route_assist = record { supported = true; released = false };
    on_bounded_auto = record { supported = true; released = true };
  };
}

auto_iff_example : ((evaluate auto_alone).can_auto_apply ≡ true) ↔ (
    ((evaluate auto_alone).blocked_by ≡ [])
    ⊎ ((feature_status auto_alone.release_capabilities bounded_auto ≡ released)
        × OnlyAssistMissing auto_alone (evaluate auto_alone).blocked_by))
auto_iff_example = auto_iff auto_alone refl refl
