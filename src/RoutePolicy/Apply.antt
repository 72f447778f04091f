-- ===== src/RoutePolicy/Apply.antt =====
-- What `RoutePolicy` allows against what it lists as blocking.
use rill_xray_agent.Prelude.{◌≡◌, ◌↔◌, ◌⊎◌, true, List, [], ◌∷◌, arith}
use rill_xray_agent.Reason.{Reason, feature_not_released, feature_not_supported}
use rill_xray_agent.ReleaseCapabilities.{route_assist, bounded_auto}
use rill_xray_agent.RootPolicy.State.{normal, assist, auto}
use rill_xray_agent.RoutePolicy.Gates.{
  RoutePolicy, unsupported, unreleased, released, feature_status, blocked_by, plan_allowed,
  manual_gates_ok, auto_gates_ok, compute_normal, evaluate,
}

-- In the mode normal and at the stage assist, a plan may be applied by hand exactly when the list of
-- blocking reasons is empty.
pub assist_iff :
    (p : RoutePolicy)
    → p.mode ≡ normal
    → p.configured_stage ≡ assist
    → ((evaluate p).can_manual_apply ≡ true) ↔ ((evaluate p).blocked_by ≡ [])
unfolding evaluate compute_normal blocked_by manual_gates_ok plan_allowed
assist_iff p m s = (λ h. ground arith, λ h. ground arith)

-- the one reason that says why Route Assist is missing
abbrev pub OnlyAssistMissing : RoutePolicy → List Reason → Type 0
OnlyAssistMissing p reasons =
    let status = feature_status p.release_capabilities route_assist in
    ((status ≡ unreleased) × (reasons ≡ feature_not_released ∷ []))
    ⊎ ((status ≡ unsupported) × (reasons ≡ feature_not_supported ∷ []))

-- In the mode normal and at the stage auto, a plan may be applied automatically exactly when the list
-- of blocking reasons is empty, or when Bounded Auto is released and the list holds one reason alone,
-- that Route Assist is not released or not supported.
pub auto_iff :
    (p : RoutePolicy)
    → p.mode ≡ normal
    → p.configured_stage ≡ auto
    → ((evaluate p).can_auto_apply ≡ true) ↔ (
        ((evaluate p).blocked_by ≡ [])
        ⊎ ((feature_status p.release_capabilities bounded_auto ≡ released)
            × OnlyAssistMissing p (evaluate p).blocked_by))
unfolding evaluate compute_normal blocked_by auto_gates_ok plan_allowed
auto_iff p m s = (λ h. ground arith, λ h. ground arith)
