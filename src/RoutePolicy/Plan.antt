-- ===== src/RoutePolicy/Plan.antt =====
-- `evaluate_plan_policy`.
use rill_xray_agent.Prelude.{
  ℕ, ◌==◌, String, Bool, true, false, ◌&&◌, Option, none, some, leb, str_eq, if◌then◌else◌,
}
use rill_xray_agent.Prelude.Int.{pos}
use rill_xray_agent.Json.{Json, num, str, obj, member, int_of}
use rill_xray_agent.ReleaseCapabilities.{Manifest, is_version_one}
use rill_xray_agent.RootPolicy.State.{Mode, RouteStage}
use rill_xray_agent.RoutePolicy.Gates.{RoutePolicy, Decision, evaluate}

-- a text that is not empty
abbrev pub text_of : Option Json → Option String
text_of (some (str s)) = if str_eq s "" then none else some s
text_of _ = none

abbrev pub is_some {ℓ} : {A : Type ℓ} → Option A → Bool
is_some none = false
is_some (some _) = true

-- `isinstance(exp, int) and now <= exp`
abbrev pub is_due_by : ℕ → Option Json → Bool
is_due_by now none = false
is_due_by now (some j) = elim (int_of j) [ some (pos n) ↦ leb now n | _ ↦ false ]

-- `plan.get('configurationGeneration') == current_generation`
abbrev pub is_generation : ℕ → Option Json → Bool
is_generation g none = false
is_generation g (some j) = elim (int_of j) [ some (pos n) ↦ n == g | _ ↦ false ]

-- the text is not empty and is the live hash; `None` is the hash of no live file
abbrev pub is_hash : Option String → Option String → Bool
is_hash none _ = false
is_hash (some s) none = false
is_hash (some s) (some current) = str_eq s current

-- an integer of at least 0 that is no boolean
abbrev pub is_epoch : Json → Bool
is_epoch (num (pos n)) = true
is_epoch _ = false

-- The state that the caller reads, and what it holds proven.
pub record Context : Type 0 where
  pub mode : Mode
  pub configured_stage : RouteStage
  pub release_capabilities : Manifest
  pub health_ready : Bool
  pub recovery_needed : Bool
  pub observation_fresh : Bool
  pub observation_integrity_valid : Bool
  pub timeline_integrity_valid : Bool
  pub current_generation : ℕ
  pub current_config_sha256 : Option String
  pub current_execution_epoch : Json
  pub auto_confirmed : Bool
  pub risk_auto_eligible : Bool
  pub auto_allowlisted_op : Bool
  pub fusible_open : Bool
  pub rate_limit_ok : Bool
  pub cooldown_ok : Bool
  pub now : ℕ

abbrev pub plan_policy : Context → Bool → Bool → Bool → Bool → RoutePolicy
plan_policy c valid not_expired generation hash = record {
  mode = c.mode;
  configured_stage = c.configured_stage;
  release_capabilities = c.release_capabilities;
  health_ready = c.health_ready;
  recovery_needed = c.recovery_needed;
  observation_fresh = c.observation_fresh;
  observation_integrity_valid = c.observation_integrity_valid;
  timeline_integrity_valid = c.timeline_integrity_valid;
  plan_valid = valid;
  plan_not_expired = not_expired;
  generation_match = generation;
  config_hash_match = hash;
  execution_epoch_match = is_epoch c.current_execution_epoch;
  fusible_open = c.fusible_open;
  rate_limit_ok = c.rate_limit_ok;
  cooldown_ok = c.cooldown_ok;
  auto_confirmed = c.auto_confirmed;
  risk_auto_eligible = c.risk_auto_eligible;
  auto_allowlisted_op = c.auto_allowlisted_op;
}

-- the facts of the plan; all are false for a value that is no object
unfoldable pub policy_of : Context → Json → RoutePolicy
policy_of c (obj plan) =
    plan_policy c
      (is_version_one (member "schemaVersion" plan) && is_some (text_of (member "planSha256" plan)))
      (is_due_by c.now (member "expiresAtEpochSeconds" plan))
      (is_generation c.current_generation (member "configurationGeneration" plan))
      (is_hash (text_of (member "sourceConfigSha256" plan)) c.current_config_sha256)
policy_of c _ = plan_policy c false false false false

unfoldable pub evaluate_plan_policy : Context → Json → Decision
unfolding policy_of evaluate
evaluate_plan_policy c plan = evaluate (policy_of c plan)
