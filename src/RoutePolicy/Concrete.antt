-- ===== src/RoutePolicy/Concrete.antt =====
-- When a concrete plan may be applied by hand.
use mathlib.Core.Bool.{false≢true}
use rill_xray_agent.Prelude.{
  ℕ, ◌≤◌, String, ◌≡◌, ◌≢◌, refl, ◌⊎◌, inl, inr, true, false, Option, none, some, arith, &&-left,
  &&-right, Option-cases, eq_iff,
}
use rill_xray_agent.Prelude.Int.{pos, negsuc}
use rill_xray_agent.Json.{Json, Fields, null, bool, real, arr, obj, num, str, member, int_of}
use rill_xray_agent.ReleaseCapabilities.{route_assist, is_version_one}
use rill_xray_agent.RootPolicy.State.{normal, assist, auto}
use rill_xray_agent.RoutePolicy.Gates.{
  RoutePolicy, released, feature_status, compute_normal, evaluate, manual_gates_ok, plan_allowed,
}
use rill_xray_agent.RoutePolicy.Plan.{
  Context, text_of, is_some, is_due_by, is_generation, is_hash, is_epoch, policy_of,
  evaluate_plan_policy,
}

-- What a plan has to say, and what the host has to say of itself.
pub record IsSubmittable (c : Context) (plan : Json) : Type 0 where
  pub mode_normal : c.mode ≡ normal
  pub stage_on : (c.configured_stage ≡ assist) ⊎ (c.configured_stage ≡ auto)
  pub assist_released : feature_status c.release_capabilities route_assist ≡ released
  pub ready : c.health_ready ≡ true
  pub recovered : c.recovery_needed ≡ false
  pub observation : c.observation_integrity_valid ≡ true
  pub timeline : c.timeline_integrity_valid ≡ true
  pub fields : Fields
  pub is_object : plan ≡ obj fields
  pub version : is_version_one (member "schemaVersion" fields) ≡ true
  pub sha : String
  pub sha_is : member "planSha256" fields ≡ some (str sha)
  pub sha_filled : sha ≢ ""
  pub expires_json : Json
  pub expires_is : member "expiresAtEpochSeconds" fields ≡ some expires_json
  pub expires : ℕ
  pub expires_int : int_of expires_json ≡ some (pos expires)
  pub unexpired : c.now ≤ expires
  pub generation_json : Json
  pub generation_is : member "configurationGeneration" fields ≡ some generation_json
  pub generation : int_of generation_json ≡ some (pos c.current_generation)
  pub source : String
  pub source_is : member "sourceConfigSha256" fields ≡ some (str source)
  pub source_filled : source ≢ ""
  pub source_live : c.current_config_sha256 ≡ some source
  pub epoch : ℕ
  pub epoch_is : c.current_execution_epoch ≡ num (pos epoch)

-- what `RoutePolicy` asks of its arguments before it lets a plan be applied by hand
record PassesGates (p : RoutePolicy) : Type 0 where
  mode_normal : p.mode ≡ normal
  stage_on : (p.configured_stage ≡ assist) ⊎ (p.configured_stage ≡ auto)
  assist_released : feature_status p.release_capabilities route_assist ≡ released
  ready : p.health_ready ≡ true
  recovered : p.recovery_needed ≡ false
  observation : p.observation_integrity_valid ≡ true
  timeline : p.timeline_integrity_valid ≡ true
  valid : p.plan_valid ≡ true
  unexpired : p.plan_not_expired ≡ true
  generation : p.generation_match ≡ true
  hash : p.config_hash_match ≡ true
  epoch : p.execution_epoch_match ≡ true

apply-PassesGates : (p : RoutePolicy) → (evaluate p).can_manual_apply ≡ true → PassesGates p
unfolding evaluate compute_normal manual_gates_ok plan_allowed
apply-PassesGates p h = ground arith

text_of-eq : (o : Option Json) (s : String) → text_of o ≡ some s → (o ≡ some (str s)) × (s ≢ "")
text_of-eq (some (str t)) s h = ground (arith, eq_iff t "")
text_of-eq _ s h = ground arith

is_due_by-eq :
    (now : ℕ) (o : Option Json)
    → is_due_by now o ≡ true
    → (j : Json) × (n : ℕ) × (o ≡ some j) × (int_of j ≡ some (pos n)) × (now ≤ n)
is_due_by-eq now none h = cc
is_due_by-eq now (some j) h = elim (Option-cases (int_of j)) [
  | inl e ↦ ground arith
  | inr (pos n, e) ↦ (j, n, refl, e, ground arith)
  | inr (negsuc n, e) ↦ ground arith
]

is_generation-eq :
    (g : ℕ) (o : Option Json)
    → is_generation g o ≡ true
    → (j : Json) × (o ≡ some j) × (int_of j ≡ some (pos g))
is_generation-eq g none h = cc
is_generation-eq g (some j) h = (j, refl, ground arith)

is_hash-eq :
    (o live : Option String) → is_hash o live ≡ true → (s : String) × (o ≡ some s) × (live ≡ some s)
is_hash-eq (some s) (some t) h = (s, refl, ground (arith, eq_iff s t))
is_hash-eq (some s) none h = cc
is_hash-eq none live h = cc

is_epoch-eq : (j : Json) → is_epoch j ≡ true → (n : ℕ) × (j ≡ num (pos n))
is_epoch-eq (num (pos n)) h = (n, refl)
is_epoch-eq _ h = ground arith

is_some-eq : (o : Option String) → is_some o ≡ true → (s : String) × (o ≡ some s)
is_some-eq (some s) h = (s, refl)
is_some-eq none h = cc

-- `evaluate_plan_policy` lets a plan be applied by hand only if all of this holds: the mode is normal,
-- the stage assist or auto, Route Assist is released, the host healthy with nothing to recover and
-- both integrities valid; the plan is an object of schema version 1 with a plan hash that is not
-- empty, unexpired, of the current generation, made from the live configuration; and the current
-- execution epoch is a number.
pub plan-IsSubmittable :
    (c : Context) (plan : Json)
    → (evaluate_plan_policy c plan).can_manual_apply ≡ true
    → IsSubmittable c plan
unfolding evaluate_plan_policy
plan-IsSubmittable c (obj plan) h =
    let g = apply-PassesGates (policy_of c (obj plan)) h in
    let version = member "schemaVersion" plan in
    let sha_text = text_of (member "planSha256" plan) in
    let sha = is_some-eq sha_text (&&-right (is_version_one version) (is_some sha_text) g.valid) in
    let sha_is = text_of-eq (member "planSha256" plan) sha.0 sha.1 in
    let due = is_due_by-eq c.now (member "expiresAtEpochSeconds" plan) g.unexpired in
    let gen =
      is_generation-eq c.current_generation (member "configurationGeneration" plan) g.generation in
    let hash =
      is_hash-eq (text_of (member "sourceConfigSha256" plan)) c.current_config_sha256 g.hash in
    let source_is = text_of-eq (member "sourceConfigSha256" plan) hash.0 hash.1 in
    let epoch = is_epoch-eq c.current_execution_epoch g.epoch in
    record {
      mode_normal = g.mode_normal;
      stage_on = g.stage_on;
      assist_released = g.assist_released;
      ready = g.ready;
      recovered = g.recovered;
      observation = g.observation;
      timeline = g.timeline;
      fields = plan;
      is_object = refl;
      version = &&-left (is_version_one version) (is_some sha_text) g.valid;
      sha = sha.0;
      sha_is = sha_is.0;
      sha_filled = sha_is.1;
      expires_json = due.0;
      expires_is = due.2;
      expires = due.1;
      expires_int = due.3;
      unexpired = due.4;
      generation_json = gen.0;
      generation_is = gen.1;
      generation = gen.2;
      source = hash.0;
      source_is = source_is.0;
      source_filled = source_is.1;
      source_live = hash.2;
      epoch = epoch.0;
      epoch_is = epoch.1;
    }
plan-IsSubmittable c null h = absurd (false≢true ((apply-PassesGates (policy_of c (null)) h).valid))
plan-IsSubmittable c (bool b) h =
    absurd (false≢true ((apply-PassesGates (policy_of c (bool b)) h).valid))
plan-IsSubmittable c (num z) h =
    absurd (false≢true ((apply-PassesGates (policy_of c (num z)) h).valid))
plan-IsSubmittable c (real z) h =
    absurd (false≢true ((apply-PassesGates (policy_of c (real z)) h).valid))
plan-IsSubmittable c (str t) h =
    absurd (false≢true ((apply-PassesGates (policy_of c (str t)) h).valid))
plan-IsSubmittable c (arr xs) h =
    absurd (false≢true ((apply-PassesGates (policy_of c (arr xs)) h).valid))
