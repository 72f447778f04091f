-- ===== src/RouteExecutor/Gates.antt =====
-- The gates of `RouteExecutor.apply`, from a claimed request to the start of its transaction.
use rill_xray_agent.Prelude.{
  ℕ, String, Bool, true, false, not, ◌||◌, ◌==◌, Option, none, some, List, [], ◌∷◌, ◌++◌, map,
  str_eq, if◌then◌else◌,
}
use rill_xray_agent.Prelude.Int.{ℤ, pos}
use rill_xray_agent.Json.{Json, arr, obj, elements}
use rill_xray_agent.Json.Edit.{value, truthy}
use rill_xray_agent.Json.{member}
use rill_xray_agent.Reason.{Reason}
use rill_xray_agent.ReleaseCapabilities.{
  Manifest, Feature, route_assist, bounded_auto, is_supported, is_released,
}
use rill_xray_agent.AutoPolicy.Methods.{Decision}
use rill_xray_agent.RootPolicy.State.{
  RootExecutionPolicy, Mode, normal, RouteStage, assist, same_mode, same_stage, integrity_valid,
}
use rill_xray_agent.RootPolicy.State as Root
use rill_xray_agent.RootPolicy.Methods.{evaluate}
use rill_xray_agent.RootTxn.World.{Request, TxnState}
use rill_xray_agent.RouteContract.Risk.{overall_risk}
use rill_xray_agent.RouteExecutor.Request.{ApplyRequest, ApplyType, manual, auto}

-- the texts of `blockedBy`
pub data Block : Type 0 where
  feature_not_supported feature_not_released mode_not_normal : Block
  effective_stage_not_auto effective_stage_not_assist : Block
  root_policy_corrupt root_mode_not_normal execution_epoch_mismatch : Block
  route_stage_not_assist route_stage_not_auto : Block
  policy : Reason → Block
  managed_config_missing config_hash_mismatch generation_mismatch recovery_required : Block
  -- of `_root_intent_proof`
  intent : String → Block

-- What the executor asks of the transactions and of the files in their care. `managed` is the managed
-- file, if it is a regular file; `generation` is `none` where its file holds no number; `outcomes` has
-- the request and the state of each work directory, where they can be read.
pub record Transactions (W : Type 0) : Type 0 where
  pub managed : W → Option String
  pub generation : W → Option ℕ
  pub requires_recovery : W → Bool
  pub recover_all : W → W
  pub outcomes : W → List (Option Request × Option TxnState)

abbrev feature_gate : Manifest → Feature → List Block
feature_gate m f =
    if is_supported m f
    then if is_released m f then [] else feature_not_released ∷ []
    else feature_not_supported ∷ []

unfoldable pub release_gate : Manifest → ApplyType → List Block
release_gate m manual = feature_gate m route_assist
release_gate m auto = feature_gate m route_assist ++ feature_gate m bounded_auto

-- the checks of the request's own mode and stage
unfoldable pub request_gate : ApplyRequest → List Block
request_gate q = if not (str_eq q.mode "normal") then mode_not_normal ∷ [] else elim q.apply_type [
  | auto ↦ if str_eq q.effective_stage "auto" then [] else effective_stage_not_auto ∷ []
  | manual ↦
      if str_eq q.effective_stage "assist" || str_eq q.effective_stage "auto"
      then []
      else effective_stage_not_assist ∷ []
]

abbrev block_unless : Bool → Block → List Block
block_unless test b = if test then [] else b ∷ []

abbrev listed : Json → List Json
listed (arr xs) = elements xs
listed _ = []

-- `.get('rules')` of what `.get('routing', {})` gave; `none` is an AttributeError
abbrev routing_rules : Option Json → Option (List Json)
routing_rules none = some []
routing_rules (some (obj routing)) = some (listed (value "rules" routing))
routing_rules (some _) = none

abbrev rules_in : Option Json → Option (List Json)
rules_in none = some []
rules_in (some (obj config)) = routing_rules (member "routing" config)
rules_in (some v) = if truthy v then none else some []

-- `_current_rules`: no rules, where the file cannot be read. `loads` is `json.loads`.
unfoldable pub current_rules : (String → Option Json) → Option String → Option (List Json)
current_rules loads none = some []
current_rules loads (some text) = rules_in (loads text)

-- `_root_gate` up to the stage
unfoldable pub root_state_gate : RootExecutionPolicy → ApplyRequest → List Block
root_state_gate r q =
    block_unless (integrity_valid r) root_policy_corrupt
    ++ block_unless (same_mode r.policy.mode normal) root_mode_not_normal
    ++ block_unless (q.execution_epoch == r.policy.execution_epoch) execution_epoch_mismatch
    ++ elim q.apply_type [
      | manual ↦
          block_unless
            (same_stage r.policy.route_stage assist || same_stage r.policy.route_stage Root.auto)
            route_stage_not_assist
      | auto ↦ block_unless (same_stage r.policy.route_stage Root.auto) route_stage_not_auto
    ]

-- the reasons of `RootExecutionPolicy.evaluate`, if it does not let the request through
abbrev pub refusals : Decision → List Block
refusals (true, _) = []
refusals (false, reasons) = map policy reasons

-- the reasons of the root's state, and those of the decision; `none` is an exception
abbrev pub decided :
    List Block → Option (Decision × RootExecutionPolicy) → Option (List Block × RootExecutionPolicy)
decided own none = none
decided own (some (d, s)) = some (own ++ refusals d, s)

module _ (parse_int : String → Option ℤ) (loads : String → Option Json) where
  -- the risk of the operations against the rules in force, and the decision on it
  abbrev pub automatic :
      RootExecutionPolicy
      → ApplyRequest
      → ℕ
      → Option (List Json)
      → Option (List Block × RootExecutionPolicy)
  automatic r q now none = none
  automatic r q now (some rules) = decided (root_state_gate r q) (
      evaluate parse_int r q.recommendation_id (pos q.execution_epoch)
        (overall_risk (elements q.operations) rules) (arr q.operations) now)

  abbrev pub root_gate_of :
      ApplyType
      → RootExecutionPolicy
      → ApplyRequest
      → Option String
      → ℕ
      → Option (List Block × RootExecutionPolicy)
  root_gate_of manual r q file now = some (root_state_gate r q, r)
  root_gate_of auto r q file now = automatic r q now (current_rules loads file)

  -- `_root_gate`, with the root policy as `evaluate` leaves it
  unfoldable pub root_gate :
      RootExecutionPolicy
      → ApplyRequest
      → Option String
      → ℕ
      → Option (List Block × RootExecutionPolicy)
  root_gate r q file now = root_gate_of q.apply_type r q file now
