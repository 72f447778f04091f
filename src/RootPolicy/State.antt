-- ===== src/RootPolicy/State.antt =====
-- The state of `RootExecutionPolicy`.
use rill_xray_agent.Prelude.{
  ℕ, String, Bool, true, false, ◌&&◌, Option, none, some, str_eq, if◌then◌else◌,
}
use rill_xray_agent.Prelude.Int.{ℤ}
use rill_xray_agent.PolicyFile.{PolicyFile, Corruption}
use rill_xray_agent.AutoPolicy.State as Auto
use rill_xray_agent.AutoPolicy.State.{AutoPolicy}

-- `MODES`
pub data Mode : Type 0 where
  normal observe_only safe_disabled : Mode

-- `ROUTE_STAGES`
pub data RouteStage : Type 0 where
  observe assist auto disabled : RouteStage

pub Mode-discrete : Discrete Mode
Mode-discrete = hlevel

pub RouteStage-discrete : Discrete RouteStage
RouteStage-discrete = hlevel

abbrev pub mode_text : Mode → String
mode_text normal = "normal"
mode_text observe_only = "observe-only"
mode_text safe_disabled = "safe-disabled"

abbrev pub stage_text : RouteStage → String
stage_text observe = "observe"
stage_text assist = "assist"
stage_text auto = "auto"
stage_text disabled = "disabled"

-- `mode in MODES`, with the mode
abbrev pub mode_of : String → Option Mode
mode_of s =
    if str_eq s "normal"
    then some normal
    else if str_eq s "observe-only"
    then some observe_only
    else if str_eq s "safe-disabled"
    then some safe_disabled
    else none

-- `stage in ROUTE_STAGES`, with the stage
abbrev pub stage_of : String → Option RouteStage
stage_of s =
    if str_eq s "observe"
    then some observe
    else if str_eq s "assist"
    then some assist
    else if str_eq s "auto"
    then some auto
    else if str_eq s "disabled"
    then some disabled
    else none

-- `mode == other`
abbrev pub same_mode : Mode → Mode → Bool
same_mode normal normal = true
same_mode observe_only observe_only = true
same_mode safe_disabled safe_disabled = true
same_mode _ _ = false

abbrev pub same_stage : RouteStage → RouteStage → Bool
same_stage observe observe = true
same_stage assist assist = true
same_stage auto auto = true
same_stage disabled disabled = true
same_stage _ _ = false

abbrev pub same_bool : Bool → Bool → Bool
same_bool true true = true
same_bool false false = true
same_bool _ _ = false

-- The JSON object of `execution-policy.json`; `schemaVersion` is 1 in each that is accepted.
pub record Execution : Type 0 where
  pub execution_epoch : ℕ
  pub auto_confirmed : Bool
  pub auto_confirmed_at_epoch_seconds : Option ℤ
  pub mode : Mode
  pub route_stage : RouteStage

abbrev pub default_execution_policy : Execution
default_execution_policy = record {
  execution_epoch = 0;
  auto_confirmed = false;
  auto_confirmed_at_epoch_seconds = none;
  mode = observe_only;
  route_stage = observe;
}

pub record RootExecutionPolicy : Type 0 where
  pub policy : Execution
  pub policy_corrupt : Option Corruption
  pub policy_file : PolicyFile
  pub auto : AutoPolicy

-- `integrity_valid`
unfoldable pub integrity_valid : RootExecutionPolicy → Bool
integrity_valid r =
    elim r.policy_corrupt [ none ↦ true | some _ ↦ false ] && Auto.integrity_valid r.auto

pub data RootCorruption : Type 0 where
  in_policy in_ledger : Corruption → RootCorruption

-- `corrupt_reason`
unfoldable pub corrupt_reason : RootExecutionPolicy → Option RootCorruption
corrupt_reason r = elim r.policy_corrupt [
  | some reason ↦ some (in_policy reason)
  | none ↦ elim r.auto.corrupt_reason [ some reason ↦ some (in_ledger reason) | none ↦ none ]
]
