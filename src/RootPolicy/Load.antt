-- ===== src/RootPolicy/Load.antt =====
-- `RootExecutionPolicy.__init__` and `_load_policy`, and the JSON that `_persist_policy` writes.
use rill_xray_agent.Prelude.{ℕ, Bool, false, Option, none, some, ◌==◌}
use rill_xray_agent.Prelude.Int.{ℤ, pos}
use rill_xray_agent.Prelude.Result.{ok, err, guard, or_raise, ◌>>=◌, ◌>>◌}
use rill_xray_agent.PolicyFile.{
  PolicyFile, regular, corrupt, key_error, missing_keys, wrong_type, bad_confirmed_at,
  bad_schema_version, bad_epoch, bad_mode, bad_route_stage, read_policy,
}
use rill_xray_agent.Json.{
  Json, Fields, bool, num, str, obj, end, field, member, int_of, bool_of, str_of,
}
use rill_xray_agent.AutoPolicy.State.{Config, AutoPolicy}
use rill_xray_agent.AutoPolicy.Load as Auto
use rill_xray_agent.AutoPolicy.Load.{Loaded, int_or_null, int_json}
use rill_xray_agent.RootPolicy.State.{
  Execution, RootExecutionPolicy, default_execution_policy, mode_of, stage_of, mode_text,
  stage_text,
}

-- `schemaVersion != 1`; `true` is the integer 1
abbrev is_one : ℤ → Bool
is_one (pos n) = n == 1
is_one _ = false

-- an integer of at least 0 that is no boolean
abbrev epoch_number : Json → Option ℕ
epoch_number (num (pos n)) = some n
epoch_number _ = none

-- The checks of `_load_policy` on a JSON object, in their order.
unfoldable pub decode : Fields → Loaded Execution
decode fs = do
  version ← or_raise (member "schemaVersion" fs) (corrupt missing_keys)
  epoch ← or_raise (member "executionEpoch" fs) (corrupt missing_keys)
  confirmed ← or_raise (member "autoConfirmed" fs) (corrupt missing_keys)
  confirmed_at ← or_raise (member "autoConfirmedAtEpochSeconds" fs) (corrupt missing_keys)
  mode ← or_raise (member "mode" fs) (corrupt missing_keys)
  stage ← or_raise (member "routeStage" fs) (corrupt missing_keys)
  version_int ← or_raise (int_of version) (corrupt wrong_type)
  or_raise (int_of epoch) (corrupt wrong_type) >>= λ _. do
    confirmed_bool ← or_raise (bool_of confirmed) (corrupt wrong_type)
    mode_str ← or_raise (str_of mode) (corrupt wrong_type)
    stage_str ← or_raise (str_of stage) (corrupt wrong_type)
    confirmed_at_int ← or_raise (int_or_null confirmed_at) (corrupt bad_confirmed_at)
    guard (is_one version_int) (corrupt bad_schema_version)
    epoch_nat ← or_raise (epoch_number epoch) (corrupt bad_epoch)
    mode_known ← or_raise (mode_of mode_str) (corrupt bad_mode)
    stage_known ← or_raise (stage_of stage_str) (corrupt bad_route_stage)
    ok (record {
      execution_epoch = epoch_nat;
      auto_confirmed = confirmed_bool;
      auto_confirmed_at_epoch_seconds = confirmed_at_int;
      mode = mode_known;
      route_stage = stage_known;
    })

abbrev decode_or_default : Option Fields → Loaded Execution
decode_or_default none = ok default_execution_policy
decode_or_default (some fs) = decode fs

unfoldable pub load_policy : PolicyFile → Loaded Execution
unfolding read_policy
load_policy file = read_policy file >>= decode_or_default

abbrev with_ledger : PolicyFile → AutoPolicy → Loaded Execution → Option RootExecutionPolicy
with_ledger file a (ok e) =
    some (record { policy = e; policy_corrupt = none; policy_file = file; auto = a })
with_ledger file a (err (corrupt reason)) = some (record {
  policy = default_execution_policy;
  policy_corrupt = some reason;
  policy_file = file;
  auto = a;
})
with_ledger file a (err key_error) = none

-- `RootExecutionPolicy(…)`; `none` is an exception that comes out of the constructor.
unfoldable pub init : Config → PolicyFile → PolicyFile → Option RootExecutionPolicy
init c policy_file ledger_file = elim (Auto.init c ledger_file) [
  | none ↦ none
  | some a ↦ with_ledger policy_file a (load_policy policy_file)
]

unfoldable pub encode : Execution → Json
encode e = obj (
    field "autoConfirmed" (bool e.auto_confirmed) (
      field "autoConfirmedAtEpochSeconds" (int_json e.auto_confirmed_at_epoch_seconds) (
        field "executionEpoch" (num (pos e.execution_epoch)) (
          field "mode" (str (mode_text e.mode)) (
            field "routeStage" (str (stage_text e.route_stage))
              (field "schemaVersion" (num (pos 1)) end))))))

-- `_persist_policy`
unfoldable pub persist : RootExecutionPolicy → RootExecutionPolicy
persist r = record r { policy_file = regular 0o600 (some (encode r.policy)) }
