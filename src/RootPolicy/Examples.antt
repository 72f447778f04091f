-- ===== src/RootPolicy/Examples.antt =====
-- The theorems on the root policy at concrete states.
use rill_xray_agent.Prelude.{
  ◌≤◌, String, ◌≡◌, refl, ◌↔◌, true, false, Option, none, some, [], ◌∷◌, arith,
}
use rill_xray_agent.Prelude.Int.{ℤ, pos}
use rill_xray_agent.Prelude.Dict.{get}
use rill_xray_agent.Prelude.Result.{ok}
use rill_xray_agent.PolicyFile.{regular, absent}
use rill_xray_agent.Json.{Json, str, arr, obj, cons, nil, field, end}
use rill_xray_agent.AutoPolicy.State.{State, AutoPolicy, default_policy, fresh_default_state}
use rill_xray_agent.AutoPolicy.Load as AutoLoad
use rill_xray_agent.AutoPolicy.Methods as Auto
use rill_xray_agent.AutoPolicy.Methods.{rolled_back_state}
use rill_xray_agent.AutoPolicy.Eligible as Ledger
use rill_xray_agent.RootPolicy.State.{
  Execution, RootExecutionPolicy, normal, safe_disabled, auto, integrity_valid,
}
use rill_xray_agent.RootPolicy.Load.{load_policy, encode, persist}
use rill_xray_agent.RootPolicy.Methods.{
  blocked_by, auto_ops_allowlisted, all_allowlisted, evaluate, safe_disable, set_mode,
  record_rollback,
}
use rill_xray_agent.RootPolicy.Epoch.{mode, perform, SameAuthority}
use rill_xray_agent.RootPolicy.History.{called, run, run-epoch, IsSynced, load_policy-persisted}
use rill_xray_agent.RootPolicy.Eligible.{allows, Permits, evaluate-Permits_iff}
use rill_xray_agent.RootPolicy.Stale.{
  allowed_request-SameAuthority, safe_disable-outdates, record_rollback-reopens,
}

abbrev no_int : String → Option ℤ
no_int _ = none

abbrev ledger : AutoPolicy
ledger = record {
  config = default_policy;
  corrupt_reason = none;
  state = fresh_default_state;
  file = absent;
}

-- the policy of an operator who lets automatic applies through
abbrev authority : Execution
authority = record {
  execution_epoch = 7;
  auto_confirmed = true;
  auto_confirmed_at_epoch_seconds = some (pos 500);
  mode = normal;
  route_stage = auto;
}

-- an object whose file holds its policy
abbrev holding : Execution → AutoPolicy → RootExecutionPolicy
holding e a = record {
  policy = e;
  policy_corrupt = none;
  policy_file = regular 0o600 (some (encode e));
  auto = a;
}

abbrev root : RootExecutionPolicy
root = holding authority ledger

abbrev insert_rule : Json
insert_rule = arr (cons (obj (field "op" (str "routingRule.insert") end)) nil)

load_policy-persisted_example : load_policy (regular 0o600 (some (encode authority))) ≡ ok authority
load_policy-persisted_example = load_policy-persisted authority

evaluate-Permits_iff_example :
    (allows (evaluate no_int root "rec-1" (pos 7) "low" insert_rule 9000) ≡ true) ↔ (
      Permits root (pos 7) "low" insert_rule
      × (Ledger.allows (Auto.evaluate no_int root.auto "rec-1" 9000) ≡ true))
evaluate-Permits_iff_example =
    evaluate-Permits_iff no_int root "rec-1" (pos 7) "low" insert_rule 9000

-- the operator's safe-disable, and the mode set back to normal
abbrev disabled_policy : Execution
disabled_policy = record {
  execution_epoch = 8;
  auto_confirmed = false;
  auto_confirmed_at_epoch_seconds = none;
  mode = safe_disabled;
  route_stage = auto;
}

abbrev disabled_root : RootExecutionPolicy
disabled_root = holding disabled_policy ledger

abbrev normal_again : RootExecutionPolicy
normal_again = holding (record disabled_policy { execution_epoch = 9; mode = normal }) ledger

disable_made : safe_disable root ≡ ok (disabled_root, true)
unfolding safe_disable integrity_valid persist
disable_made = refl

back_to_normal : run default_policy disabled_root (called (mode "normal") ∷ []) ≡ some normal_again
unfolding run perform set_mode integrity_valid persist
back_to_normal = refl

disabled_root-IsSynced : IsSynced disabled_root
disabled_root-IsSynced = load_policy-persisted disabled_policy

run-epoch_example :
    (disabled_root.policy.execution_epoch ≤ normal_again.policy.execution_epoch)
    × (normal_again.policy.execution_epoch ≡ disabled_root.policy.execution_epoch
        → SameAuthority normal_again.policy disabled_root.policy)
run-epoch_example =
    run-epoch default_policy disabled_root normal_again (called (mode "normal") ∷ [])
      disabled_root-IsSynced back_to_normal

safe_disable-outdates_example :
    allows (evaluate no_int normal_again "rec-1" (pos 7) "low" insert_rule 9000) ≡ false
safe_disable-outdates_example =
    safe_disable-outdates no_int default_policy disabled_root normal_again
      (called (mode "normal") ∷ []) "rec-1" "low" insert_rule 9000 7 root true disable_made
      back_to_normal (omega arith)

-- the mode is set to what it was
same_mode_set : run default_policy root (called (mode "normal") ∷ []) ≡ some root
unfolding run perform set_mode integrity_valid persist
same_mode_set = refl

request_allowed : allows (evaluate no_int root "rec-1" (pos 7) "low" insert_rule 9000) ≡ true
unfolding evaluate integrity_valid Auto.evaluate Auto.last_time get blocked_by Auto.blocked_by
    Auto.in_cooldown Auto.last_hour auto_ops_allowlisted all_allowlisted
request_allowed = refl

allowed_request-SameAuthority_example : SameAuthority root.policy root.policy
allowed_request-SameAuthority_example =
    allowed_request-SameAuthority no_int default_policy root root (called (mode "normal") ∷ [])
      "rec-1" "low" insert_rule 9000 (load_policy-persisted authority) same_mode_set request_allowed

-- the fuse is open and acknowledged, one rollback before it blows again
abbrev acknowledged : State
acknowledged = record fresh_default_state {
  consecutive_rollbacks = pos 1;
  fuse_open = true;
  fuse_opened_at_epoch_seconds = some (pos 800);
  fuse_acknowledged = true;
}

abbrev acknowledged_root : RootExecutionPolicy
acknowledged_root = holding authority (record ledger { state = acknowledged })

abbrev reopened_root : RootExecutionPolicy
reopened_root = holding authority (record ledger {
  state = rolled_back_state default_policy none 9000 acknowledged;
  file =
      regular 0o600
        (some (AutoLoad.encode (rolled_back_state default_policy none 9000 acknowledged)));
})

reopening_made : record_rollback acknowledged_root none 9000 ≡ ok (reopened_root, tt)
unfolding record_rollback integrity_valid Auto.record_rollback AutoLoad.persist Auto.is_processed
reopening_made = refl

not_processed : Auto.is_processed none (Auto.processed_set "rolledBack" []) ≡ false
unfolding Auto.is_processed
not_processed = refl

record_rollback-reopens_example :
    (reopened_root.auto.state.fuse_open ≡ true)
    × (reopened_root.auto.state.fuse_acknowledged ≡ false)
    × (reopened_root.policy ≡ acknowledged_root.policy)
record_rollback-reopens_example =
    record_rollback-reopens acknowledged_root reopened_root none 9000 refl refl refl not_processed
      (omega arith) reopening_made
