-- ===== src/RootPolicy/Epoch.antt =====
-- The execution epoch: it never falls, and what a request was authorized under cannot change while
-- the epoch stays.
use rill_xray_agent.Prelude.{ℕ, ◌+◌, String, ◌≡◌, ◌⊎◌, Bool, Option, some, arith}
use rill_xray_agent.Prelude.Result.{Result, ok, err}
use rill_xray_agent.PolicyFile.{regular}
use rill_xray_agent.RootPolicy.State.{Execution, RootExecutionPolicy}
use rill_xray_agent.RootPolicy.Load.{encode, persist}
use rill_xray_agent.RootPolicy.Methods.{
  RootError, bump_execution_epoch, set_mode, set_route_stage, safe_disable, set_auto_confirmed,
  reset_policy, record_apply, record_rollback, acknowledge_fuse,
}

-- The methods that change the object.
pub data Op : Type 0 where
  bump : String → Op
  mode stage : String → Op
  disable : Op
  confirm : Bool → ℕ → Op
  reset : Op
  apply : String → Option String → ℕ → Op
  rollback : Option String → ℕ → Op
  acknowledge : Bool → Op

-- the object after a call; an exception leaves it as it was
abbrev pub settled {ℓ} :
    {A : Type ℓ}
    → RootExecutionPolicy
    → Result RootError (RootExecutionPolicy × A)
    → RootExecutionPolicy
settled r (ok (q, _)) = q
settled r (err _) = r

unfoldable pub perform : RootExecutionPolicy → Op → RootExecutionPolicy
perform r (bump reason) = settled r (bump_execution_epoch r reason)
perform r (mode text) = settled r (set_mode r text)
perform r (stage text) = settled r (set_route_stage r text)
perform r disable = settled r (safe_disable r)
perform r (confirm b now) = settled r (set_auto_confirmed r b now)
perform r reset = settled r (reset_policy r)
perform r (apply rid id now) = settled r (record_apply r rid id now)
perform r (rollback id now) = settled r (record_rollback r id now)
perform r (acknowledge b) = settled r (acknowledge_fuse r b)

-- what a request is authorized under
pub record SameAuthority (a b : Execution) : Type 0 where
  pub mode : a.mode ≡ b.mode
  pub route_stage : a.route_stage ≡ b.route_stage
  pub auto_confirmed : a.auto_confirmed ≡ b.auto_confirmed

-- one call: the policy and its file stay, or the epoch rises by one and the policy is persisted
abbrev pub Moved : RootExecutionPolicy → RootExecutionPolicy → Type 0
Moved r q =
    ((q.policy ≡ r.policy) × (q.policy_file ≡ r.policy_file))
    ⊎ ((q.policy.execution_epoch ≡ r.policy.execution_epoch + 1)
        × (q.policy_file ≡ regular 0o600 (some (encode q.policy))))

bump-Moved :
    (r : RootExecutionPolicy) (reason : String)
    → Moved r (settled r (bump_execution_epoch r reason))
unfolding bump_execution_epoch persist
bump-Moved r reason = ground arith

pub perform-Moved : (r : RootExecutionPolicy) (op : Op) → Moved r (perform r op)
unfolding perform set_mode set_route_stage safe_disable set_auto_confirmed reset_policy record_apply
    record_rollback acknowledge_fuse persist bump_execution_epoch
perform-Moved r (bump reason) = ground arith
perform-Moved r (mode text) = ground arith
perform-Moved r (stage text) = ground arith
perform-Moved r disable = ground arith
perform-Moved r (confirm b now) = ground arith
perform-Moved r reset = ground arith
perform-Moved r (apply rid id now) = ground arith
perform-Moved r (rollback id now) = ground arith
perform-Moved r (acknowledge b) = ground arith
