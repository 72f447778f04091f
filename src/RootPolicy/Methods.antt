-- ===== src/RootPolicy/Methods.antt =====
-- The methods of `RootExecutionPolicy`. `now` is what `_clock` reads.
use rill_xray_agent.Prelude.{
  ℕ, ◌+◌, ◌==◌, String, Bool, true, false, not, ◌&&◌, ◌||◌, Option, none, some, List, [], ◌∷◌, ◌++◌,
  str_eq, if◌then◌else◌,
}
use rill_xray_agent.Prelude.Int.{ℤ, pos}
use rill_xray_agent.Prelude.Result.{Result, ok, err, guard, or_raise, ◌>>=◌, ◌>>◌}
use rill_xray_agent.Json.{Json, Items, nil, cons, arr, obj, str, member}
use rill_xray_agent.Reason.{
  Reason, policy_corrupt, mode_safe_disabled, execution_epoch_mismatch, auto_requires_confirmation,
  auto_risk_not_eligible, auto_op_not_allowlisted, when,
}
use rill_xray_agent.AutoPolicy.State.{AutoPolicy}
use rill_xray_agent.AutoPolicy.Methods as Auto
use rill_xray_agent.AutoPolicy.Methods.{Decision, IntegrityError, decide_by}
use rill_xray_agent.RootPolicy.State.{
  Execution, RootExecutionPolicy, RootCorruption, safe_disabled, mode_of, stage_of, same_mode,
  same_stage, same_bool, integrity_valid, corrupt_reason,
}
use rill_xray_agent.RootPolicy.Load.{persist}

-- `RootPolicyIntegrityError`, by what raised it
pub data RootError : Type 0 where
  illegal_reason illegal_mode illegal_stage invalid ledger_invalid : RootError

abbrev pub Root : Type 0 → Type 0
Root A = Result RootError (RootExecutionPolicy × A)

abbrev pub contains : String → List String → Bool
contains s [] = false
contains s (t ∷ ts) = str_eq s t || contains s ts

abbrev pub epoch_bump_reasons : List String
epoch_bump_reasons =
    "mode-change" ∷ "route-stage-change" ∷ "safe-disabled" ∷ "auto-confirm" ∷ "auto-revoke"
    ∷ "fuse-transition" ∷ "fuse-acknowledge" ∷ "policy-reset" ∷ []

-- a change of the policy with the epoch raised, and persisted
abbrev pub bumped : RootExecutionPolicy → Execution → RootExecutionPolicy
bumped r e = persist (record r { policy = record e { execution_epoch = e.execution_epoch + 1 } })

unfoldable pub bump_execution_epoch : RootExecutionPolicy → String → Root (Unit {0})
bump_execution_epoch r reason = do
  guard (contains reason epoch_bump_reasons) illegal_reason
  guard (integrity_valid r) invalid
  ok (bumped r r.policy, tt)

unfoldable pub set_mode : RootExecutionPolicy → String → Root Bool
set_mode r text = do
  mode ← or_raise (mode_of text) illegal_mode
  guard (integrity_valid r) invalid
  (if same_mode r.policy.mode mode
      then ok (r, false)
      else ok (bumped r (record r.policy { mode = mode }), true))

unfoldable pub set_route_stage : RootExecutionPolicy → String → Root Bool
set_route_stage r text = do
  stage ← or_raise (stage_of text) illegal_stage
  guard (integrity_valid r) invalid
  (if same_stage r.policy.route_stage stage
      then ok (r, false)
      else ok (bumped r (record r.policy { route_stage = stage }), true))

unfoldable pub safe_disable : RootExecutionPolicy → Root Bool
safe_disable r = do
  guard (integrity_valid r) invalid
  ok (
    bumped r (record r.policy {
      mode = safe_disabled;
      auto_confirmed = false;
      auto_confirmed_at_epoch_seconds = none;
    }),
    not (same_mode r.policy.mode safe_disabled),
  )

unfoldable pub set_auto_confirmed : RootExecutionPolicy → Bool → ℕ → Root Bool
set_auto_confirmed r confirmed now = do
  guard (integrity_valid r) invalid
  (if same_bool r.policy.auto_confirmed confirmed
      then ok (r, false)
      else ok (
        bumped r (record r.policy {
          auto_confirmed = confirmed;
          auto_confirmed_at_epoch_seconds = if confirmed then some (pos now) else none;
        }),
        true,
      ))

unfoldable pub reset_policy : RootExecutionPolicy → Root (Unit {0})
reset_policy r = do
  guard (integrity_valid r) invalid
  ok (
    bumped r (record r.policy { auto_confirmed = false; auto_confirmed_at_epoch_seconds = none }),
    tt,
  )

-- an `AutoPolicyIntegrityError` of the ledger
abbrev pub of_ledger : Auto.Outcome → Result RootError AutoPolicy
of_ledger (ok a) = ok a
of_ledger (err _) = err ledger_invalid

unfoldable pub record_apply : RootExecutionPolicy → String → Option String → ℕ → Root (Unit {0})
record_apply r rid id now = do
  guard (integrity_valid r) invalid
  a ← of_ledger (Auto.record_apply r.auto rid id now)
  ok (record r { auto = a }, tt)

unfoldable pub record_rollback : RootExecutionPolicy → Option String → ℕ → Root (Unit {0})
record_rollback r id now = do
  guard (integrity_valid r) invalid
  a ← of_ledger (Auto.record_rollback r.auto id now)
  (if a.state.fuse_open && not r.auto.state.fuse_open
      then bump_execution_epoch (record r { auto = a }) "fuse-transition"
      else ok (record r { auto = a }, tt))

unfoldable pub acknowledge_fuse : RootExecutionPolicy → Bool → Root (Unit {0})
acknowledge_fuse r acknowledged = do
  guard (integrity_valid r) invalid
  a ← of_ledger (Auto.acknowledge_fuse r.auto acknowledged)
  (if same_bool r.auto.state.fuse_acknowledged a.state.fuse_acknowledged
      then ok (record r { auto = a }, tt)
      else bump_execution_epoch (record r { auto = a }) "fuse-acknowledge")

-- `AUTO_ROUTE_OPS` of route_contract.py
abbrev pub auto_route_ops : List String
auto_route_ops = "routingRule.insert" ∷ "routingRule.replaceManaged" ∷ []

-- `op.get('op') in AUTO_ROUTE_OPS`; `none` is the TypeError of a value that has no hash
abbrev pub op_allowlisted : Option Json → Option Bool
op_allowlisted (some (str s)) = some (contains s auto_route_ops)
op_allowlisted (some (arr _)) = none
op_allowlisted (some (obj _)) = none
op_allowlisted _ = some false

-- one round of the loop of `_auto_ops_allowlisted`
abbrev pub item_allowlisted : Json → Option Bool
item_allowlisted (obj fs) = op_allowlisted (member "op" fs)
item_allowlisted _ = some false

unfoldable pub all_allowlisted : Items → Option Bool
all_allowlisted nil = some true
all_allowlisted (cons x xs) =
    let rest = all_allowlisted xs in
    elim (item_allowlisted x) [ none ↦ none | some b ↦ if b then rest else some false ]

-- `_auto_ops_allowlisted`
unfoldable pub auto_ops_allowlisted : Json → Option Bool
auto_ops_allowlisted (arr nil) = some false
auto_ops_allowlisted (arr xs) = all_allowlisted xs
auto_ops_allowlisted _ = some false

-- `requested_epoch != self.execution_epoch()`
abbrev pub epoch_differs : ℤ → ℕ → Bool
epoch_differs (pos n) e = not (n == e)
epoch_differs _ e = true

-- the reasons of `evaluate`, with those of the ledger in their place
unfoldable pub blocked_by : RootExecutionPolicy → ℤ → List Reason → String → Bool → List Reason
blocked_by r requested ledger risk allowlisted =
    when (same_mode r.policy.mode safe_disabled) mode_safe_disabled (
      when (epoch_differs requested r.policy.execution_epoch) execution_epoch_mismatch (
        when (not r.policy.auto_confirmed) auto_requires_confirmation (
          ledger
          ++ when (not (str_eq risk "low")) auto_risk_not_eligible
              (when (not allowlisted) auto_op_not_allowlisted []))))

-- `evaluate`; `none` is an exception of `int()`, or of the test of an operation
unfoldable pub evaluate :
    (String → Option ℤ)
    → RootExecutionPolicy
    → String
    → ℤ
    → String
    → Json
    → ℕ
    → Option (Decision × RootExecutionPolicy)
evaluate parse_int r rid requested risk operations now =
    if integrity_valid r
    then elim (Auto.evaluate parse_int r.auto rid now) [
      | none ↦ none
      | some (d, a) ↦ elim (auto_ops_allowlisted operations) [
        | none ↦ none
        | some allowlisted ↦
            some (decide_by (blocked_by r requested d.1 risk allowlisted), record r { auto = a })
      ]
    ]
    else some ((false, policy_corrupt ∷ []), r)

-- `snapshot`
pub record Snapshot : Type 0 where
  pub integrity : Bool
  pub corrupted : Option RootCorruption
  pub execution : Execution
  pub ledger : Auto.Snapshot

unfoldable pub snapshot : RootExecutionPolicy → ℕ → Snapshot
snapshot r now = record {
  integrity = integrity_valid r;
  corrupted = corrupt_reason r;
  execution = r.policy;
  ledger = Auto.snapshot r.auto now;
}

pub record Projection : Type 0 where
  pub policy_snapshot_digest : String
  pub policy : Snapshot

-- `write_projection`: what is written at the path; `digest` is the SHA-256 of the canonical JSON
unfoldable pub write_projection : (Snapshot → String) → RootExecutionPolicy → ℕ → Projection
write_projection digest r now =
    let snap = snapshot r now in record { policy_snapshot_digest = digest snap; policy = snap }
