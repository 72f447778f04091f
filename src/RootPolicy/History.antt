-- ===== src/RootPolicy/History.antt =====
-- Histories of calls and restarts of the root policy.
use rill_xray_agent.Prelude.{
  ◌≤◌, ◌<◌, ◌≡◌, refl, sym, ◌∙◌, ap, ◌⊎◌, inl, inr, Option, none, some, List, [], ◌∷◌, arith,
  Option-cases,
}
use rill_xray_agent.Prelude.Result.{ok}
use rill_xray_agent.PolicyFile.{regular}
use rill_xray_agent.AutoPolicy.State.{Config}
use rill_xray_agent.AutoPolicy.Load as Auto
use rill_xray_agent.AutoPolicy.Load.{int_json, int_or_null}
use rill_xray_agent.AutoPolicy.Restart.{int_or_null-int_json}
use rill_xray_agent.RootPolicy.State.{
  Mode, RouteStage, Execution, RootExecutionPolicy, mode_of, mode_text, stage_of, stage_text,
  normal, observe_only, safe_disabled, observe, assist, auto, disabled,
}
use rill_xray_agent.RootPolicy.Load.{load_policy, init, encode, decode}
use rill_xray_agent.RootPolicy.Epoch.{Op, perform, perform-Moved, SameAuthority}

mode_of-text : (m : Mode) → mode_of (mode_text m) ≡ some m
mode_of-text normal = refl
mode_of-text observe_only = refl
mode_of-text safe_disabled = refl

stage_of-text : (s : RouteStage) → stage_of (stage_text s) ≡ some s
stage_of-text observe = refl
stage_of-text assist = refl
stage_of-text auto = refl
stage_of-text disabled = refl

-- What `_load_policy` reads of a file that `_persist_policy` wrote is the policy that was persisted.
pub load_policy-persisted : (e : Execution) → load_policy (regular 0o600 (some (encode e))) ≡ ok e
unfolding load_policy decode encode
load_policy-persisted e = rw (
  int_or_null-int_json e.auto_confirmed_at_epoch_seconds,
  mode_of-text e.mode,
  stage_of-text e.route_stage,
)

pub data Event : Type 0 where
  called : Op → Event
  restarted : Event

-- `none`: a constructor raised, and there is no object.
unfoldable pub run : Config → RootExecutionPolicy → List Event → Option RootExecutionPolicy
run c r [] = some r
run c r (called op ∷ es) = run c (perform r op) es
run c r (restarted ∷ es) = elim (init c r.policy_file r.auto.file) [
  | none ↦ none
  | some q ↦ run c q es
]

-- the file holds the policy
abbrev pub IsSynced : RootExecutionPolicy → Type 0
IsSynced r = load_policy r.policy_file ≡ ok r.policy

-- the epoch rises, or the policy is the same
abbrev pub Follows : Execution → Execution → Type 0
Follows a b = (a.execution_epoch < b.execution_epoch) ⊎ (b ≡ a)

Follows-trans : {a b c : Execution} → Follows a b → Follows b c → Follows a c
Follows-trans (inl h) (inl k) = inl (omega arith)
Follows-trans {a} {b} {c} (inl h) (inr e) = inl (rw e h)
Follows-trans {a} {b} {c} (inr d) (inl k) = inl (rw d at k)
Follows-trans (inr d) (inr e) = inr (e ∙ d)

perform-Follows : (r : RootExecutionPolicy) (op : Op) → Follows r.policy (perform r op).policy
perform-Follows r op = elim (perform-Moved r op) [
  | inl (same, _) ↦ inr same
  | inr (rises, _) ↦ inl (omega arith)
]

perform-IsSynced : (r : RootExecutionPolicy) (op : Op) → IsSynced r → IsSynced (perform r op)
perform-IsSynced r op h = elim (perform-Moved r op) [
  | inl (same, file) ↦ ap load_policy file ∙ h ∙ ap ok (sym same)
  | inr (_, file) ↦ ap load_policy file ∙ load_policy-persisted (perform r op).policy
]

-- a restart of a synced object gives one with the same policy
init-policy :
    (c : Config) (r q : RootExecutionPolicy)
    → IsSynced r
    → init c r.policy_file r.auto.file ≡ some q
    → (q.policy ≡ r.policy) × (q.policy_file ≡ r.policy_file)
unfolding init
init-policy c r q h e = elim (Option-cases (Auto.init c r.auto.file)) [
  | inl gone ↦ ground (arith)
  | inr (a, there) ↦ ground (arith)
]

run-restarted :
    (c : Config) (r s : RootExecutionPolicy) (es : List Event)
    → init c r.policy_file r.auto.file ≡ some s
    → run c r (restarted ∷ es) ≡ run c s es
unfolding run
run-restarted c r s es there = rw (there, run)

-- the policies of a history follow one another
run-Follows :
    (c : Config) (r q : RootExecutionPolicy) (es : List Event)
    → IsSynced r
    → run c r es ≡ some q
    → Follows r.policy q.policy
unfolding run
run-Follows c r q [] h e = inr (ground arith)
run-Follows c r q (called op ∷ es) h e =
    Follows-trans (perform-Follows r op)
      (run-Follows c (perform r op) q es (perform-IsSynced r op h) e)
run-Follows c r q (restarted ∷ es) h e = elim (Option-cases (init c r.policy_file r.auto.file)) [
  | inl gone ↦ ground arith
  | inr (s, there) ↦
      let (same, file) = init-policy c r s h there in
      let rest =
        run-Follows c s q es (ap load_policy file ∙ h ∙ ap ok (sym same))
          (sym (run-restarted c r s es there) ∙ e) in
      rw same at rest
]

-- Along any history of calls and restarts, from an object whose policy file holds its policy, the
-- epoch does not fall; and two moments of the history at which the epoch is the same have the same
-- mode, route stage and confirmation.
pub run-epoch :
    (c : Config) (r q : RootExecutionPolicy) (es : List Event)
    → IsSynced r
    → run c r es ≡ some q
    → (r.policy.execution_epoch ≤ q.policy.execution_epoch)
      × (q.policy.execution_epoch ≡ r.policy.execution_epoch → SameAuthority q.policy r.policy)
run-epoch c r q es h e = elim (run-Follows c r q es h e) [
  | inl rises ↦ (omega arith, λ same. absurd (omega arith))
  | inr same ↦ (
    omega (arith, ap (λ (x : Execution). x.execution_epoch) same),
    λ _. record {
      mode = ap (λ (x : Execution). x.mode) same;
      route_stage = ap (λ (x : Execution). x.route_stage) same;
      auto_confirmed = ap (λ (x : Execution). x.auto_confirmed) same;
    },
  )
]
