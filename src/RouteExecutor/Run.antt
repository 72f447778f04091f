-- ===== src/RouteExecutor/Run.antt =====
-- `_run_transaction`: the compiled configuration, handed to the root transaction with the hooks of the
-- ledger. What the callbacks act on is the root policy.
use rill_xray_agent.Prelude.{ℕ, String, ◌≡◌, Bool, false, Option, none, some, List, str_eq}
use rill_xray_agent.Prelude.Result.{Result, ok, err}
use rill_xray_agent.Json.{Json, Fields, elements}
use rill_xray_agent.RootPolicy.State.{RootExecutionPolicy}
use rill_xray_agent.RootPolicy.Methods.{Root, record_apply, record_rollback}
use rill_xray_agent.RootTxn.World.{World, Env, Request, Ending, returned, raised, Callbacks}
use rill_xray_agent.RootTxn.Steps.{Reply, auto_outcome_id_for}
use rill_xray_agent.RootTxn.Apply.{apply}
use rill_xray_agent.RootTxn.Mutation.{IsAccepted}
use rill_xray_agent.RootTxn.Atomic.{IsAtomic}
use rill_xray_agent.RootTxn.Prepare.{IsFresh}
use rill_xray_agent.RootTxn.Crash.{Life, IsFavourable, recover_in, recover_all, apply-IsAtomic}
use rill_xray_agent.RouteExecutor.Request.{ApplyRequest, ApplyType, manual, auto}
use rill_xray_agent.RouteExecutor.Compile.{compile}
use rill_xray_agent.RouteExecutor.Errors.{Raised}

-- the request, as the transaction reads it
abbrev type_text : ApplyType → String
type_text manual = "manual"
type_text auto = "auto"

abbrev pub txn_request : ApplyRequest → Request
txn_request q = record {
  recommendation_id = q.recommendation_id;
  configuration_generation = q.configuration_generation;
  request_sha256 = q.request_sha256;
  apply_type = some (type_text q.apply_type);
}

-- a record of the ledger as a hook: an exception of it leaves the policy
abbrev hook : Root (Unit {0}) → RootExecutionPolicy → Ending (Unit {0}) × RootExecutionPolicy
hook (ok (r, _)) h = (returned tt, r)
hook (err _) h = (raised, h)

abbrev if_auto : {A : Type 0} → ApplyType → A → Option A
if_auto manual a = none
if_auto auto a = some a

-- the compiled file; `none` is an exception of the compiler
abbrev written : (Fields → String) → Result Raised Fields → Option String
written canonical (ok config) = some (canonical config)
written canonical (err _) = none

abbrev compiled : (String → String) → (Fields → String) → ApplyRequest → Option Json → Option String
compiled sha canonical q none = none
compiled sha canonical q (some config) =
    written canonical (compile sha config (elements q.operations))

-- `canonical` is `canonical_bytes` and `loads` is `json.loads`.
unfoldable pub candidate_of :
    (String → String)
    → (String → Option Json)
    → (Fields → String)
    → ApplyRequest
    → Option String
    → Option String
candidate_of sha loads canonical q none = none
candidate_of sha loads canonical q (some text) = compiled sha canonical q (loads text)

-- `xray_test` is `_xray_test` of the candidate, `restart` is `restart_xray`.
module _ (env : Env) (xray_test : Option String → Bool)
    (restart : RootExecutionPolicy → Option String → Ending Bool × RootExecutionPolicy) where
  abbrev pub matches : String → Option String → Bool
  matches candidate none = false
  matches candidate (some text) = str_eq (env.sha256 text) (env.sha256 candidate)

  unfoldable pub callbacks : ApplyRequest → String → Callbacks RootExecutionPolicy
  callbacks q candidate = record {
    apply_fn = λ h _. (returned tt, h, some candidate);
    verify_fn = λ h file. (returned (matches candidate file), h);
    restart_fn = some restart;
    commit_hook = if_auto q.apply_type (λ h.
        hook (record_apply h q.recommendation_id (auto_outcome_id_for env (txn_request q)) env.now)
          h);
    rollback_hook =
        if_auto q.apply_type
          (λ h. hook (record_rollback h (auto_outcome_id_for env (txn_request q)) env.now) h);
    pre_verify_fn = some (λ h file. (returned (xray_test file), h));
    candidate_bytes = some candidate;
  }

  module _ (sha : String → String) (loads : String → Option Json)
      (canonical : Fields → String) where
    abbrev run_candidate :
        ApplyRequest
        → Option String
        → World RootExecutionPolicy
        → Ending Reply × World RootExecutionPolicy
    run_candidate q none w = (raised, w)
    run_candidate q (some candidate) w = apply env (callbacks q candidate) (txn_request q) w

    -- the reply is that of the transaction
    unfoldable pub run_transaction :
        ApplyRequest → World RootExecutionPolicy → Ending Reply × World RootExecutionPolicy
    run_transaction q w = run_candidate q (candidate_of sha loads canonical q w.managed) w

    -- The executor's transaction is atomic, as any transaction on a fresh directory: however often it and
    -- its recoveries are killed, one recovery that is let finish leaves it not begun, undone, or done.
    pub run_transaction-IsAtomic :
        (q : ApplyRequest) (candidate : String) (orig : Option String) (old : ℕ)
        (w : World RootExecutionPolicy)
        → candidate_of sha loads canonical q w.managed ≡ some candidate
        → IsFresh orig old w
        → (lives : List (Life RootExecutionPolicy)) (last : Life RootExecutionPolicy)
        → IsFavourable last
        → IsAtomic env
            (IsAccepted (callbacks q candidate))
            orig
            old
            (txn_request q)
            (recover_in env last (recover_all env lives (run_transaction q w).1))
    unfolding run_transaction
    run_transaction-IsAtomic q candidate orig old w found fresh lives last good = rw (found) (
        apply-IsAtomic env (callbacks q candidate) (txn_request q) orig old w fresh lives last good)
