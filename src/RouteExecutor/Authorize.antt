-- ===== src/RouteExecutor/Authorize.antt =====
-- `RouteExecutor.apply` from a claimed request to `_run_transaction`: each gate, in the order of the code.
use rill_xray_agent.Prelude.{
  ℕ, String, Bool, false, not, ◌==◌, Option, none, some, List, [], ◌∷◌, str_eq, if◌then◌else◌,
}
use rill_xray_agent.Prelude.Int.{ℤ}
use rill_xray_agent.Prelude.Result.{Result, ok, err, ◌>>=◌, ◌>>◌}
use rill_xray_agent.Json.{Json}
use rill_xray_agent.ReleaseCapabilities.{Manifest}
use rill_xray_agent.RootPolicy.State.{RootExecutionPolicy}
use rill_xray_agent.RootPolicy.Methods.{Root, record_apply, record_rollback}
use rill_xray_agent.RootTxn.World.{
  Env, Request, TxnState, committed, rolled_back, rollback_unverified,
}
use rill_xray_agent.RootTxn.Steps.{auto_outcome_id_for}
use rill_xray_agent.RouteExecutor.Request.{ApplyRequest}
use rill_xray_agent.RouteExecutor.Gates.{
  Block, Transactions, release_gate, request_gate, root_gate, managed_config_missing,
  config_hash_mismatch, generation_mismatch, recovery_required,
}

-- how `apply` ends before a transaction is started
pub data Verdict : Type 0 where
  blocked : List Block → Verdict
  rejected : Verdict

pub record Host (W : Type 0) : Type 0 where
  pub txn : W
  pub root : RootExecutionPolicy
  pub release : Manifest

-- a value, or the end of `apply` with the host as it is then
abbrev pub Attempt : Type 0 → Type 0 → Type 0
Attempt W A = Result (Verdict × Host W) A

-- `if blocked: return self._blocked_result(request, blocked)`
abbrev pub clear : {W : Type 0} → List Block → Host W → Attempt W (Unit {0})
clear [] h = ok tt
clear (b ∷ bs) h = err (blocked (b ∷ bs), h)

-- an exception, which `apply` turns into a rejection
abbrev pub or_reject : {W A : Type 0} → Option A → Host W → Attempt W A
or_reject none h = err (rejected, h)
or_reject (some a) h = ok a

abbrev pub unless : Bool → Block → List Block
unless test b = if test then [] else b ∷ []

abbrev recorded : Root (Unit {0}) → Option RootExecutionPolicy
recorded (ok (r, _)) = some r
recorded (err _) = none

-- `apply_type` of a request is the text of `applyType`.
abbrev is_auto : Request → Bool
is_auto request = elim request.apply_type [ some s ↦ str_eq s "auto" | none ↦ false ]

module _ (env : Env) (now : ℕ) where
  -- one terminal state of an automatic transaction
  abbrev settled : Request → TxnState → RootExecutionPolicy → Option RootExecutionPolicy
  settled q committed r =
      recorded (record_apply r q.recommendation_id (auto_outcome_id_for env q) now)
  settled q rolled_back r = recorded (record_rollback r (auto_outcome_id_for env q) now)
  settled q rollback_unverified r = recorded (record_rollback r (auto_outcome_id_for env q) now)
  settled q _ r = some r

  unfoldable pub settle :
      Option Request × Option TxnState → RootExecutionPolicy → Option RootExecutionPolicy
  settle (some q, some s) r = if is_auto q then settled q s r else some r
  settle _ r = some r

  -- `_reconcile_ledger`; where a record raises, the policy is as the records before it left it
  unfoldable pub reconcile_ledger :
      List (Option Request × Option TxnState)
      → RootExecutionPolicy
      → Result RootExecutionPolicy RootExecutionPolicy
  reconcile_ledger [] r = ok r
  reconcile_ledger (o ∷ os) r = elim (settle o r) [ none ↦ err r | some s ↦ reconcile_ledger os s ]

abbrev pub with_root : {W : Type 0} → Host W → RootExecutionPolicy → Host W
with_root h r = record h { root = r }

abbrev pub or_raised :
    {W : Type 0} → Host W → Result RootExecutionPolicy RootExecutionPolicy → Attempt W (Host W)
or_raised h (ok r) = ok (with_root h r)
or_raised h (err r) = err (rejected, with_root h r)

-- `sha256` is `file_sha256`, of the text of the file.
module _ {W : Type 0} (t : Transactions W) (sha256 : String → String) where
  abbrev pub bound_to : ApplyRequest → Host W → Option String → Attempt W (Unit {0})
  bound_to q h none = err (blocked (managed_config_missing ∷ []), h)
  bound_to q h (some text) = do
    clear (unless (str_eq (sha256 text) q.source_config_sha256) config_hash_mismatch) h
    generation ← or_reject (t.generation h.txn) h
    clear (unless (generation == q.configuration_generation) generation_mismatch) h

  -- the checks of the managed file and of the generation
  unfoldable pub binding_gate : ApplyRequest → Host W → Attempt W (Unit {0})
  binding_gate q h = bound_to q h (t.managed h.txn)

module _ {W : Type 0} (t : Transactions W) (env : Env) (now : ℕ) where
  abbrev pub recovered : Host W → Attempt W (Host W)
  recovered h = do
    let after = record h { txn = t.recover_all h.txn }
    settled_host ← or_raised after (reconcile_ledger env now (t.outcomes after.txn) after.root)
    clear (unless (not (t.requires_recovery settled_host.txn)) recovery_required) settled_host
    ok settled_host

  -- `_global_recovery_gate`
  unfoldable pub global_recovery_gate : Host W → Attempt W (Host W)
  global_recovery_gate h = if t.requires_recovery h.txn then recovered h else ok h

  -- `intent_proof` is `_root_intent_proof`, which asks the analyzer and the planner.
  module _ (parse_int : String → Option ℤ) (loads : String → Option Json) (sha256 : String → String)
      (intent_proof : Host W → ApplyRequest → Option (List Block)) where
    -- The host with which the transaction of a valid request is started.
    unfoldable pub authorize : ApplyRequest → Host W → Attempt W (Host W)
    authorize q h = do
      clear (release_gate h.release q.apply_type) h
      clear (request_gate q) h
      decided ← or_reject (root_gate parse_int loads h.root q (t.managed h.txn) now) h
      clear decided.0 (with_root h decided.1)
      binding_gate t sha256 q (with_root h decided.1)
      ready ← global_recovery_gate (with_root h decided.1)
      proof ← or_reject (intent_proof ready q) ready
      clear proof ready
      ok ready
