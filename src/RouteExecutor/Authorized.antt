-- ===== src/RouteExecutor/Authorized.antt =====
-- What has been checked when a transaction is started.
use rill_xray_agent.Prelude.{
  ℕ, String, ◌≡◌, ap, sym, ◌∙◌, ◌⊎◌, inl, inr, true, false, Option, some, List,
}
use rill_xray_agent.Prelude.Int.{ℤ, pos}
use rill_xray_agent.Prelude.Result.{ok, bind-ok, ok-injective}
use rill_xray_agent.Json.{Json, arr, elements}
use rill_xray_agent.ReleaseCapabilities.{bounded_auto, is_released}
use rill_xray_agent.RootPolicy.State.{
  RootExecutionPolicy, normal, assist, same_mode, same_stage, integrity_valid,
}
use rill_xray_agent.RootPolicy.State as Root
use rill_xray_agent.RootPolicy.Methods.{evaluate}
use rill_xray_agent.RootPolicy.Eligible.{allows}
use rill_xray_agent.RootTxn.World.{Env}
use rill_xray_agent.RouteContract.Risk.{overall_risk}
use rill_xray_agent.RouteExecutor.Request.{ApplyRequest, auto}
use rill_xray_agent.RouteExecutor.Gates.{
  Block, Transactions, release_gate, request_gate, root_gate, current_rules,
}
use rill_xray_agent.RouteExecutor.Authorize.{
  Host, clear, or_reject, with_root, global_recovery_gate, binding_gate, authorize,
}
use rill_xray_agent.RouteExecutor.Cleared.{
  InForce, IsBound, clear-none, release_gate-released, request_gate-normal, root_state_gate-clear,
  root_gate-passes, root_gate-allows,
}
use rill_xray_agent.RouteExecutor.Recovered.{
  release_gate-bounded, root_state_gate-stage, gate-safe, or_reject-some, binding_gate-IsBound,
}

-- What is known of a host on which a transaction is started.
pub record Authorized {W : Type 0} (t : Transactions W) (sha256 : String → String)
    (q : ApplyRequest) (h ready : Host W) : Type 0 where
  pub in_force : InForce h.release h.root q
  pub bound : IsBound t sha256 h.txn q
  pub safe : t.requires_recovery ready.txn ≡ false
  pub unmoved : (ready.txn ≡ h.txn) ⊎ (t.requires_recovery h.txn ≡ true)

-- What is known besides where the request is automatic.
pub record AuthorizedAuto {W : Type 0} (t : Transactions W) (parse_int : String → Option ℤ)
    (loads : String → Option Json) (now : ℕ) (q : ApplyRequest) (h : Host W) : Type 0 where
  pub both_released : is_released h.release bounded_auto ≡ true
  pub stage : h.root.policy.route_stage ≡ Root.auto
  pub rules : List Json
  pub rules_are : current_rules loads (t.managed h.txn) ≡ some rules
  pub allowed :
      allows (
        evaluate parse_int h.root q.recommendation_id
          (pos q.execution_epoch)
          (overall_risk (elements q.operations) rules)
          (arr q.operations)
          now)
      ≡ true

module _ {W : Type 0} (t : Transactions W) (env : Env) (now : ℕ) (parse_int : String → Option ℤ)
    (loads : String → Option Json) (sha256 : String → String)
    (intent_proof : Host W → ApplyRequest → Option (List Block)) where
  -- A transaction is started only for a request of the current epoch and in mode normal, with Route
  -- Assist released, an intact root policy in mode normal, the managed file and the generation that the
  -- request names, and nothing left to recover: what was left has been recovered in between, and else
  -- the files are still those that were checked.
  pub authorize-Authorized :
      (q : ApplyRequest) (h ready : Host W)
      → authorize t env now parse_int loads sha256 intent_proof q h ≡ ok ready
      → Authorized t sha256 q h ready
  unfolding authorize
  authorize-Authorized q h ready e =
      let released = bind-ok (clear (release_gate h.release q.apply_type) h) _ ready e in
      let own = bind-ok (clear (request_gate q) h) _ ready released.2 in
      let gate =
        bind-ok (or_reject (root_gate parse_int loads h.root q (t.managed h.txn) now) h) _ ready
          own.2 in
      let clean = bind-ok (clear gate.0.0 (with_root h gate.0.1)) _ ready gate.2 in
      let bound = bind-ok (binding_gate t sha256 q (with_root h gate.0.1)) _ ready clean.2 in
      let safe = bind-ok (global_recovery_gate t env now (with_root h gate.0.1)) _ ready bound.2 in
      let z = clear-none gate.0.0 (with_root h gate.0.1) clean.1 in
      let found =
        or_reject-some (root_gate parse_int loads h.root q (t.managed h.txn) now) h gate.0 gate.1 in
      let state = root_state_gate-clear h.root q (
        root_gate-passes parse_int loads h.root gate.0.1 q (t.managed h.txn) now gate.0.0 found
          z) in
      let passed = gate-safe t env now (with_root h gate.0.1) safe.0 safe.1 in
      let proof = bind-ok (or_reject (intent_proof safe.0 q) safe.0) _ ready safe.2 in
      let proved = bind-ok (clear proof.0 safe.0) _ ready proof.2 in
      let last = ok-injective proved.2 in
      record {
        in_force = record {
          assist_released =
              release_gate-released h.release q.apply_type (clear-none _ h released.1);
          own_mode = request_gate-normal q (clear-none _ h own.1);
          intact = state.0;
          root_mode = state.1;
          epoch = state.2;
        };
        bound = binding_gate-IsBound t sha256 q (with_root h gate.0.1) bound.1;
        safe = ap (λ x. t.requires_recovery x.txn) (sym last) ∙ passed.0;
        unmoved = elim passed.1 [
          | inl same ↦ inl (ap (λ x. x.txn) (sym last ∙ same))
          | inr left ↦ inr left
        ];
      }

  -- An automatic request starts a transaction only where Bounded Auto is released, the root is at the
  -- stage auto, and the root policy allows it at the risk of its operations against the rules of the
  -- managed file, whatever the request says of its risk.
  pub authorize-auto :
      (q : ApplyRequest) (h ready : Host W)
      → authorize t env now parse_int loads sha256 intent_proof q h ≡ ok ready
      → q.apply_type ≡ auto
      → AuthorizedAuto t parse_int loads now q h
  unfolding authorize
  authorize-auto q h ready e k =
      let released = bind-ok (clear (release_gate h.release q.apply_type) h) _ ready e in
      let own = bind-ok (clear (request_gate q) h) _ ready released.2 in
      let gate =
        bind-ok (or_reject (root_gate parse_int loads h.root q (t.managed h.txn) now) h) _ ready
          own.2 in
      let clean = bind-ok (clear gate.0.0 (with_root h gate.0.1)) _ ready gate.2 in
      let z = clear-none gate.0.0 (with_root h gate.0.1) clean.1 in
      let found =
        or_reject-some (root_gate parse_int loads h.root q (t.managed h.txn) now) h gate.0 gate.1 in
      let allowed =
        root_gate-allows parse_int loads h.root gate.0.1 q (t.managed h.txn) now gate.0.0 found z
          k in
      record {
        both_released = release_gate-bounded h.release q.apply_type (clear-none _ h released.1) k;
        stage =
            root_state_gate-stage h.root q
              (root_gate-passes parse_int loads h.root gate.0.1 q (t.managed h.txn) now gate.0.0
                found z)
              k;
        rules = allowed.0;
        rules_are = allowed.1;
        allowed = allowed.2;
      }
