-- ===== src/RouteExecutor/Recovered.antt =====
-- What the gate of the recovery and the checks of the files have found.
use rill_xray_agent.Prelude.{
  ℕ, String, ◌≡◌, refl, ap, sym, ◌∙◌, ◌⊎◌, inl, inr, true, false, not, ◌==◌, Option, none, some, [],
  arith, eq_iff, str_eq,
}
use rill_xray_agent.Prelude.Result.{ok, bind-ok, ok-injective}
use rill_xray_agent.ReleaseCapabilities.{Manifest, bounded_auto, is_released}
use rill_xray_agent.RootPolicy.State.{
  RootExecutionPolicy, normal, assist, same_mode, same_stage, integrity_valid,
}
use rill_xray_agent.RootPolicy.State as Root
use rill_xray_agent.RootTxn.World.{Env}
use rill_xray_agent.RouteExecutor.Request.{ApplyRequest, ApplyType, auto}
use rill_xray_agent.RouteExecutor.Gates.{
  Block, Transactions, release_gate, root_state_gate, recovery_required, config_hash_mismatch,
  generation_mismatch,
}
use rill_xray_agent.RouteExecutor.Authorize.{
  Host, clear, or_reject, unless, reconcile_ledger, recovered, or_raised, global_recovery_gate,
  bound_to, binding_gate,
}
use rill_xray_agent.RouteExecutor.Cleared.{
  clear-none, release_gate-auto, flipped, unless_clear, branch, IsBound,
}

module _ {W : Type 0} (t : Transactions W) (env : Env) (now : ℕ) where
  pub recovered-safe :
      (h ready : Host W) → recovered t env now h ≡ ok ready → t.requires_recovery ready.txn ≡ false
  recovered-safe h ready e =
      let settled =
        bind-ok
          (or_raised (record h { txn = t.recover_all h.txn })
            (reconcile_ledger env now (t.outcomes (t.recover_all h.txn)) h.root))
          _ ready e in
      let safe =
        bind-ok
          (clear (unless (not (t.requires_recovery settled.0.txn)) recovery_required) settled.0) _
          ready settled.2 in
      ap (λ x. t.requires_recovery x.txn) (sym (ok-injective safe.2))
      ∙ flipped (t.requires_recovery settled.0.txn) (
          unless_clear (not (t.requires_recovery settled.0.txn)) recovery_required
            (clear-none _ settled.0 safe.1))

  -- Past the gate nothing is left to recover, and where nothing was, the host is the same.
  pub gate-safe :
      (h ready : Host W)
      → global_recovery_gate t env now h ≡ ok ready
      → (t.requires_recovery ready.txn ≡ false) × ((ready ≡ h) ⊎ (t.requires_recovery h.txn ≡ true))
  unfolding global_recovery_gate
  gate-safe h ready e =
      elim (branch (t.requires_recovery h.txn) (recovered t env now h) (ok h) ready e) [
        | inl (y, found) ↦ (recovered-safe h ready found, inr y)
        | inr (n, same) ↦ (
          ap (λ x. t.requires_recovery x.txn) (sym (ok-injective same)) ∙ n,
          inl (sym (ok-injective same)),
        )
      ]

pub release_gate-bounded :
    (m : Manifest) (k : ApplyType)
    → release_gate m k ≡ []
    → k ≡ auto
    → is_released m bounded_auto ≡ true
release_gate-bounded m k e a = release_gate-auto m (ap (release_gate m) (sym a) ∙ e)

pub root_state_gate-stage :
    (r : RootExecutionPolicy) (q : ApplyRequest)
    → root_state_gate r q ≡ []
    → q.apply_type ≡ auto
    → r.policy.route_stage ≡ Root.auto
unfolding root_state_gate
root_state_gate-stage r q e a = ground arith

pub or_reject-some :
    {W A : Type 0} (o : Option A) (h : Host W) (a : A) → or_reject o h ≡ ok a → o ≡ some a
or_reject-some none h a e = absurd (ground arith)
or_reject-some (some b) h a e = ap some (ok-injective e)

pub same_text : (s u : String) (c : Block) → unless (str_eq s u) c ≡ [] → s ≡ u
same_text s u c e = (eq_iff s u).0 (unless_clear (str_eq s u) c e)

pub same_number : (m n : ℕ) (c : Block) → unless (m == n) c ≡ [] → m ≡ n
same_number m n c e = ground arith

module _ {W : Type 0} (t : Transactions W) (sha256 : String → String) where
  pub bound_to-IsBound :
      (q : ApplyRequest) (h : Host W) (o : Option String)
      → t.managed h.txn ≡ o
      → bound_to t sha256 q h o ≡ ok tt
      → IsBound t sha256 h.txn q
  bound_to-IsBound q h none f e = absurd (ground arith)
  bound_to-IsBound q h (some text) f e =
      let hashed =
        bind-ok
          (clear (unless (str_eq (sha256 text) q.source_config_sha256) config_hash_mismatch) h) _ tt
          e in
      let counted = bind-ok (or_reject (t.generation h.txn) h) _ tt hashed.2 in
      record {
        text = text;
        file_is = f;
        digest_is =
            same_text (sha256 text) q.source_config_sha256 config_hash_mismatch
              (clear-none _ h hashed.1);
        generation_is =
            or_reject-some (t.generation h.txn) h counted.0 counted.1
            ∙ ap some (
                same_number counted.0 q.configuration_generation generation_mismatch
                  (clear-none _ h counted.2));
      }

  pub binding_gate-IsBound :
      (q : ApplyRequest) (h : Host W) → binding_gate t sha256 q h ≡ ok tt → IsBound t sha256 h.txn q
  unfolding binding_gate
  binding_gate-IsBound q h e = bound_to-IsBound q h (t.managed h.txn) refl e
