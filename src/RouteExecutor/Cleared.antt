-- ===== src/RouteExecutor/Cleared.antt =====
-- What a gate that lets a request pass has found.
use rill_xray_agent.Prelude.{
  some-injective, ℕ, String, ◌≡◌, refl, ap, ◌∙◌, ◌⊎◌, inl, inr, Bool, true, false, not, Option,
  none, some, List, [], ◌∷◌, ◌++◌, arith, eq_iff, if◌then◌else◌,
}
use rill_xray_agent.Prelude.Int.{ℤ, pos}
use rill_xray_agent.Prelude.Result.{Result, ok}
use rill_xray_agent.Json.{Json, arr, elements}
use rill_xray_agent.ReleaseCapabilities.{Manifest, route_assist, bounded_auto, is_released}
use rill_xray_agent.RootPolicy.State.{RootExecutionPolicy, normal, integrity_valid}
use rill_xray_agent.RootPolicy.Methods.{evaluate}
use rill_xray_agent.AutoPolicy.Methods.{Decision, is_empty}
use rill_xray_agent.RootPolicy.Eligible.{allows}
use rill_xray_agent.RouteContract.Risk.{overall_risk}
use rill_xray_agent.RouteExecutor.Request.{ApplyRequest, ApplyType, manual, auto}
use rill_xray_agent.RouteExecutor.Gates.{
  Block, Transactions, release_gate, request_gate, root_state_gate, root_gate, root_gate_of,
  decided, automatic, refusals, current_rules,
}
use rill_xray_agent.RouteExecutor.Authorize.{Host, clear, unless}

-- The root's state, as the gate wants it for a request.
pub record InForce (m : Manifest) (r : RootExecutionPolicy) (q : ApplyRequest) : Type 0 where
  pub assist_released : is_released m route_assist ≡ true
  pub own_mode : q.mode ≡ "normal"
  pub intact : integrity_valid r ≡ true
  pub root_mode : r.policy.mode ≡ normal
  pub epoch : q.execution_epoch ≡ r.policy.execution_epoch

-- The host, as the transaction finds it.
pub record IsBound {W : Type 0} (t : Transactions W) (sha256 : String → String) (w : W)
    (q : ApplyRequest) : Type 0 where
  pub text : String
  pub file_is : t.managed w ≡ some text
  pub digest_is : sha256 text ≡ q.source_config_sha256
  pub generation_is : t.generation w ≡ some q.configuration_generation

pub clear-none : {W : Type 0} (bs : List Block) (h : Host W) → clear bs h ≡ ok tt → bs ≡ []
clear-none [] h e = refl
clear-none (b ∷ bs) h e = absurd (ground arith)

pub release_gate-released :
    (m : Manifest) (k : ApplyType) → release_gate m k ≡ [] → is_released m route_assist ≡ true
unfolding release_gate
release_gate-released m manual e = ground arith
release_gate-released m auto e = ground arith

pub release_gate-auto :
    (m : Manifest) → release_gate m auto ≡ [] → is_released m bounded_auto ≡ true
unfolding release_gate
release_gate-auto m e = ground arith

pub request_gate-normal : (q : ApplyRequest) → request_gate q ≡ [] → q.mode ≡ "normal"
unfolding request_gate
request_gate-normal q e = ground (arith, eq_iff q.mode "normal")

pub root_state_gate-clear :
    (r : RootExecutionPolicy) (q : ApplyRequest)
    → root_state_gate r q ≡ []
    → (integrity_valid r ≡ true)
      × (r.policy.mode ≡ normal)
      × (q.execution_epoch ≡ r.policy.execution_epoch)
unfolding root_state_gate
root_state_gate-clear r q e = (ground arith, ground arith, ground arith)

pub append-nil : {A : Type 0} (xs ys : List A) → xs ++ ys ≡ [] → (xs ≡ []) × (ys ≡ [])
append-nil [] ys e = (refl, e)
append-nil (x ∷ xs) ys e = absurd (ground arith)

pub refusals-nil : (d : Decision) → d.0 ≡ is_empty d.1 → refusals d ≡ [] → d.0 ≡ true
refusals-nil (true, reasons) says z = refl
refusals-nil (false, []) says z = says
refusals-nil (false, r ∷ rs) says z = absurd (ground arith)

pub flipped : (b : Bool) → not b ≡ true → b ≡ false
flipped b e = ground arith

pub unless_clear : (b : Bool) (c : Block) → unless b c ≡ [] → b ≡ true
unless_clear b c e = ground arith

pub branch :
    {E A : Type 0} (b : Bool) (x y : Result E A) (a : A)
    → (if b then x else y) ≡ ok a
    → ((b ≡ true) × (x ≡ ok a)) ⊎ ((b ≡ false) × (y ≡ ok a))
branch true x y a e = inl (refl, e)
branch false x y a e = inr (refl, e)

module _ (parse_int : String → Option ℤ) (loads : String → Option Json) where
  -- the decision on an automatic request
  abbrev verdict : RootExecutionPolicy → ApplyRequest → ℕ → List Json → Bool
  verdict r q now rules = allows (
      evaluate parse_int r q.recommendation_id (pos q.execution_epoch)
        (overall_risk (elements q.operations) rules) (arr q.operations) now)

  -- an evaluation that refuses gives a reason
  pub evaluate-decision :
      (r : RootExecutionPolicy) (q : ApplyRequest) (now : ℕ) (rules : List Json)
      (d : Decision × RootExecutionPolicy)
      → evaluate parse_int r q.recommendation_id
          (pos q.execution_epoch)
          (overall_risk (elements q.operations) rules)
          (arr q.operations)
          now
        ≡ some d
      → d.0.0 ≡ is_empty d.0.1
  unfolding evaluate
  evaluate-decision r q now rules d e = ground arith

  pub decided-clear :
      (own bs : List Block) (o : Option (Decision × RootExecutionPolicy)) (s : RootExecutionPolicy)
      → ((d : Decision × RootExecutionPolicy) → o ≡ some d → d.0.0 ≡ is_empty d.0.1)
      → decided own o ≡ some (bs, s)
      → bs ≡ []
      → (own ≡ []) × (allows o ≡ true)
  decided-clear own bs none s says e z = absurd (ground arith)
  decided-clear own bs (some (d, u)) s says e z =
      let both = append-nil own (refusals d) (ap (λ p. p.0) (some-injective e) ∙ z) in
      (both.0, refusals-nil d (says (d, u) refl) both.1)

  pub automatic-clear :
      (r s : RootExecutionPolicy) (q : ApplyRequest) (now : ℕ) (o : Option (List Json))
      (bs : List Block)
      → automatic parse_int loads r q now o ≡ some (bs, s)
      → bs ≡ []
      → (rules : List Json) × (o ≡ some rules)
        × (root_state_gate r q ≡ [])
        × (verdict r q now rules ≡ true)
  automatic-clear r s q now none bs e z = absurd (ground arith)
  automatic-clear r s q now (some rules) bs e z =
      let both =
        decided-clear (root_state_gate r q) bs
          (evaluate parse_int r q.recommendation_id (pos q.execution_epoch)
            (overall_risk (elements q.operations) rules) (arr q.operations) now)
          s (evaluate-decision r q now rules) e z in
      (rules, refl, both.0, both.1)

  pub root_gate-state :
      (k : ApplyType) (r s : RootExecutionPolicy) (q : ApplyRequest) (file : Option String)
      (now : ℕ) (bs : List Block)
      → root_gate_of parse_int loads k r q file now ≡ some (bs, s)
      → bs ≡ []
      → root_state_gate r q ≡ []
  root_gate-state manual r s q file now bs e z = ap (λ p. p.0) (some-injective e) ∙ z
  root_gate-state auto r s q file now bs e z =
      (automatic-clear r s q now (current_rules loads file) bs e z).2

  pub root_gate-passes :
      (r s : RootExecutionPolicy) (q : ApplyRequest) (file : Option String) (now : ℕ)
      (bs : List Block)
      → root_gate parse_int loads r q file now ≡ some (bs, s)
      → bs ≡ []
      → root_state_gate r q ≡ []
  unfolding root_gate
  root_gate-passes r s q file now bs e z = root_gate-state q.apply_type r s q file now bs e z

  pub root_gate-rules :
      (k : ApplyType) (r s : RootExecutionPolicy) (q : ApplyRequest) (file : Option String)
      (now : ℕ) (bs : List Block)
      → root_gate_of parse_int loads k r q file now ≡ some (bs, s)
      → bs ≡ []
      → k ≡ auto
      → (rules : List Json) × (current_rules loads file ≡ some rules)
        × (verdict r q now rules ≡ true)
  root_gate-rules manual r s q file now bs e z k = absurd (ground arith)
  root_gate-rules auto r s q file now bs e z k =
      let clean = automatic-clear r s q now (current_rules loads file) bs e z in
      (clean.0, clean.1, clean.3)

  pub root_gate-allows :
      (r s : RootExecutionPolicy) (q : ApplyRequest) (file : Option String) (now : ℕ)
      (bs : List Block)
      → root_gate parse_int loads r q file now ≡ some (bs, s)
      → bs ≡ []
      → q.apply_type ≡ auto
      → (rules : List Json) × (current_rules loads file ≡ some rules)
        × (verdict r q now rules ≡ true)
  unfolding root_gate
  root_gate-allows r s q file now bs e z k = root_gate-rules q.apply_type r s q file now bs e z k
