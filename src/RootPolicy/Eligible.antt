-- ===== src/RootPolicy/Eligible.antt =====
-- When the root lets an automatic apply through.
use rill_xray_agent.Prelude.{
  ℕ, String, ◌≡◌, ◌≢◌, refl, ◌↔◌, inl, inr, Bool, true, false, Option, none, some, List, [], ◌∷◌,
  arith, Option-cases, eq_iff,
}
use rill_xray_agent.Prelude.Int.{ℤ, pos}
use rill_xray_agent.Json.{Json}
use rill_xray_agent.Reason.{Reason}
use rill_xray_agent.AutoPolicy.State.{AutoPolicy}
use rill_xray_agent.AutoPolicy.Methods as Auto
use rill_xray_agent.AutoPolicy.Methods.{Decision, is_empty}
use rill_xray_agent.AutoPolicy.Eligible.{Eligible}
use rill_xray_agent.AutoPolicy.Eligible as Ledger
use rill_xray_agent.RootPolicy.State.{RootExecutionPolicy, safe_disabled, integrity_valid}
use rill_xray_agent.RootPolicy.Methods.{auto_ops_allowlisted, blocked_by, evaluate}

abbrev pub allows : Option (Decision × RootExecutionPolicy) → Bool
allows none = false
allows (some (d, _)) = d.0

-- What the root asks of a request, the ledger aside.
pub record Permits (r : RootExecutionPolicy) (requested : ℤ) (risk : String) (operations : Json)
    : Type 0 where
  pub intact : integrity_valid r ≡ true
  pub mode_on : r.policy.mode ≢ safe_disabled
  pub epoch_current : requested ≡ pos r.policy.execution_epoch
  pub confirmed : r.policy.auto_confirmed ≡ true
  pub low_risk : risk ≡ "low"
  pub allowlisted : auto_ops_allowlisted operations ≡ some true

-- the ledger's decision says of its own reasons that there are none
ledger-decision :
    (parse_int : String → Option ℤ) (a : AutoPolicy) (rid : String) (now : ℕ) {d : Decision}
    {b : AutoPolicy}
    → Auto.evaluate parse_int a rid now ≡ some (d, b)
    → d.0 ≡ is_empty d.1
unfolding Auto.evaluate
ledger-decision parse_int a rid now h = ground arith

blocked_by-empty :
    (r : RootExecutionPolicy) (requested : ℤ) (ledger : List Reason) (risk : String) (b : Bool)
    → is_empty (blocked_by r requested ledger risk b) ≡ true
    → (r.policy.mode ≢ safe_disabled)
      × (requested ≡ pos r.policy.execution_epoch)
      × (r.policy.auto_confirmed ≡ true)
      × (is_empty ledger ≡ true)
      × (risk ≡ "low")
      × (b ≡ true)
unfolding blocked_by
blocked_by-empty r requested [] risk b h = ground (arith, eq_iff risk "low")
blocked_by-empty r requested (x ∷ ls) risk b h = ground arith

empty-blocked_by :
    (r : RootExecutionPolicy) (requested : ℤ) (ledger : List Reason) (risk : String) (b : Bool)
    → r.policy.mode ≢ safe_disabled
    → requested ≡ pos r.policy.execution_epoch
    → r.policy.auto_confirmed ≡ true
    → is_empty ledger ≡ true
    → risk ≡ "low"
    → b ≡ true
    → is_empty (blocked_by r requested ledger risk b) ≡ true
unfolding blocked_by
empty-blocked_by r requested [] risk b m e c l k a = ground (arith, eq_iff risk "low")
empty-blocked_by r requested (x ∷ ls) risk b m e c l k a = ground arith

pub allows-Permits :
    (parse_int : String → Option ℤ) (r : RootExecutionPolicy) (rid : String) (requested : ℤ)
    (risk : String) (operations : Json) (now : ℕ)
    → allows (evaluate parse_int r rid requested risk operations now) ≡ true
    → Permits r requested risk operations
      × (Ledger.allows (Auto.evaluate parse_int r.auto rid now) ≡ true)
unfolding evaluate
allows-Permits parse_int r rid requested risk operations now h =
    elim (Option-cases (Auto.evaluate parse_int r.auto rid now)) [
      | inl raised ↦ ground arith
      | inr ((d, a), e) ↦ elim (Option-cases (auto_ops_allowlisted operations)) [
        | inl raised ↦ ground arith
        | inr (b, o) ↦
            let clear = blocked_by-empty r requested d.1 risk b (ground arith) in
            let own = ledger-decision parse_int r.auto rid now e in
            (
              record {
                intact = ground arith;
                mode_on = clear.0;
                epoch_current = clear.1;
                confirmed = clear.2;
                low_risk = clear.4;
                allowlisted = ground arith;
              },
              ground arith,
            )
      ]
    ]

Permits-allows :
    (parse_int : String → Option ℤ) (r : RootExecutionPolicy) (rid : String) (requested : ℤ)
    (risk : String) (operations : Json) (now : ℕ)
    → Permits r requested risk operations
    → Ledger.allows (Auto.evaluate parse_int r.auto rid now) ≡ true
    → allows (evaluate parse_int r rid requested risk operations now) ≡ true
unfolding evaluate
Permits-allows parse_int r rid requested risk operations now h l =
    elim (Option-cases (Auto.evaluate parse_int r.auto rid now)) [
      | inl raised ↦ ground arith
      | inr ((d, a), e) ↦
          let own = ledger-decision parse_int r.auto rid now e in
          ground (
            arith,
            empty-blocked_by r requested d.1 risk true h.mode_on h.epoch_current h.confirmed
                (ground arith) h.low_risk refl,
          )
    ]

-- `evaluate` of the root lets an automatic apply through exactly when both files are intact, the mode
-- is not safe-disabled, the requested epoch is the current one, a human has confirmed automatic
-- applies, the risk is low, the operations are a list that is not empty and holds only allowlisted
-- ones, and the ledger's own `evaluate` lets it through.
pub evaluate-Permits_iff :
    (parse_int : String → Option ℤ) (r : RootExecutionPolicy) (rid : String) (requested : ℤ)
    (risk : String) (operations : Json) (now : ℕ)
    → (allows (evaluate parse_int r rid requested risk operations now) ≡ true) ↔ (
        Permits r requested risk operations
        × (Ledger.allows (Auto.evaluate parse_int r.auto rid now) ≡ true))
evaluate-Permits_iff parse_int r rid requested risk operations now = (
  allows-Permits parse_int r rid requested risk operations now,
  λ h. Permits-allows parse_int r rid requested risk operations now h.0 h.1,
)
