-- ===== src/RouteContract/Aggregate.antt =====
-- What the overall risk says of each operation.
use rill_xray_agent.Prelude.{
  ℕ, ◌≤◌, String, List, [], ◌∷◌, ◌≡◌, refl, ap, ◌↔◌, ◌∙◌, All, ltb, arith, eq_iff, if◌then◌else◌,
}
use rill_xray_agent.Json.{Json}
use rill_xray_agent.RouteContract.Risk.{risk_rank, op_risk, max_by_rank, risks, overall_risk}

rank-low : risk_rank "low" ≡ 0
unfolding risk_rank
rank-low = refl

rank-zero : (r : String) → risk_rank r ≤ 0 → r ≡ "low"
unfolding risk_rank
rank-zero r h = ground (arith, eq_iff r "low")

higher : String → String → String
higher best r = if ltb (risk_rank best) (risk_rank r) then r else best

higher-left : (best r : String) → risk_rank best ≤ risk_rank (higher best r)
unfolding higher
higher-left best r = ground arith

higher-right : (best r : String) → risk_rank r ≤ risk_rank (higher best r)
unfolding higher
higher-right best r = ground arith

higher-low : (r : String) → r ≡ "low" → higher "low" r ≡ "low"
unfolding higher
higher-low r h = ground (arith, rank-low)

max_by_rank-best :
    (best : String) (rs : List String) → risk_rank best ≤ risk_rank (max_by_rank best rs)
unfolding max_by_rank higher
max_by_rank-best best [] = omega arith
max_by_rank-best best (r ∷ rs) =
    omega (arith, max_by_rank-best (higher best r) rs, higher-left best r)

-- `max` is no smaller than any of the values.
max_by_rank-bound :
    (best : String) (ops rules : List Json)
    → All (λ op. risk_rank (op_risk op rules) ≤ risk_rank (max_by_rank best (risks ops rules))) ops
unfolding max_by_rank higher
max_by_rank-bound best [] rules = tt
max_by_rank-bound best (op ∷ ops) rules = (
  omega (
    arith,
    max_by_rank-best (higher best (op_risk op rules)) (risks ops rules),
    higher-right best (op_risk op rules),
  ),
  max_by_rank-bound (higher best (op_risk op rules)) ops rules,
)

All-low :
    (m : ℕ) (ops rules : List Json)
    → m ≤ 0
    → All (λ op. risk_rank (op_risk op rules) ≤ m) ops
    → All (λ op. op_risk op rules ≡ "low") ops
All-low m [] rules h bound = tt
All-low m (op ∷ ops) rules h bound =
    (rank-zero (op_risk op rules) (omega (arith, h, bound.0)), All-low m ops rules h bound.1)

max_by_rank-low :
    (best : String) (ops rules : List Json)
    → best ≡ "low"
    → All (λ op. op_risk op rules ≡ "low") ops
    → max_by_rank best (risks ops rules) ≡ "low"
unfolding max_by_rank higher
max_by_rank-low best [] rules b h = b
max_by_rank-low best (op ∷ ops) rules b h =
    max_by_rank-low (higher best (op_risk op rules)) ops rules
      (ap (λ u. higher u (op_risk op rules)) b ∙ higher-low (op_risk op rules) h.0) h.1

-- The risk of each operation is at most the overall one.
pub overall_risk-bound :
    (ops rules : List Json)
    → All (λ op. risk_rank (op_risk op rules) ≤ risk_rank (overall_risk ops rules)) ops
unfolding overall_risk
overall_risk-bound [] rules = tt
overall_risk-bound (op ∷ ops) rules = (
  max_by_rank-best (op_risk op rules) (risks ops rules),
  max_by_rank-bound (op_risk op rules) ops rules,
)

rank_of_low : (r : String) → r ≡ "low" → risk_rank r ≤ 0
rank_of_low r h = ground (arith, rank-low)

overall_risk-low :
    (ops rules : List Json)
    → All (λ op. op_risk op rules ≡ "low") ops
    → overall_risk ops rules ≡ "low"
unfolding overall_risk
overall_risk-low [] rules h = refl
overall_risk-low (op ∷ ops) rules h = max_by_rank-low (op_risk op rules) ops rules h.0 h.1

-- The overall risk of any operations, against any rules, is low just where each operation's is: one
-- risky operation among harmless ones is never averaged away.
pub overall_risk-low_iff :
    (ops rules : List Json)
    → (overall_risk ops rules ≡ "low") ↔ All (λ op. op_risk op rules ≡ "low") ops
overall_risk-low_iff ops rules = (
  λ low.
      All-low (risk_rank (overall_risk ops rules)) ops rules
        (rank_of_low (overall_risk ops rules) low) (overall_risk-bound ops rules),
  overall_risk-low ops rules,
)
