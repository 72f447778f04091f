-- ===== src/RouteContract/Risk.antt =====
-- The risk of an operation against the routing rules in force.
use rill_xray_agent.Prelude.{
  ℕ, String, Bool, true, false, ◌&&◌, ltb, leb, ◌==◌, Option, none, some, List, [], ◌∷◌, str_eq,
  length, get_elem?, if◌then◌else◌,
}
use rill_xray_agent.Prelude.Int.{pos}
use rill_xray_agent.Json.{Json, null, str, arr, obj, nil, cons, Fields, end, int_of, str_of}
use rill_xray_agent.Json.Edit.{value}

-- `RISK_RANK.get(risk, RISK_RANK['high'])`
unfoldable pub risk_rank : String → ℕ
risk_rank risk = if str_eq risk "low" then 0 else if str_eq risk "medium" then 1 else 2

-- the index that a value is, if it is an integer and not negative
unfoldable pub index_of : Json → Option ℕ
index_of v = elim (int_of v) [ some (pos n) ↦ some n | _ ↦ none ]

abbrev as_rule : Option Json → Option Fields
as_rule (some (obj fs)) = some fs
as_rule _ = none

-- `rule_at(rules, index)`, for rules that are a list
unfoldable pub rule_at : List Json → Json → Option Fields
unfolding index_of
rule_at rules index = elim (index_of index) [ some n ↦ as_rule (get_elem? rules n) | none ↦ none ]

abbrev selector_field_order : List String
selector_field_order =
    "domain" ∷ "ip" ∷ "network" ∷ "port" ∷ "protocol" ∷ "source" ∷ "inboundTag" ∷ "user" ∷ "email"
    ∷ []

-- `value is not None and not value == []`
abbrev is_present : Json → Bool
is_present null = false
is_present (arr nil) = false
is_present _ = true

abbrev first_present : List String → Fields → Option String
first_present [] rule = none
first_present (k ∷ ks) rule =
    let rest = first_present ks rule in if is_present (value k rule) then some k else rest

-- the first of `selectorTypes`, where a projected rule has it
abbrev projected_type : Json → Option String
projected_type (arr (cons (str s) _)) = some s
projected_type _ = none

unfoldable pub rule_selector_type : Fields → Option String
rule_selector_type rule = elim (projected_type (value "selectorTypes" rule)) [
  | some s ↦ some s
  | none ↦ first_present selector_field_order rule
]

-- `current_type is not None and current_type == params.get('selectorType')`
unfoldable pub is_same_type : Option String → Json → Bool
is_same_type (some s) (str t) = str_eq s t
is_same_type _ _ = false

unfoldable pub live_type : List Json → Json → Option String
live_type rules index = elim (rule_at rules index) [
  | some rule ↦ rule_selector_type rule
  | none ↦ none
]

abbrev pub insert_risk : Option ℕ → ℕ → String
insert_risk (some n) count = if n == count then "low" else if ltb n count then "medium" else "high"
insert_risk none count = "high"

abbrev move_risk : Option ℕ → Option ℕ → ℕ → String
move_risk (some i) (some j) count = if ltb i count && leb j count then "low" else "high"
move_risk _ _ count = "high"

abbrev pub as_fields : Json → Fields
as_fields (obj fs) = fs
as_fields _ = end

unfoldable pub params_of : Fields → Fields
params_of op = as_fields (value "params" op)

unfoldable pub typed_risk : String → Fields → List Json → String
typed_risk name params rules =
    if str_eq name "routingRule.insert"
    then insert_risk (index_of (value "position" params)) (length rules)
    else if str_eq name "routingRule.removeManaged"
    then "low"
    else if str_eq name "routingRule.replaceManaged"
    then if is_same_type (live_type rules (value "ruleIndex" params)) (value "selectorType" params)
      then "low"
      else "medium"
    else if str_eq name "routingRule.moveManaged"
    then move_risk (index_of (value "fromIndex" params)) (index_of (value "toIndex" params))
        (length rules)
    else "high"

abbrev pub named_risk : Option String → Fields → List Json → String
named_risk (some name) op rules = typed_risk name (params_of op) rules
named_risk none op rules = "high"

-- `op_risk(op, rules)`, for rules that are a list
unfoldable pub op_risk : Json → List Json → String
op_risk (obj op) rules = named_risk (str_of (value "op" op)) op rules
op_risk _ rules = "high"

-- `max(…, key=risk_rank)`: the first of the highest
unfoldable pub max_by_rank : String → List String → String
max_by_rank best [] = best
max_by_rank best (r ∷ rs) = max_by_rank (if ltb (risk_rank best) (risk_rank r) then r else best) rs

abbrev pub risks : List Json → List Json → List String
risks [] rules = []
risks (op ∷ ops) rules = op_risk op rules ∷ risks ops rules

unfoldable pub overall_risk : List Json → List Json → String
overall_risk [] rules = "low"
overall_risk (op ∷ ops) rules = max_by_rank (op_risk op rules) (risks ops rules)
