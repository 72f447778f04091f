-- ===== src/RouteExecutor/Places.antt =====
-- What an automatic request may do to the order of the rules: nothing.
use mathlib.Core.Path.{subst}
use rill_xray_agent.Prelude.{
  some-injective, ℕ, ◌≤◌, String, ◌≡◌, refl, ap, sym, ◌∙◌, ◌⊎◌, inl, inr, Bool, true, false, Option,
  none, some, List, map, All, Bool-cases, arith, eq_iff, str_eq, length, take, insert_at,
  if◌then◌else◌,
}
use rill_xray_agent.Prelude.Int.{ℤ}
use rill_xray_agent.Prelude.Result.{ok, or_raise, bind-ok, guard-ok, ok-injective}
use rill_xray_agent.Json.{
  Json, str, arr, obj, Items, nil, cons, Fields, str_of, obj_of, member, elements,
}
use rill_xray_agent.Json.Edit.{value}
use rill_xray_agent.RootPolicy.Methods.{
  contains, auto_route_ops, op_allowlisted, item_allowlisted, all_allowlisted, auto_ops_allowlisted,
}
use rill_xray_agent.RouteContract.Risk.{params_of, as_fields, named_risk, typed_risk, op_risk}
use rill_xray_agent.RouteExecutor.Errors.{key_error}
use rill_xray_agent.RouteExecutor.Compile.{
  managed_index, insert_place, new_rule, replaced_rule, selector_of, run_insert, run_replace,
  run_operation, step, run_operations, required, same_identity,
}
use rill_xray_agent.RouteExecutor.Splice.{take-insert_at, take-replace_at, take-length}
use rill_xray_agent.RouteExecutor.Tags.{
  selector_of-field, replaced_rule-tag, replaced_rule-IsManaged,
}
use rill_xray_agent.RootPolicy.State.{RootExecutionPolicy}
use rill_xray_agent.RootPolicy.Methods.{evaluate}
use rill_xray_agent.RootPolicy.Eligible.{allows, allows-Permits}
use rill_xray_agent.RouteContract.Risk.{overall_risk}
use rill_xray_agent.RouteContract.Aggregate.{overall_risk-low_iff}
use rill_xray_agent.RouteExecutor.Compile.{compile}
use rill_xray_agent.RouteExecutor.Config.{rule_list, compile-run_operations}
use rill_xray_agent.RouteExecutor.UserRules.{managed_index-found}
use rill_xray_agent.RouteExecutor.Reads.{
  pinned-managed, member-value, insert_place-index, insert_low, pinned,
}

-- What the loop keeps of the rules that it began with.
abbrev Kept : List Json → List Json → Type 0
Kept start rules = map pinned (take (length start) rules) ≡ map pinned start

insert-Kept :
    (sha : String → String) (params : Fields) (start rules edited : List Json)
    → typed_risk "routingRule.insert" params start ≡ "low"
    → run_insert sha params rules ≡ ok edited
    → Kept start rules
    → Kept start edited
unfolding run_insert
insert-Kept sha params start rules edited low h kept =
    let place = bind-ok (insert_place params rules) _ edited h in
    let made = bind-ok (new_rule sha params) _ edited place.2 in
    let at =
      insert_place-index params rules place.0 (length start) place.1
        (insert_low params start low) in
    ap (λ xs. map pinned (take (length start) xs))
      (sym (ok-injective made.2) ∙ ap (λ k. insert_at k made.0 rules) at.0)
    ∙ take-insert_at pinned (length start) made.0 rules (subst (λ u. u ≤ length rules) at.0 at.1)
    ∙ kept

replace-Kept :
    (sha : String → String) (params : Fields) (start rules edited : List Json)
    → run_replace sha params rules ≡ ok edited
    → Kept start rules
    → Kept start edited
unfolding run_replace
replace-Kept sha params start rules edited h kept =
    let index = bind-ok (required "ruleIndex" params) _ edited h in
    let found = bind-ok (managed_index rules index.0) _ edited index.2 in
    let rule = managed_index-found rules index.0 found.0.0 found.0.1 found.1 in
    let same =
      guard-ok (same_identity sha found.0.1 (value "managedRuleId" params)) _ _ edited found.2 in
    let chosen = bind-ok (selector_of (value "selectorType" params)) _ edited same.1 in
    let field = selector_of-field (value "selectorType" params) chosen.0 chosen.1 in
    ap (λ xs. map pinned (take (length start) xs)) (sym (ok-injective chosen.2))
    ∙ take-replace_at pinned (length start) found.0.0 (obj found.0.1)
        (obj (replaced_rule sha found.0.1 chosen.0 params)) rules rule.0
        (pinned-managed (replaced_rule sha found.0.1 chosen.0 params) found.0.1
          (replaced_rule-IsManaged sha found.0.1 chosen.0 params field rule.1) rule.1
          (replaced_rule-tag sha found.0.1 chosen.0 params field))
    ∙ kept

auto_name :
    (name : String)
    → contains name auto_route_ops ≡ true
    → (name ≡ "routingRule.insert") ⊎ (name ≡ "routingRule.replaceManaged")
auto_name name h = elim (Bool-cases (str_eq name "routingRule.insert")) [
  | inl e ↦ inl ((eq_iff name "routingRule.insert").0 e)
  | inr e ↦ inr ((eq_iff name "routingRule.replaceManaged").0 (ground arith))
]

operation-Kept :
    (sha : String → String) (name : String) (params : Fields) (start rules edited : List Json)
    → contains name auto_route_ops ≡ true
    → typed_risk name params start ≡ "low"
    → run_operation sha name params rules ≡ ok edited
    → Kept start rules
    → Kept start edited
unfolding run_operation
operation-Kept sha name params start rules edited a low h kept = elim (auto_name name a) [
  | inl e ↦
      insert-Kept sha params start rules edited (ap (λ u. typed_risk u params start) (sym e) ∙ low)
        (ap (λ u. run_operation sha u params rules) (sym e) ∙ h) kept
  | inr e ↦
      replace-Kept sha params start rules edited
        (ap (λ u. run_operation sha u params rules) (sym e) ∙ h) kept
]

op_allowlisted-name :
    (o : Option Json)
    → op_allowlisted o ≡ some true
    → (s : String) × (o ≡ some (str s)) × (contains s auto_route_ops ≡ true)
op_allowlisted-name (some (str s)) h = (s, refl, some-injective h)
op_allowlisted-name none h = absurd (ground arith)
op_allowlisted-name (some _) h = absurd (ground arith)

text_found : (v : Json) (s : String) → or_raise (str_of v) key_error ≡ ok s → v ≡ str s
text_found (str t) s h = ap str (ok-injective h)
text_found _ s h = absurd (ground arith)

object_found : (v : Json) (fs : Fields) → or_raise (obj_of v) key_error ≡ ok fs → v ≡ obj fs
object_found (obj gs) fs h = ap obj (ok-injective h)
object_found _ fs h = absurd (ground arith)

str-injective : {s t : String} → str s ≡ str t → s ≡ t
str-injective e = cc

params_of-found : (op params : Fields) → value "params" op ≡ obj params → params_of op ≡ params
unfolding params_of
params_of-found op params e = ap as_fields e

step-Kept :
    (sha : String → String) (op : Json) (start rules edited : List Json)
    → item_allowlisted op ≡ some true
    → op_risk op start ≡ "low"
    → step sha op rules ≡ ok edited
    → Kept start rules
    → Kept start edited
unfolding step op_risk
step-Kept sha (obj op) start rules edited a low h kept =
    let named = op_allowlisted-name (member "op" op) a in
    let name = bind-ok (or_raise (str_of (value "op" op)) key_error) _ edited h in
    let params = bind-ok (or_raise (obj_of (value "params" op)) key_error) _ edited name.2 in
    let text = text_found (value "op" op) name.0 name.1 in
    let same = str-injective (sym text ∙ member-value "op" op (str named.0) named.1) in
    let risk =
      ap (λ v. named_risk (str_of v) op start) text
      ∙ ap (λ ps. typed_risk name.0 ps start)
          (params_of-found op params.0 (object_found (value "params" op) params.0 params.1)) in
    operation-Kept sha name.0 params.0 start rules edited
      (ap (λ u. contains u auto_route_ops) same ∙ named.2) (sym risk ∙ low) params.2 kept
step-Kept sha _ start rules edited a low h kept = absurd (ground arith)

allowlisted_parts :
    (o rest : Option Bool)
    → elim o [ none ↦ none | some b ↦ if b then rest else some false ] ≡ some true
    → (o ≡ some true) × (rest ≡ some true)
allowlisted_parts none rest h = absurd (ground arith)
allowlisted_parts (some true) rest h = (refl, h)
allowlisted_parts (some false) rest h = absurd (ground arith)

operations-Kept :
    (sha : String → String) (ops : Items) (start rules edited : List Json)
    → all_allowlisted ops ≡ some true
    → All (λ op. op_risk op start ≡ "low") (elements ops)
    → run_operations sha (elements ops) rules ≡ ok edited
    → Kept start rules
    → Kept start edited
unfolding run_operations all_allowlisted
operations-Kept sha nil start rules edited a low h kept =
    ap (λ xs. map pinned (take (length start) xs)) (sym (ok-injective h)) ∙ kept
operations-Kept sha (cons op ops) start rules edited a low h kept =
    let first = bind-ok (step sha op rules) _ edited h in
    let parts = allowlisted_parts (item_allowlisted op) (all_allowlisted ops) a in
    operations-Kept sha ops start first.0 edited parts.1 low.1 first.2
      (step-Kept sha op start rules first.0 parts.0 low.0 first.1 kept)

auto_ops-all :
    (ops : Items) → auto_ops_allowlisted (arr ops) ≡ some true → all_allowlisted ops ≡ some true
unfolding auto_ops_allowlisted
auto_ops-all nil h = absurd (ground arith)
auto_ops-all (cons op ops) h = h

-- Where the root lets an automatic request through, having computed its risk from the rules in force,
-- what is compiled from it has each of these rules where it was: a rule of the operator is untouched
-- and a rule of Rill has its tag. New rules come after them.
pub compile-auto_places :
    (sha : String → String) (parse_int : String → Option ℤ) (r : RootExecutionPolicy) (rid : String)
    (epoch : ℤ) (now : ℕ) (config : Fields) (ops : Items) (out : Fields)
    → allows (
        evaluate parse_int r rid epoch
          (overall_risk (elements ops) (rule_list config))
          (arr ops)
          now)
      ≡ true
    → compile sha (obj config) (elements ops) ≡ ok out
    → map pinned (take (length (rule_list config)) (rule_list out)) ≡ map pinned (rule_list config)
compile-auto_places sha parse_int r rid epoch now config ops out allowed h =
    let permits =
      (allows-Permits parse_int r rid epoch (overall_risk (elements ops) (rule_list config))
        (arr ops) now allowed).0 in
    operations-Kept sha ops (rule_list config) (rule_list config) (rule_list out)
      (auto_ops-all ops permits.allowlisted)
      ((overall_risk-low_iff (elements ops) (rule_list config)).0 permits.low_risk)
      (compile-run_operations sha config (elements ops) out h)
      (take-length pinned (rule_list config))
