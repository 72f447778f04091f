-- ===== src/RouteExecutor/Bounds.antt =====
-- How many rules a compiled configuration may hold.
use rill_xray_agent.Prelude.{
  ℕ, suc, ◌+◌, ◌≤◌, String, ◌≡◌, ap, sym, ◌∙◌, List, [], ◌∷◌, arith, leb, leb→le, length, delete_at,
}
use rill_xray_agent.Prelude.Result.{ok, or_raise, bind-ok, guard-ok, ok-injective}
use rill_xray_agent.Json.{Json, obj, Fields, str_of, obj_of, arr_of, elements}
use rill_xray_agent.Json.Edit.{value}
use rill_xray_agent.RouteContract.Names.{max_rules}
use rill_xray_agent.RouteExecutor.Errors.{
  key_error, to_index_out_of_range, no_routing, rules_not_a_list, too_many_rules,
}
use rill_xray_agent.RouteExecutor.Validate.{validate_operations}
use rill_xray_agent.RouteExecutor.Compile.{
  managed_index, place_of, insert_place, new_rule, replaced_rule, selector_of, run_insert,
  run_remove, run_replace, run_move, run_operation, step, run_operations, required, same_identity,
  rules_of, compile,
}
use rill_xray_agent.RouteExecutor.Splice.{length-insert_at, length-delete_at, length-replace_at}
use rill_xray_agent.RouteExecutor.UserRules.{managed_index-found}
use rill_xray_agent.RouteExecutor.Config.{rule_list, rules_of-found, compile-run_operations}

-- one list is at most so much longer or shorter than the other
abbrev Near : ℕ → List Json → List Json → Type 0
Near d xs ys = (length ys ≤ length xs + d) × (length xs ≤ length ys + d)

module _ (sha : String → String) (params : Fields) (rules edited : List Json) where
  pub insert-length : run_insert sha params rules ≡ ok edited → length edited ≡ suc (length rules)
  unfolding run_insert
  insert-length h =
      let place = bind-ok (insert_place params rules) _ edited h in
      let made = bind-ok (new_rule sha params) _ edited place.2 in
      ap length (sym (ok-injective made.2)) ∙ length-insert_at place.0 made.0 rules

  insert-Near : run_insert sha params rules ≡ ok edited → Near 1 rules edited
  insert-Near h = (omega (arith, insert-length h), omega (arith, insert-length h))

  remove-Near : run_remove sha params rules ≡ ok edited → Near 1 rules edited
  unfolding run_remove
  remove-Near h =
      let index = bind-ok (required "ruleIndex" params) _ edited h in
      let found = bind-ok (managed_index rules index.0) _ edited index.2 in
      let rule = managed_index-found rules index.0 found.0.0 found.0.1 found.1 in
      let shrunk = length-delete_at found.0.0 (obj found.0.1) rules rule.0 in
      let same = ap length (sym (ok-injective found.2)) in
      (omega (arith, shrunk, same), omega (arith, shrunk, same))

  replace-Near : run_replace sha params rules ≡ ok edited → Near 1 rules edited
  unfolding run_replace
  replace-Near h =
      let index = bind-ok (required "ruleIndex" params) _ edited h in
      let found = bind-ok (managed_index rules index.0) _ edited index.2 in
      let same =
        guard-ok (same_identity sha found.0.1 (value "managedRuleId" params)) _ _ edited found.2 in
      let chosen = bind-ok (selector_of (value "selectorType" params)) _ edited same.1 in
      let kept =
        ap length (sym (ok-injective chosen.2))
        ∙ length-replace_at found.0.0 (obj (replaced_rule sha found.0.1 chosen.0 params)) rules in
      (omega (arith, kept), omega (arith, kept))

  move-Near : run_move sha params rules ≡ ok edited → Near 1 rules edited
  unfolding run_move
  move-Near h =
      let from = bind-ok (required "fromIndex" params) _ edited h in
      let to = bind-ok (required "toIndex" params) _ edited from.2 in
      let found = bind-ok (managed_index rules from.0) _ edited to.2 in
      let place = bind-ok (place_of rules to.0 to_index_out_of_range) _ edited found.2 in
      let rule = managed_index-found rules from.0 found.0.0 found.0.1 found.1 in
      let shrunk = length-delete_at found.0.0 (obj found.0.1) rules rule.0 in
      let grown =
        ap length (sym (ok-injective place.2))
        ∙ length-insert_at place.0 (obj found.0.1) (delete_at found.0.0 rules) in
      (omega (arith, shrunk, grown), omega (arith, shrunk, grown))

  operation-Near :
      (name : String) → run_operation sha name params rules ≡ ok edited → Near 1 rules edited
  unfolding run_operation
  operation-Near name h = ground (arith, insert-Near, remove-Near, replace-Near, move-Near)

step-Near :
    (sha : String → String) (op : Json) (rules edited : List Json)
    → step sha op rules ≡ ok edited
    → Near 1 rules edited
unfolding step
step-Near sha (obj op) rules edited h =
    let name = bind-ok (or_raise (str_of (value "op" op)) key_error) _ edited h in
    let params = bind-ok (or_raise (obj_of (value "params" op)) key_error) _ edited name.2 in
    operation-Near sha params.0 rules edited name.0 params.2
step-Near sha _ rules edited h = absurd (ground arith)

run_operations-Near :
    (sha : String → String) (ops rules edited : List Json)
    → run_operations sha ops rules ≡ ok edited
    → Near (length ops) rules edited
unfolding run_operations
run_operations-Near sha [] rules edited h =
    let same = ap length (ok-injective h) in (omega (arith, same), omega (arith, same))
run_operations-Near sha (op ∷ ops) rules edited h =
    let first = bind-ok (step sha op rules) _ edited h in
    let near = step-Near sha op rules first.0 first.1 in
    let rest = run_operations-Near sha ops first.0 edited first.2 in
    (omega (arith, near.0, rest.0), omega (arith, near.1, rest.1))

rules_of-length :
    (config routing : Fields) (rules : List Json)
    → rules_of config ≡ ok (routing, rules)
    → length rules ≤ max_rules
unfolding rules_of
rules_of-length config routing rules h =
    let object =
      bind-ok (or_raise (obj_of (value "routing" config)) no_routing) _ (routing, rules) h in
    let listed =
      bind-ok (or_raise (arr_of (value "rules" object.0)) rules_not_a_list) _ (routing, rules)
        object.2 in
    let small =
      guard-ok (leb (length (elements listed.0)) max_rules) too_many_rules
        (ok (object.0, elements listed.0)) (routing, rules) listed.2 in
    let same : length (elements listed.0) ≡ length rules =
      ap (λ p. length p.1) (ok-injective small.1) in
    omega (arith, leb→le (length (elements listed.0)) max_rules small.0, same)

-- Where the compiler returns, the list of rules has grown or shrunk by at most one rule for each
-- operation, and the list in force had at most 512 rules.
pub compile-length :
    (sha : String → String) (config : Fields) (ops : List Json) (out : Fields)
    → compile sha (obj config) ops ≡ ok out
    → (length (rule_list out) ≤ length (rule_list config) + length ops)
      × (length (rule_list config) ≤ length (rule_list out) + length ops)
      × (length (rule_list config) ≤ max_rules)
unfolding compile
compile-length sha config ops out h =
    let near =
      run_operations-Near sha ops (rule_list config) (rule_list out)
        (compile-run_operations sha config ops out h) in
    let valid = bind-ok (validate_operations ops) _ out h in
    let found = bind-ok (rules_of config) _ out valid.2 in
    let before = rules_of-found config found.0.0 found.0.1 found.1 in
    (
      near.0,
      near.1,
      omega (arith, ap length before.1, rules_of-length config found.0.0 found.0.1 found.1),
    )
