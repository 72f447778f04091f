-- ===== src/RouteExecutor/Config.antt =====
-- What a compiled configuration has in common with the one in force.
use rill_xray_agent.Prelude.{String, ◌≡◌, refl, ap, sym, ◌∙◌, List, [], ◌∷◌, arith, keep}
use rill_xray_agent.Prelude.Result.{ok, or_raise, bind-ok, guard-ok, ok-injective}
use rill_xray_agent.Json.{Json, Fields, obj, arr, Items, elements, obj_of, arr_of}
use rill_xray_agent.Json.Laws.{value-put_self, remove-put_field}
use rill_xray_agent.Json.Edit.{value, put_field, remove_field, items}
use rill_xray_agent.RouteContract.Risk.{as_fields}
use rill_xray_agent.RouteExecutor.Compile.{compile, rules_of, run_operations}
use rill_xray_agent.RouteExecutor.Validate.{validate_operations}
use rill_xray_agent.RouteExecutor.Errors.{no_routing, rules_not_a_list}
use rill_xray_agent.RouteExecutor.UserRules.{is_user, run_operations-user_rules}

abbrev pub as_list : Json → List Json
as_list (arr xs) = elements xs
as_list _ = []

unfoldable pub routing_of : Fields → Fields
routing_of config = as_fields (value "routing" config)

-- the rules in force, or those compiled
unfoldable pub rule_list : Fields → List Json
rule_list config = as_list (value "rules" (routing_of config))

elements-items : (xs : List Json) → elements (items xs) ≡ xs
elements-items [] = refl
elements-items (x ∷ xs) = ap (λ ys. x ∷ ys) (elements-items xs)

abbrev rewritten : Fields → Fields → List Json → Fields
rewritten config routing edited =
    put_field "routing" (obj (put_field "rules" (arr (items edited)) routing)) config

rewritten-rules :
    (config routing : Fields) (edited : List Json)
    → rule_list (rewritten config routing edited) ≡ edited
unfolding rule_list routing_of
rewritten-rules config routing edited =
    ap (λ v. as_list (value "rules" (as_fields v))) (value-put_self "routing" _ config)
    ∙ ap as_list (value-put_self "rules" (arr (items edited)) routing)
    ∙ elements-items edited

rewritten-routing :
    (config routing : Fields) (edited : List Json)
    → remove_field "rules" (routing_of (rewritten config routing edited))
      ≡ remove_field "rules" routing
unfolding routing_of
rewritten-routing config routing edited =
    ap (λ v. remove_field "rules" (as_fields v)) (value-put_self "routing" _ config)
    ∙ remove-put_field "rules" _ routing

as_fields-found :
    (v : Json) (fs : Fields) → or_raise (obj_of v) no_routing ≡ ok fs → as_fields v ≡ fs
as_fields-found (obj gs) fs h = ok-injective h
as_fields-found _ fs h = absurd (ground arith)

as_list-found :
    (v : Json) (xs : Items) → or_raise (arr_of v) rules_not_a_list ≡ ok xs → as_list v ≡ elements xs
as_list-found (arr ys) xs h = ap elements (ok-injective h)
as_list-found _ xs h = absurd (ground arith)

pub rules_of-found :
    (config routing : Fields) (rules : List Json)
    → rules_of config ≡ ok (routing, rules)
    → (routing_of config ≡ routing) × (rule_list config ≡ rules)
unfolding rules_of routing_of rule_list
rules_of-found config routing rules h =
    let object =
      bind-ok (or_raise (obj_of (value "routing" config)) no_routing) _ (routing, rules) h in
    let listed =
      bind-ok (or_raise (arr_of (value "rules" object.0)) rules_not_a_list) _ (routing, rules)
        object.2 in
    let small = guard-ok _ _ _ (routing, rules) listed.2 in
    let same = ok-injective small.1 in
    let at = as_fields-found (value "routing" config) object.0 object.1 in
    (
      at ∙ ap (λ p. p.0) same,
      ap (λ fs. as_list (value "rules" fs)) at
          ∙ as_list-found (value "rules" object.0) listed.0 listed.1
          ∙ ap (λ p. p.1) same,
    )

-- The rules compiled are those that the loop makes of the rules in force.
pub compile-run_operations :
    (sha : String → String) (config : Fields) (ops : List Json) (out : Fields)
    → compile sha (obj config) ops ≡ ok out
    → run_operations sha ops (rule_list config) ≡ ok (rule_list out)
unfolding compile
compile-run_operations sha config ops out h =
    let valid = bind-ok (validate_operations ops) _ out h in
    let found = bind-ok (rules_of config) _ out valid.2 in
    let edited = bind-ok (run_operations sha ops found.0.1) _ out found.2 in
    let before = rules_of-found config found.0.0 found.0.1 found.1 in
    ap (run_operations sha ops) before.1
    ∙ edited.1
    ∙ ap ok (sym (rewritten-rules config found.0.0 edited.0) ∙ ap rule_list (ok-injective edited.2))

-- Whatever operations are compiled into whatever configuration, where the compiler returns, the rules
-- that Rill does not manage are those of the configuration, in the same order; and nothing else of the
-- routing object or of the configuration is changed.
pub compile-user_rules :
    (sha : String → String) (config : Fields) (ops : List Json) (out : Fields)
    → compile sha (obj config) ops ≡ ok out
    → (keep is_user (rule_list out) ≡ keep is_user (rule_list config))
      × (remove_field "rules" (routing_of out) ≡ remove_field "rules" (routing_of config))
      × (remove_field "routing" out ≡ remove_field "routing" config)
unfolding compile
compile-user_rules sha config ops out h =
    let valid = bind-ok (validate_operations ops) _ out h in
    let found = bind-ok (rules_of config) _ out valid.2 in
    let edited = bind-ok (run_operations sha ops found.0.1) _ out found.2 in
    let before = rules_of-found config found.0.0 found.0.1 found.1 in
    let after = sym (ok-injective edited.2) in
    (
      run_operations-user_rules sha ops (rule_list config) (rule_list out)
          (compile-run_operations sha config ops out h),
      ap (λ o. remove_field "rules" (routing_of o)) after
          ∙ rewritten-routing config found.0.0 edited.0
          ∙ ap (remove_field "rules") (sym before.0),
      ap (remove_field "routing") after ∙ remove-put_field "routing" _ config,
    )
