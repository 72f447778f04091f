-- ===== src/RouteExecutor/Flooded.antt =====
-- A configuration with one rule too many: how a request brings it about, and what follows.
use mathlib.Core.Path.{subst}
use rill_xray_agent.Prelude.{
  ℕ, suc, ◌<◌, String, ◌≡◌, refl, ap, sym, ◌∙◌, false, List, [], ◌∷◌, arith, leb, length,
}
use rill_xray_agent.Prelude.Result.{ok, err, or_raise, bind-ok, ok-injective}
use rill_xray_agent.Json.{Json, str, arr, obj, Items, Fields, str_of, obj_of, elements}
use rill_xray_agent.Json.Edit.{value}
use rill_xray_agent.RouteContract.Names.{max_rules}
use rill_xray_agent.RouteContract.Risk.{as_fields}
use rill_xray_agent.RouteExecutor.Errors.{key_error, too_many_rules}
use rill_xray_agent.RouteExecutor.Validate.{validate_operations}
use rill_xray_agent.RouteExecutor.Compile.{run_operation, step, run_operations, rules_of, compile}
use rill_xray_agent.RouteExecutor.Config.{as_list, routing_of, rule_list, compile-run_operations}
use rill_xray_agent.RouteExecutor.Bounds.{insert-length}

fields_of :
    (v : Json) (k : String)
    → 0 < length (as_list (value k (as_fields v)))
    → (fs : Fields) × (v ≡ obj fs)
unfolding value
fields_of (obj fs) k h = (fs, refl)
fields_of _ k h = absurd (omega arith)

over : (n : ℕ) → max_rules < n → leb n max_rules ≡ false
over n h = ground arith

flooded_list :
    (v : Json)
    → max_rules < length (as_list v)
    → (xs : Items) × (v ≡ arr xs) × (leb (length (elements xs)) max_rules ≡ false)
flooded_list (arr xs) h = (xs, refl, over (length (elements xs)) h)
flooded_list _ h = absurd (omega (arith, h))

rules_of-flooded :
    (config : Fields) → max_rules < length (rule_list config) → rules_of config ≡ err too_many_rules
unfolding rules_of rule_list routing_of
rules_of-flooded config h =
    let object = fields_of (value "routing" config) "rules" (omega (arith, h)) in
    let listed =
      flooded_list (value "rules" object.0)
        (subst (λ v. max_rules < length (as_list (value "rules" (as_fields v)))) object.1 h) in
    rw (object.1, listed.1, listed.2) refl

compile-flooded :
    (sha : String → String) (config : Fields) (ops : List Json)
    → max_rules < length (rule_list config)
    → validate_operations ops ≡ ok tt
    → compile sha (obj config) ops ≡ err too_many_rules
unfolding compile
compile-flooded sha config ops h valid = rw (valid, rules_of-flooded config h) refl

str_of-found : (v : Json) (s t : String) → v ≡ str t → or_raise (str_of v) key_error ≡ ok s → s ≡ t
str_of-found v s t e h = ground arith

-- one round of the loop at an insertion
step-insert :
    (sha : String → String) (op : Fields) (rules edited : List Json)
    → value "op" op ≡ str "routingRule.insert"
    → step sha (obj op) rules ≡ ok edited
    → length edited ≡ suc (length rules)
unfolding step run_operation
step-insert sha op rules edited kind h =
    let name = bind-ok (or_raise (str_of (value "op" op)) key_error) _ edited h in
    let params = bind-ok (or_raise (obj_of (value "params" op)) key_error) _ edited name.2 in
    let same = str_of-found (value "op" op) name.0 "routingRule.insert" kind name.1 in
    insert-length sha params.0 rules edited
      (subst (λ n. run_operation sha n params.0 rules ≡ ok edited) same params.2)

-- An insertion into a configuration of 512 rules that compiles gives one of 513 rules, and the compiler
-- then refuses every valid request, one that only removes rules included.
pub compile-floods :
    (sha : String → String) (config op out : Fields)
    → length (rule_list config) ≡ max_rules
    → value "op" op ≡ str "routingRule.insert"
    → compile sha (obj config) (obj op ∷ []) ≡ ok out
    → (length (rule_list out) ≡ suc max_rules)
      × ((ops : List Json)
          → validate_operations ops ≡ ok tt
          → compile sha (obj out) ops ≡ err too_many_rules)
unfolding run_operations
compile-floods sha config op out full kind h =
    let ran = compile-run_operations sha config (obj op ∷ []) out h in
    let first = bind-ok (step sha (obj op) (rule_list config)) _ (rule_list out) ran in
    let grown = step-insert sha op (rule_list config) first.0 kind first.1 in
    let more : length (rule_list out) ≡ suc max_rules =
      ap length (sym (ok-injective first.2)) ∙ grown ∙ ap suc full in
    (more, λ ops valid. compile-flooded sha out ops (omega (arith, more)) valid)
