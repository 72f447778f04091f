-- ===== src/RouteExecutor/UserRules.antt =====
-- What the compiler leaves alone: the rules that Rill does not manage, in their order.
use rill_xray_agent.Prelude.{
  ℕ, String, ◌≡◌, ap, sym, ◌∙◌, Bool, true, false, not, Option, none, some, List, [], ◌∷◌, arith,
  keep, get_elem?, delete_at,
}
use rill_xray_agent.Prelude.Result.{ok, or_raise, bind-ok, if-ok, guard-ok, ok-injective}
use rill_xray_agent.Json.{Json, Fields, obj, str_of, obj_of}
use rill_xray_agent.Json.Edit.{value}
use rill_xray_agent.RouteContract.Risk.{index_of}
use rill_xray_agent.RouteExecutor.Errors.{not_managed, key_error, to_index_out_of_range}
use rill_xray_agent.RouteExecutor.Compile.{
  is_managed, managed_rule, managed_at, insert_place, managed_index, place_of, new_rule,
  replaced_rule, selector_of, run_insert, run_remove, run_replace, run_move, run_operation, step,
  run_operations, required, same_identity,
}
use rill_xray_agent.RouteExecutor.Splice.{keep-insert_at, keep-delete_at, keep-replace_at}
use rill_xray_agent.RouteExecutor.Tags.{
  selector_of-field, replaced_rule-IsManaged, new_rule-IsManaged,
}

-- The rules that the operator maintains.
abbrev pub is_user : Json → Bool
is_user rule = not (is_managed rule)

managed_rule-found :
    (m n : ℕ) (rule : Option Json) (fs : Fields)
    → managed_rule m rule ≡ ok (n, fs)
    → (m ≡ n) × (rule ≡ some (obj fs)) × (is_managed (obj fs) ≡ true)
unfolding managed_rule
managed_rule-found m n (some (obj gs)) fs h =
    let test = if-ok (is_managed (obj gs)) (m, gs) (n, fs) not_managed h in
    (
      ap (λ p. p.0) test.1,
      ap (λ p. some (obj p.1)) test.1,
      ap (λ p. is_managed (obj p.1)) (sym test.1) ∙ test.0,
    )
managed_rule-found m n none fs h = absurd (ground arith)
managed_rule-found m n (some _) fs h = absurd (ground arith)

managed_at-found :
    (rules : List Json) (index : Option ℕ) (n : ℕ) (fs : Fields)
    → managed_at rules index ≡ ok (n, fs)
    → (get_elem? rules n ≡ some (obj fs)) × (is_managed (obj fs) ≡ true)
managed_at-found rules none n fs h = absurd (ground arith)
managed_at-found rules (some m) n fs h =
    let found = managed_rule-found m n (get_elem? rules m) fs h in
    (ap (get_elem? rules) (sym found.0) ∙ found.1, found.2)

-- the place of a managed rule
pub managed_index-found :
    (rules : List Json) (index : Json) (n : ℕ) (fs : Fields)
    → managed_index rules index ≡ ok (n, fs)
    → (get_elem? rules n ≡ some (obj fs)) × (is_managed (obj fs) ≡ true)
unfolding managed_index
managed_index-found rules index n fs h = managed_at-found rules (index_of index) n fs h

user_managed : (rule : Json) → is_managed rule ≡ true → is_user rule ≡ false
user_managed rule h = ap not h

module _ (sha : String → String) (params : Fields) (rules edited : List Json) where
  insert-user_rules :
      run_insert sha params rules ≡ ok edited → keep is_user edited ≡ keep is_user rules
  unfolding run_insert
  insert-user_rules h =
      let place = bind-ok (insert_place params rules) _ edited h in
      let made = bind-ok (new_rule sha params) _ edited place.2 in
      ap (keep is_user) (sym (ok-injective made.2))
      ∙ keep-insert_at is_user place.0 made.0 rules
          (user_managed made.0 (new_rule-IsManaged sha params made.0 made.1))

  remove-user_rules :
      run_remove sha params rules ≡ ok edited → keep is_user edited ≡ keep is_user rules
  unfolding run_remove
  remove-user_rules h =
      let index = bind-ok (required "ruleIndex" params) _ edited h in
      let found = bind-ok (managed_index rules index.0) _ edited index.2 in
      let rule = managed_index-found rules index.0 found.0.0 found.0.1 found.1 in
      ap (keep is_user) (sym (ok-injective found.2))
      ∙ keep-delete_at is_user found.0.0 (obj found.0.1) rules rule.0
          (user_managed (obj found.0.1) rule.1)

  replace-user_rules :
      run_replace sha params rules ≡ ok edited → keep is_user edited ≡ keep is_user rules
  unfolding run_replace
  replace-user_rules h =
      let index = bind-ok (required "ruleIndex" params) _ edited h in
      let found = bind-ok (managed_index rules index.0) _ edited index.2 in
      let rule = managed_index-found rules index.0 found.0.0 found.0.1 found.1 in
      let same =
        guard-ok (same_identity sha found.0.1 (value "managedRuleId" params)) _ _ edited found.2 in
      let chosen = bind-ok (selector_of (value "selectorType" params)) _ edited same.1 in
      ap (keep is_user) (sym (ok-injective chosen.2))
      ∙ keep-replace_at is_user found.0.0 (obj found.0.1)
          (obj (replaced_rule sha found.0.1 chosen.0 params)) rules rule.0
          (user_managed (obj found.0.1) rule.1)
          (user_managed (obj (replaced_rule sha found.0.1 chosen.0 params)) (
            replaced_rule-IsManaged sha found.0.1 chosen.0 params
              (selector_of-field (value "selectorType" params) chosen.0 chosen.1) rule.1))

  move-user_rules : run_move sha params rules ≡ ok edited → keep is_user edited ≡ keep is_user rules
  unfolding run_move
  move-user_rules h =
      let from = bind-ok (required "fromIndex" params) _ edited h in
      let to = bind-ok (required "toIndex" params) _ edited from.2 in
      let found = bind-ok (managed_index rules from.0) _ edited to.2 in
      let place = bind-ok (place_of rules to.0 to_index_out_of_range) _ edited found.2 in
      let rule = managed_index-found rules from.0 found.0.0 found.0.1 found.1 in
      ap (keep is_user) (sym (ok-injective place.2))
      ∙ keep-insert_at is_user place.0 (obj found.0.1) (delete_at found.0.0 rules)
          (user_managed (obj found.0.1) rule.1)
      ∙ keep-delete_at is_user found.0.0 (obj found.0.1) rules rule.0
          (user_managed (obj found.0.1) rule.1)

  operation-user_rules :
      (name : String)
      → run_operation sha name params rules ≡ ok edited
      → keep is_user edited ≡ keep is_user rules
  unfolding run_operation
  operation-user_rules name h =
      ground (arith, insert-user_rules, remove-user_rules, replace-user_rules, move-user_rules)

step-user_rules :
    (sha : String → String) (op : Json) (rules edited : List Json)
    → step sha op rules ≡ ok edited
    → keep is_user edited ≡ keep is_user rules
unfolding step
step-user_rules sha (obj op) rules edited h =
    let name = bind-ok (or_raise (str_of (value "op" op)) key_error) _ edited h in
    let params = bind-ok (or_raise (obj_of (value "params" op)) key_error) _ edited name.2 in
    operation-user_rules sha params.0 rules edited name.0 params.2
step-user_rules sha _ rules edited h = absurd (ground arith)

pub run_operations-user_rules :
    (sha : String → String) (ops rules edited : List Json)
    → run_operations sha ops rules ≡ ok edited
    → keep is_user edited ≡ keep is_user rules
unfolding run_operations
run_operations-user_rules sha [] rules edited h = ap (keep is_user) (sym (ok-injective h))
run_operations-user_rules sha (op ∷ ops) rules edited h =
    let first = bind-ok (step sha op rules) _ edited h in
    run_operations-user_rules sha ops first.0 edited first.2
    ∙ step-user_rules sha op rules first.0 first.1
