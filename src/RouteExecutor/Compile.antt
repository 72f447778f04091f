-- ===== src/RouteExecutor/Compile.antt =====
-- `RouteMutationCompiler`. `sha` is the hexadecimal SHA-256 of a text.
use text.Mathlib.Text.{starts_with}
use rill_xray_agent.Prelude.{
  ℕ, String, Bool, true, false, leb, Option, none, some, List, [], ◌∷◌, str_eq, length, get_elem?,
  insert_at, delete_at, replace_at, if◌then◌else◌,
}
use rill_xray_agent.Prelude.Int.{pos}
use rill_xray_agent.Prelude.Result.{ok, err, guard, or_raise, ◌>>=◌, ◌>>◌}
use rill_xray_agent.Json.{
  Json, num, str, arr, obj, Fields, end, field, elements, member, str_of, obj_of, arr_of,
}
use rill_xray_agent.Json.Edit.{value, put_field, remove_field, items, truthy}
use rill_xray_agent.RootPolicy.Methods.{contains}
use rill_xray_agent.RouteContract.Names.{
  max_rules, managed_prefix, managed_rule_id_valid, managed_tag,
}
use rill_xray_agent.RouteContract.Risk.{index_of}
use rill_xray_agent.RouteExecutor.Errors.{
  Raised, Checked, config_not_an_object, no_routing, rules_not_a_list, too_many_rules,
  index_out_of_range, not_managed, missing_managed_id, unsupported_selector, position_out_of_range,
  identity_mismatch, to_index_out_of_range, unsupported_operation, key_error, type_error,
}
use rill_xray_agent.RouteExecutor.Validate.{validate_operations}

unfoldable pub has_prefix : String → Bool
has_prefix tag = starts_with tag managed_prefix

-- `isinstance(tag, str) and tag.startswith(self.managed_prefix)`
abbrev pub is_managed_tag : Json → Bool
is_managed_tag (str tag) = has_prefix tag
is_managed_tag _ = false

-- `_is_managed`
unfoldable pub is_managed : Json → Bool
is_managed (obj rule) = is_managed_tag (value "tag" rule)
is_managed _ = false

abbrev pub selector_fields : List String
selector_fields = "domain" ∷ "ip" ∷ "port" ∷ "network" ∷ "protocol" ∷ "source" ∷ []

unfoldable pub is_selector : String → Bool
is_selector s = contains s selector_fields

-- the field that `selectorType` names
unfoldable pub selector_of : Json → Checked String
selector_of (str s) = if is_selector s then ok s else err unsupported_selector
selector_of _ = err unsupported_selector

abbrev pub remove_all : List String → Fields → Fields
remove_all [] rule = rule
remove_all (k ∷ ks) rule = remove_all ks (remove_field k rule)

unfoldable pub set_outbound : Json → Fields → Fields
set_outbound outbound rule = if truthy outbound then put_field "outboundTag" outbound rule else rule

-- `params[key]`
unfoldable pub required : String → Fields → Checked Json
required key params = or_raise (member key params) key_error

unfoldable pub managed_rule : ℕ → Option Json → Checked (ℕ × Fields)
managed_rule n none = err index_out_of_range
managed_rule n (some (obj rule)) = if is_managed (obj rule) then ok (n, rule) else err not_managed
managed_rule n (some _) = err not_managed

abbrev pub managed_at : List Json → Option ℕ → Checked (ℕ × Fields)
managed_at rules none = err index_out_of_range
managed_at rules (some n) = managed_rule n (get_elem? rules n)

-- `not isinstance(index, int) or index < 0 or index >= len(rules)` raises; the rule must be managed.
unfoldable pub managed_index : List Json → Json → Checked (ℕ × Fields)
managed_index rules index = managed_at rules (index_of index)

-- an integer, no boolean, in `0 <= index <= len(rules)`
unfoldable pub place_of : List Json → Json → Raised → Checked ℕ
place_of rules (num (pos n)) e = if leb n (length rules) then ok n else err e
place_of rules _ e = err e

abbrev pub place_at : Option Json → List Json → Checked ℕ
place_at (some v) rules = place_of rules v position_out_of_range
place_at none rules = ok (length rules)

-- the `position`, by default the end
unfoldable pub insert_place : Fields → List Json → Checked ℕ
insert_place params rules = place_at (member "position" params) rules

-- the `routing` object and its rules
unfoldable pub rules_of : Fields → Checked (Fields × List Json)
rules_of config = do
  routing ← or_raise (obj_of (value "routing" config)) no_routing
  rules ← or_raise (arr_of (value "rules" routing)) rules_not_a_list
  guard (leb (length (elements rules)) max_rules) too_many_rules
  ok (routing, elements rules)

module _ (sha : String → String) where
  unfoldable pub new_tag : Json → Checked String
  new_tag (str id) =
      if managed_rule_id_valid (str id) then ok (managed_tag sha id) else err missing_managed_id
  new_tag _ = err missing_managed_id

  unfoldable pub new_rule : Fields → Checked Json
  new_rule params = do
    tag ← new_tag (value "managedRuleId" params)
    selector ← selector_of (value "selectorType" params)
    ok (
        obj (
          set_outbound (value "outboundTag" params) (
            put_field selector (value "selectorValue" params)
              (field "tag" (str tag) (field "type" (str "field") end)))))

  -- the rule, with the selector and the outbound of the operation
  unfoldable pub replaced_rule : Fields → String → Fields → Fields
  replaced_rule rule selector params =
      set_outbound (value "outboundTag" params)
        (put_field selector (value "selectorValue" params) (remove_all selector_fields rule))

  -- Where the operation binds an identity, the rule must carry its tag.
  unfoldable pub same_identity : Fields → Json → Bool
  same_identity rule (str id) =
      if managed_rule_id_valid (str id)
      then elim (value "tag" rule) [ str tag ↦ str_eq tag (managed_tag sha id) | _ ↦ false ]
      else true
  same_identity rule _ = true

  unfoldable pub run_insert : Fields → List Json → Checked (List Json)
  run_insert params rules = do
    n ← insert_place params rules
    rule ← new_rule params
    ok (insert_at n rule rules)

  unfoldable pub run_remove : Fields → List Json → Checked (List Json)
  run_remove params rules = do
    index ← required "ruleIndex" params
    found ← managed_index rules index
    ok (delete_at found.0 rules)

  unfoldable pub run_replace : Fields → List Json → Checked (List Json)
  run_replace params rules = do
    index ← required "ruleIndex" params
    found ← managed_index rules index
    guard (same_identity found.1 (value "managedRuleId" params)) identity_mismatch
    selector ← selector_of (value "selectorType" params)
    ok (replace_at found.0 (obj (replaced_rule found.1 selector params)) rules)

  unfoldable pub run_move : Fields → List Json → Checked (List Json)
  run_move params rules = do
    from ← required "fromIndex" params
    to ← required "toIndex" params
    found ← managed_index rules from
    n ← place_of rules to to_index_out_of_range
    ok (insert_at n (obj found.1) (delete_at found.0 rules))

  unfoldable pub run_operation : String → Fields → List Json → Checked (List Json)
  run_operation name params rules =
      if str_eq name "routingRule.insert"
      then run_insert params rules
      else if str_eq name "routingRule.removeManaged"
      then run_remove params rules
      else if str_eq name "routingRule.replaceManaged"
      then run_replace params rules
      else if str_eq name "routingRule.moveManaged"
      then run_move params rules
      else err unsupported_operation

  -- one round of the loop: the operations have been validated, so they are objects with these keys
  unfoldable pub step : Json → List Json → Checked (List Json)
  step (obj op) rules = do
    name ← or_raise (str_of (value "op" op)) key_error
    params ← or_raise (obj_of (value "params" op)) key_error
    run_operation name params rules
  step _ rules = err type_error

  unfoldable pub run_operations : List Json → List Json → Checked (List Json)
  run_operations [] rules = ok rules
  run_operations (op ∷ ops) rules = step op rules >>= λ edited. run_operations ops edited

  -- `RouteMutationCompiler(config, operations).compile()`
  unfoldable pub compile : Json → List Json → Checked Fields
  compile (obj config) operations = do
    validate_operations operations
    found ← rules_of config
    edited ← run_operations operations found.1
    ok (put_field "routing" (obj (put_field "rules" (arr (items edited)) found.0)) config)
  compile _ operations = err config_not_an_object
