-- ===== src/RouteExecutor/Validate.antt =====
-- `_safe_string`, `_validate_operation` and `validate_apply_request`.
use rill_xray_agent.Prelude.{
  ℕ, String, Bool, true, false, not, ◌&&◌, ◌||◌, ◌==◌, leb, none, some, List, [], ◌∷◌, str_eq,
  length, all, if◌then◌else◌,
}
use rill_xray_agent.Prelude.Dict.{get}
use rill_xray_agent.Prelude.Int.{pos}
use rill_xray_agent.Prelude.Result.{ok, err, guard, or_raise, ◌>>=◌, ◌>>◌}
use rill_xray_agent.Prelude.Text.{codes}
use rill_xray_agent.Json.{
  Json, bool, num, str, arr, obj, Items, nil, cons, Fields, end, field, elements, obj_of,
}
use rill_xray_agent.Json.Edit.{value, size}
use rill_xray_agent.RootPolicy.Methods.{contains}
use rill_xray_agent.RouteContract.Names.{
  allowed_ops, op_param_keys, index_keys, max_params, is_safe_char, managed_rule_id_valid,
}
use rill_xray_agent.RouteExecutor.Errors.{
  Checked, not_a_text, absolute_path, too_long, unsafe_characters, operation_not_an_object,
  unsupported_operation, not_managed_scope, params_not_an_object, too_many_params, unsafe_params,
  invalid_managed_id, invalid_index, list_too_long, invalid_selector_value, type_error,
}

abbrev begins_with_slash : List ℕ → Bool
begins_with_slash [] = false
begins_with_slash (c ∷ _) = c == b'/'

unfoldable pub safe_string : Json → Checked (Unit {0})
safe_string (str s) = do
  guard (not (str_eq s "")) not_a_text
  guard (not (begins_with_slash (codes s))) absolute_path
  guard (leb (length (codes s)) 4096) too_long
  guard (all is_safe_char (codes s)) unsafe_characters
safe_string _ = err not_a_text

unfoldable pub safe_strings : Items → Checked (Unit {0})
safe_strings nil = ok tt
safe_strings (cons x xs) = safe_string x >> safe_strings xs

-- an integer that is neither a boolean nor negative
unfoldable pub is_index : Json → Bool
is_index (num (pos _)) = true
is_index _ = false

unfoldable pub check_selector : Json → Checked (Unit {0})
check_selector (str s) = safe_string (str s)
check_selector (arr (cons x xs)) = do
  guard (leb (length (elements (cons x xs))) 64) list_too_long
  safe_strings (cons x xs)
check_selector _ = err invalid_selector_value

unfoldable pub check_param : String → Json → Checked (Unit {0})
check_param key v =
    if contains key index_keys
    then guard (is_index v) invalid_index
    else if str_eq key "selectorValue"
    then check_selector v
    else safe_string v

-- `for key, value in params.items()`
unfoldable pub check_params : Fields → Checked (Unit {0})
check_params end = ok tt
check_params (field key v fs) = check_param key v >> check_params fs

unfoldable pub known_keys : List String → Fields → Bool
known_keys known end = true
known_keys known (field key _ fs) = contains key known && known_keys known fs

-- `op.get('op') in ALLOWED_OPS`: a list or an object cannot be looked up in a set.
unfoldable pub operation_name : Json → Checked String
operation_name (str name) = if contains name allowed_ops then ok name else err unsupported_operation
operation_name (arr _) = err type_error
operation_name (obj _) = err type_error
operation_name _ = err unsupported_operation

abbrev is_true : Json → Bool
is_true (bool b) = b
is_true _ = false

unfoldable pub binds_identity : String → Bool
binds_identity name = str_eq name "routingRule.insert" || str_eq name "routingRule.replaceManaged"

unfoldable pub keys_of : String → List String
keys_of name = elim (get name op_param_keys) [ some keys ↦ keys | none ↦ [] ]

unfoldable pub validate_params : String → Fields → Checked (Unit {0})
validate_params name params = do
  guard (leb (size params) max_params) too_many_params
  guard (known_keys (keys_of name) params) unsafe_params
  guard (not (binds_identity name) || managed_rule_id_valid (value "managedRuleId" params))
      invalid_managed_id
  check_params params

unfoldable pub validate_operation : Json → Checked (Unit {0})
validate_operation (obj op) = do
  name ← operation_name (value "op" op)
  guard (is_true (value "managedScope" op)) not_managed_scope
  params ← or_raise (obj_of (value "params" op)) params_not_an_object
  validate_params name params
validate_operation _ = err operation_not_an_object

unfoldable pub validate_operations : List Json → Checked (Unit {0})
validate_operations [] = ok tt
validate_operations (op ∷ ops) = validate_operation op >> validate_operations ops
