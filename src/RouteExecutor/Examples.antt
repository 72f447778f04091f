-- ===== src/RouteExecutor/Examples.antt =====
-- The theorems on the executor at concrete configurations, and tests.
use rill_xray_agent.Prelude.{
  ℕ, zero, suc, List, [], ◌∷◌, ◌+◌, ◌≤◌, String, ◌≡◌, refl, ◌↔◌, true, Option, none, some, All, map,
  keep, take, length,
}
use rill_xray_agent.Prelude.Int.{ℤ, pos}
use rill_xray_agent.Prelude.Result.{ok, err}
use rill_xray_agent.Json.{
  Json, bool, num, str, arr, obj, Items, nil, cons, Fields, end, field, elements,
}
use rill_xray_agent.Json.Edit.{value, put_field, remove_field}
use rill_xray_agent.RouteContract.Names.{max_rules, id_re, managed_rule_id_valid, managed_tag}
use rill_xray_agent.RouteContract.Risk.{overall_risk, op_risk}
use rill_xray_agent.RouteExecutor.Validate.{validate_operations, validate_operation}
use rill_xray_agent.RouteExecutor.Errors.{too_many_rules}
use rill_xray_agent.RouteExecutor.Validate as Validate
use rill_xray_agent.RouteContract.Risk as Risk
use rill_xray_agent.RouteContract.Aggregate.{overall_risk-low_iff}
use rill_xray_agent.RouteExecutor.Compile as Compile
use rill_xray_agent.RouteExecutor.Compile.{compile}
use rill_xray_agent.AutoPolicy.State.{default_policy, fresh_default_state}
use rill_xray_agent.AutoPolicy.Methods as Auto
use rill_xray_agent.RootPolicy.State.{RootExecutionPolicy, normal, auto, integrity_valid}
use rill_xray_agent.RootPolicy.Methods.{evaluate, blocked_by, auto_ops_allowlisted, all_allowlisted}
use rill_xray_agent.RootPolicy.Eligible.{allows}
use rill_xray_agent.PolicyFile.{absent}
use rill_xray_agent.Prelude.Dict.{get}
use rill_xray_agent.RouteExecutor.Places.{compile-auto_places}
use rill_xray_agent.RouteExecutor.Reads.{pinned}
use rill_xray_agent.RouteExecutor.Bounds.{compile-length}
use rill_xray_agent.RouteExecutor.Flooded.{compile-floods}
use rill_xray_agent.RouteExecutor.UserRules.{is_user}
use rill_xray_agent.RouteExecutor.Config.{rule_list, routing_of, compile-user_rules}

-- a digest that is the same for every text
abbrev sha : String → String
sha _ = "0123456789abcdef"

abbrev user_rule : Json
user_rule = obj (
    field "type" (str "field")
      (field "ip" (str "10.0.0.1") (field "outboundTag" (str "direct") end)))

abbrev own_rule : Json
own_rule = obj (
    field "tag" (str "rill-managed-0123456789ab")
      (field "type" (str "field") (field "domain" (str "a.example") end)))

abbrev pub config : Fields
config =
    field "log" (str "none")
      (field "routing" (obj (field "rules" (arr (cons user_rule (cons own_rule nil))) end)) end)

abbrev params : Fields → Fields
params at =
    field "managedRuleId" (str "r1")
      (field "selectorType" (str "domain") (field "selectorValue" (str "b.example") at))

abbrev insert_op : Json
insert_op = obj (
    field "op" (str "routingRule.insert") (
      field "managedScope" (bool true)
        (field "params" (obj (params (field "position" (num (pos 2)) end))) end)))

abbrev replace_op : Json
replace_op = obj (
    field "op" (str "routingRule.replaceManaged") (
      field "managedScope" (bool true)
        (field "params" (obj (params (field "ruleIndex" (num (pos 1)) end))) end)))

abbrev new_rule : Json
new_rule = obj (
    field "tag" (str "rill-managed-0123456789ab")
      (field "type" (str "field") (field "domain" (str "b.example") end)))

abbrev out : Fields
out = field "log" (str "none") (
    field "routing"
      (obj (field "rules" (arr (cons user_rule (cons new_rule (cons new_rule nil)))) end)) end)

abbrev pub ops : Items
ops = cons insert_op (cons replace_op nil)

operations_valid : validate_operations (elements ops) ≡ ok tt
unfolding validate_operations validate_operation Validate.operation_name Validate.validate_params
    Validate.known_keys Validate.keys_of Validate.binds_identity managed_rule_id_valid id_re
    Validate.check_params Validate.check_param Validate.safe_string Validate.check_selector
    Validate.is_index value get
operations_valid = refl

compiled : compile sha (obj config) (elements ops) ≡ ok out
unfolding compile validate_operations validate_operation Validate.operation_name
    Validate.validate_params Validate.known_keys Validate.keys_of Validate.binds_identity
    managed_rule_id_valid id_re Validate.check_params Validate.check_param Validate.safe_string
    Validate.check_selector Validate.is_index value get put_field remove_field managed_tag
    Risk.index_of Compile.has_prefix Compile.insert_place Compile.is_managed Compile.is_selector
    Compile.managed_index Compile.managed_rule Compile.new_rule Compile.new_tag Compile.place_of
    Compile.replaced_rule Compile.required Compile.rules_of Compile.run_insert Compile.run_operation
    Compile.run_operations Compile.run_replace Compile.same_identity Compile.selector_of
    Compile.set_outbound Compile.step
compiled = refl

compile-user_rules_example :
    (keep is_user (rule_list out) ≡ keep is_user (rule_list config))
    × (remove_field "rules" (routing_of out) ≡ remove_field "rules" (routing_of config))
    × (remove_field "routing" out ≡ remove_field "routing" config)
compile-user_rules_example = compile-user_rules sha config (elements ops) out compiled

overall_risk-low_iff_example :
    (overall_risk (elements ops) (rule_list config) ≡ "low")
    ↔ All (λ op. op_risk op (rule_list config) ≡ "low") (elements ops)
overall_risk-low_iff_example = overall_risk-low_iff (elements ops) (rule_list config)

compile-length_example :
    (length (rule_list out) ≤ length (rule_list config) + 2)
    × (length (rule_list config) ≤ length (rule_list out) + 2)
    × (length (rule_list config) ≤ max_rules)
compile-length_example = compile-length sha config (elements ops) out compiled

-- the policy of an operator who lets automatic applies through
abbrev pub root : RootExecutionPolicy
root = record {
  policy = record {
    execution_epoch = 7;
    auto_confirmed = true;
    auto_confirmed_at_epoch_seconds = some (pos 500);
    mode = normal;
    route_stage = auto;
  };
  policy_corrupt = none;
  policy_file = absent;
  auto = record {
    config = default_policy;
    corrupt_reason = none;
    state = fresh_default_state;
    file = absent;
  };
}

abbrev pub no_int : String → Option ℤ
no_int _ = none

allowed :
    allows (
      evaluate no_int root "rec-1"
        (pos 7)
        (overall_risk (elements ops) (rule_list config))
        (arr ops)
        9000)
    ≡ true
unfolding evaluate integrity_valid Auto.evaluate Auto.last_time get blocked_by Auto.blocked_by
    Auto.in_cooldown Auto.last_hour auto_ops_allowlisted all_allowlisted overall_risk op_risk
    Risk.typed_risk Risk.index_of Risk.params_of Risk.live_type Risk.rule_at Risk.rule_selector_type
    Risk.is_same_type Risk.max_by_rank Risk.risk_rank rule_list routing_of value
allowed = refl

compile-auto_places_example : map pinned (take 2 (rule_list out)) ≡ map pinned (rule_list config)
unfolding rule_list routing_of value
compile-auto_places_example =
    compile-auto_places sha no_int root "rec-1" (pos 7) 9000 config ops out allowed compiled

abbrev repeat : ℕ → Items → Items
repeat zero xs = xs
repeat (suc n) xs = cons user_rule (repeat n xs)

-- as many rules as the compiler takes
abbrev full : Fields
full = field "routing" (obj (field "rules" (arr (repeat 512 nil)) end)) end

full-length : length (rule_list full) ≡ max_rules
unfolding rule_list routing_of value
full-length = refl

abbrev insert_fields : Fields
insert_fields = field "op" (str "routingRule.insert") (
    field "managedScope" (bool true)
      (field "params" (obj (params (field "position" (num (pos 512)) end))) end))

abbrev over_full : Fields
over_full = field "routing" (obj (field "rules" (arr (repeat 512 (cons new_rule nil))) end)) end

insert_compiled : compile sha (obj full) (obj insert_fields ∷ []) ≡ ok over_full
unfolding compile validate_operations validate_operation Validate.operation_name
    Validate.validate_params Validate.known_keys Validate.keys_of Validate.binds_identity
    managed_rule_id_valid id_re Validate.check_params Validate.check_param Validate.safe_string
    Validate.check_selector Validate.is_index value get put_field remove_field managed_tag
    Risk.index_of Compile.insert_place Compile.is_selector Compile.new_rule Compile.new_tag
    Compile.place_of Compile.rules_of Compile.run_insert Compile.run_operation
    Compile.run_operations Compile.selector_of Compile.set_outbound Compile.step
insert_compiled = refl

is_insert : value "op" insert_fields ≡ str "routingRule.insert"
unfolding value
is_insert = refl

compile-floods_example :
    (length (rule_list over_full) ≡ 513)
    × ((ops : List Json)
        → validate_operations ops ≡ ok tt
        → compile sha (obj over_full) ops ≡ err too_many_rules)
compile-floods_example =
    compile-floods sha full insert_fields over_full full-length is_insert insert_compiled
