-- ===== src/RouteExecutor/Errors.antt =====
-- What the executor's functions raise.
use rill_xray_agent.Prelude.Result.{Result}

-- `ContractError`, by its message; `key_error` and `type_error` are Python's own.
pub data Raised : Type 0 where
  -- of `_safe_string`
  not_a_text absolute_path too_long unsafe_characters : Raised
  -- of `validate_apply_request`
  not_an_object schema_version oversized invalid_recommendation_id missing_timestamps expired :
      Raised
  invalid_generation invalid_epoch invalid_type invalid_fingerprint invalid_snapshot_digest : Raised
  invalid_digest invalid_apply_type invalid_mode invalid_stage invalid_release_snapshot : Raised
  no_operations too_many_operations digest_mismatch : Raised
  -- of `_validate_operation`
  operation_not_an_object unsupported_operation not_managed_scope params_not_an_object : Raised
  too_many_params unsafe_params invalid_managed_id invalid_index list_too_long : Raised
  invalid_selector_value : Raised
  -- of `RouteMutationCompiler`
  config_not_an_object no_routing rules_not_a_list too_many_rules index_out_of_range : Raised
  not_managed missing_managed_id unsupported_selector position_out_of_range : Raised
  identity_mismatch to_index_out_of_range : Raised
  key_error type_error : Raised

-- a value, or what was raised
abbrev pub Checked : Type 0 → Type 0
Checked A = Result Raised A
