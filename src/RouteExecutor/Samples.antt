-- ===== src/RouteExecutor/Samples.antt =====
-- A host on which an automatic request is authorized.
use rill_xray_agent.Prelude.{
  ℕ, String, ◌≡◌, refl, true, false, Option, none, some, List, [], str_eq, if◌then◌else◌,
}
use rill_xray_agent.Prelude.Dict.{get}
use rill_xray_agent.Prelude.Result.{ok}
use rill_xray_agent.Json.{Json, obj}
use rill_xray_agent.Json.Edit.{value}
use rill_xray_agent.ReleaseCapabilities.{is_supported, is_released, entry}
use rill_xray_agent.AutoPolicy.Methods as Auto
use rill_xray_agent.RootPolicy.State.{integrity_valid}
use rill_xray_agent.RootPolicy.Methods.{evaluate, blocked_by, auto_ops_allowlisted, all_allowlisted}
use rill_xray_agent.RootTxn.World.{World, WorkDir, empty_dir, Env, Request, committed}
use rill_xray_agent.RootTxn.Safe.{commit_bundle}
use rill_xray_agent.RootTxn.Scan.{report_of}
use rill_xray_agent.RouteContract.Risk as Risk
use rill_xray_agent.RouteContract.Risk.{overall_risk, op_risk}
use rill_xray_agent.RouteExecutor.Request.{ApplyRequest, auto}
use rill_xray_agent.RouteExecutor.Gates.{
  Block, Transactions, release_gate, request_gate, root_state_gate, root_gate, current_rules,
}
use rill_xray_agent.RouteExecutor.Authorize.{Host, global_recovery_gate, binding_gate, authorize}
use rill_xray_agent.RouteExecutor.Authorized.{
  Authorized, AuthorizedAuto, authorize-Authorized, authorize-auto,
}
use rill_xray_agent.RouteExecutor.Directory.{one_directory}
use rill_xray_agent.RouteExecutor.Examples.{root, no_int, config, ops}

abbrev env : Env
env = record {
  digest = λ _. "digest";
  sha256 = λ s. s;
  valid_id = λ _. true;
  now = 9000;
  faults = λ _. false;
  torn = λ _. "";
}

abbrev past_request : Request
past_request = record {
  recommendation_id = "rec-0";
  configuration_generation = 3;
  request_sha256 = "request";
  apply_type = some "manual";
}

-- a transaction that is committed
abbrev done : WorkDir
done = record empty_dir {
  request = some past_request;
  state = some (record { state = committed; commit_sha256 = some "digest" });
  bundle = some (commit_bundle env 3 past_request);
  result = some (commit_bundle env 3 past_request).base.result;
  receipt = some (commit_bundle env 3 past_request).base.receipt;
}

abbrev files : World ℕ
files = record {
  managed = some "config";
  generation = some 4;
  work = done;
  delivery = none;
  host = 0;
  life = 8;
}

abbrev host : Host (World ℕ)
host = record {
  txn = files;
  root = root;
  release = record {
    on_route_assist = record { supported = true; released = true };
    on_bounded_auto = record { supported = true; released = true };
  };
}

abbrev request : ApplyRequest
request = record {
  recommendation_id = "rec-1";
  configuration_generation = 4;
  execution_epoch = 7;
  source_config_sha256 = "config";
  request_sha256 = "request";
  apply_type = auto;
  mode = "normal";
  effective_stage = "auto";
  operations = ops;
}

abbrev loads : String → Option Json
loads text = if str_eq text "config" then some (obj config) else none

abbrev transactions : Transactions (World ℕ)
transactions = one_directory env none

abbrev proof : Host (World ℕ) → ApplyRequest → Option (List Block)
proof _ _ = some []

-- The ledger is not read from its file again, so the host is the same after the gates.
started : authorize transactions env 9000 no_int loads (λ s. s) proof request host ≡ ok host
unfolding authorize binding_gate global_recovery_gate root_gate root_state_gate request_gate
    release_gate current_rules one_directory report_of is_supported is_released entry evaluate
    integrity_valid Auto.evaluate Auto.last_time get blocked_by Auto.blocked_by Auto.in_cooldown
    Auto.last_hour auto_ops_allowlisted all_allowlisted overall_risk op_risk Risk.typed_risk
    Risk.index_of Risk.params_of Risk.live_type Risk.rule_at Risk.rule_selector_type
    Risk.is_same_type Risk.max_by_rank Risk.risk_rank value
started = refl

authorize-Authorized_example : Authorized transactions (λ s. s) request host host
authorize-Authorized_example =
    authorize-Authorized transactions env 9000 no_int loads (λ s. s) proof request host host started

authorize-auto_example : AuthorizedAuto transactions no_int loads 9000 request host
authorize-auto_example =
    authorize-auto transactions env 9000 no_int loads (λ s. s) proof request host host started refl
