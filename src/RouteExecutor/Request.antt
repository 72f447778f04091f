-- ===== src/RouteExecutor/Request.antt =====
-- `validate_apply_request`: an apply request, from its JSON object.
use rill_xray_agent.Prelude.{
  ℕ, String, Bool, true, false, not, ◌&&◌, ltb, leb, ◌==◌, none, some, List, [], ◌∷◌, str_eq,
  length, if◌then◌else◌,
}
use rill_xray_agent.Prelude.Int.{ℤ, pos}
use rill_xray_agent.Prelude.Result.{ok, err, guard, or_raise, ◌>>=◌, ◌>>◌}
use rill_xray_agent.Prelude.Text.{codes}
use rill_xray_agent.Json.{
  Json, num, str, arr, obj, Items, cons, Fields, elements, int_of, obj_of, bool_of,
}
use rill_xray_agent.Json.Edit.{value, remove_field}
use rill_xray_agent.RootPolicy.Methods.{contains}
use rill_xray_agent.RouteContract.Names.{max_operations, id_re, sha_re}
use rill_xray_agent.RouteExecutor.Errors.{
  Raised, Checked, not_an_object, schema_version, oversized, invalid_recommendation_id,
  missing_timestamps, expired, invalid_generation, invalid_epoch, invalid_type, invalid_fingerprint,
  invalid_snapshot_digest, invalid_digest, invalid_apply_type, invalid_mode, invalid_stage,
  invalid_release_snapshot, no_operations, too_many_operations, digest_mismatch,
}
use rill_xray_agent.RouteExecutor.Validate.{validate_operations}

pub data ApplyType : Type 0 where
  manual auto : ApplyType

-- What the executor reads of a request that has passed the checks.
pub record ApplyRequest : Type 0 where
  pub recommendation_id : String
  pub configuration_generation : ℕ
  pub execution_epoch : ℕ
  pub source_config_sha256 : String
  pub request_sha256 : String
  pub apply_type : ApplyType
  pub mode : String
  pub effective_stage : String
  pub operations : Items

-- `RECOMMENDATION_TYPES` of route_analyzer.py
abbrev recommendation_types : List String
recommendation_types =
    "managed-route-intent-restore" ∷ "managed-rule-shadowed" ∷ "unreachable-rule"
    ∷ "managed-rule-added" ∷ "stale-topology" ∷ "no-recommendation" ∷ []

-- 256 KiB
abbrev max_request_bytes : ℕ
max_request_bytes = 262144

-- a text that the pattern matches
abbrev matching : (List ℕ → Bool) → Json → Raised → Checked String
matching p (str s) e = if p (codes s) then ok s else err e
matching p _ e = err e

-- an integer that is neither a boolean nor negative
abbrev counter : Json → Raised → Checked ℕ
counter (num (pos n)) e = ok n
counter _ e = err e

abbrev one_of : List String → Json → Raised → Checked String
one_of texts (str s) e = if contains s texts then ok s else err e
one_of texts _ e = err e

abbrev is_version_two : Json → Bool
is_version_two (num (pos n)) = n == 2
is_version_two _ = false

-- `now > expires`
abbrev is_past : ℕ → ℤ → Bool
is_past now (pos n) = ltb n now
is_past now _ = true

abbrev apply_type_of : Json → Checked ApplyType
apply_type_of (str s) =
    if str_eq s "manual"
    then ok manual
    else if str_eq s "auto"
    then ok auto
    else err invalid_apply_type
apply_type_of _ = err invalid_apply_type

abbrev is_bool : Json → Bool
is_bool v = elim (bool_of v) [ some _ ↦ true | none ↦ false ]

-- one feature of `releaseSnapshot`
abbrev is_entry : Json → Bool
is_entry (obj fs) = is_bool (value "supported" fs) && is_bool (value "released" fs)
is_entry _ = false

abbrev is_snapshot : Json → Bool
is_snapshot (obj fs) = is_entry (value "routeAssist" fs) && is_entry (value "boundedAuto" fs)
is_snapshot _ = false

abbrev operations_of : Json → Checked Items
operations_of (arr (cons x xs)) = ok (cons x xs)
operations_of _ = err no_operations

-- `dumped` is the length of `json.dumps`, `digest` the canonical SHA-256 of an object.
module _ (dumped : Fields → ℕ) (digest : Fields → String) where
  -- the body without the field that holds its own digest
  unfoldable pub request_digest : Fields → String
  request_digest request = digest (remove_field "requestSha256" request)

  unfoldable pub validate_apply_request : ℕ → Json → Checked ApplyRequest
  validate_apply_request now v = do
    request ← or_raise (obj_of v) not_an_object
    guard (is_version_two (value "schemaVersion" request)) schema_version
    guard (leb (dumped request) max_request_bytes) oversized
    rid ← matching id_re (value "recommendationId" request) invalid_recommendation_id
    created ← or_raise (int_of (value "createdAtEpochSeconds" request)) missing_timestamps
    expires ← or_raise (int_of (value "expiresAtEpochSeconds" request)) missing_timestamps
    guard (not (is_past now expires)) expired
    generation ← counter (value "configurationGeneration" request) invalid_generation
    epoch ← counter (value "executionEpoch" request) invalid_epoch
    kind ← one_of recommendation_types (value "recommendationType" request) invalid_type
    fingerprint ← matching id_re (value "semanticFingerprint" request) invalid_fingerprint
    snapshot ← matching sha_re (value "policySnapshotDigest" request) invalid_snapshot_digest
    source ← matching sha_re (value "sourceConfigSha256" request) invalid_digest
    plan ← matching sha_re (value "planSha256" request) invalid_digest
    own ← matching sha_re (value "requestSha256" request) invalid_digest
    apply_type ← apply_type_of (value "applyType" request)
    mode ←
        one_of ("normal" ∷ "observe-only" ∷ "safe-disabled" ∷ []) (value "mode" request)
          invalid_mode
    stage ←
        one_of ("observe" ∷ "assist" ∷ "auto" ∷ "disabled" ∷ []) (value "effectiveStage" request)
          invalid_stage
    guard (is_snapshot (value "releaseSnapshot" request)) invalid_release_snapshot
    operations ← operations_of (value "operations" request)
    guard (leb (length (elements operations)) max_operations) too_many_operations
    validate_operations (elements operations)
    guard (str_eq (request_digest request) own) digest_mismatch
    ok (record {
      recommendation_id = rid;
      configuration_generation = generation;
      execution_epoch = epoch;
      source_config_sha256 = source;
      request_sha256 = own;
      apply_type = apply_type;
      mode = mode;
      effective_stage = stage;
      operations = operations;
    })
