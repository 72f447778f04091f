-- ===== src/AutoPolicy/Load.antt =====
-- `AutoPolicy.__init__` and `_load`, and the JSON that `_persist` writes.
use rill_xray_agent.Prelude.{Option, none, some, List, [], ◌∷◌}
use rill_xray_agent.Prelude.Int.{ℤ}
use rill_xray_agent.Prelude.Dict.{Dict}
use rill_xray_agent.Prelude.Result.{Result, ok, err, or_raise, ◌>>=◌}
use rill_xray_agent.PolicyFile.{
  PolicyFile, LoadError, regular, corrupt, key_error, missing_keys, wrong_type, bad_fuse_opened,
  bad_mutation_times, bad_processed_outcomes, read_policy,
}
use rill_xray_agent.Json.{
  Json, Items, Fields, null, bool, num, arr, obj, nil, cons, end, field, member, pairs, int_of,
  bool_of, arr_of, obj_of,
}
use rill_xray_agent.AutoPolicy.State.{Config, State, AutoPolicy, fresh_default_state}

abbrev pub Loaded {ℓ} : Type ℓ → Type ℓ
Loaded A = Result LoadError A

-- `int or null`
abbrev pub int_or_null : Json → Option (Option ℤ)
int_or_null null = some none
int_or_null j = elim (int_of j) [ none ↦ none | some z ↦ some (some z) ]

-- `all(isinstance(t, int) for t in data['mutationTimes'])`
unfoldable pub ints_of : Items → Loaded (List ℤ)
ints_of nil = ok []
ints_of (cons j js) = do
  z ← or_raise (int_of j) (corrupt bad_mutation_times)
  zs ← ints_of js
  ok (z ∷ zs)

-- an integer that is no boolean
abbrev pub epoch_of : Json → Option ℤ
epoch_of (num z) = some z
epoch_of _ = none

-- `{autoOutcomeId: epochSeconds}`
unfoldable pub outcomes_of : Fields → Loaded (Dict ℤ)
outcomes_of end = ok []
outcomes_of (field i t fs) = do
  z ← or_raise (epoch_of t) (corrupt bad_processed_outcomes)
  rest ← outcomes_of fs
  ok ((i, z) ∷ rest)

-- `{kind: {autoOutcomeId: epochSeconds}}`
unfoldable pub kinds_of : Fields → Loaded (Dict (Dict ℤ))
unfolding outcomes_of
kinds_of end = ok []
kinds_of (field kind v fs) = do
  inner ← or_raise (obj_of v) (corrupt bad_processed_outcomes)
  outcomes ← outcomes_of inner
  rest ← kinds_of fs
  ok ((kind, outcomes) ∷ rest)

-- A ledger from before the exactly-once set has no such key, or null.
abbrev pub no_outcomes : Dict (Dict ℤ)
no_outcomes = ("applied", []) ∷ ("rolledBack", []) ∷ []

abbrev pub processed_of : Option Json → Loaded (Dict (Dict ℤ))
processed_of none = ok no_outcomes
processed_of (some null) = ok no_outcomes
processed_of (some (obj fs)) = kinds_of fs
processed_of (some _) = err (corrupt bad_processed_outcomes)

-- The checks of `_load` on a JSON object, in their order.
unfoldable pub decode : Fields → Loaded State
unfolding ints_of kinds_of
decode fs = do
  last ← or_raise (member "lastAutoAtEpochSeconds" fs) (corrupt missing_keys)
  by ← or_raise (member "lastByRecommendation" fs) (corrupt missing_keys)
  times ← or_raise (member "mutationTimes" fs) (corrupt missing_keys)
  rollbacks ← or_raise (member "consecutiveRollbacks" fs) (corrupt missing_keys)
  open_ ← or_raise (member "fuseOpen" fs) (corrupt missing_keys)
  acknowledged ← or_raise (member "fuseAcknowledged" fs) (corrupt missing_keys)
  last_int ← or_raise (int_of last) (corrupt wrong_type)
  by_fields ← or_raise (obj_of by) (corrupt wrong_type)
  times_items ← or_raise (arr_of times) (corrupt wrong_type)
  rollbacks_int ← or_raise (int_of rollbacks) (corrupt wrong_type)
  open_bool ← or_raise (bool_of open_) (corrupt wrong_type)
  acknowledged_bool ← or_raise (bool_of acknowledged) (corrupt wrong_type)
  -- `data['fuseOpenedAtEpochSeconds']` is read without being a required key
  opened ← or_raise (member "fuseOpenedAtEpochSeconds" fs) key_error
  opened_int ← or_raise (int_or_null opened) (corrupt bad_fuse_opened)
  times_ints ← ints_of times_items
  processed ← processed_of (member "processedOutcomes" fs)
  ok (record {
    last_auto_at_epoch_seconds = last_int;
    last_by_recommendation = pairs by_fields;
    mutation_times = times_ints;
    consecutive_rollbacks = rollbacks_int;
    fuse_open = open_bool;
    fuse_opened_at_epoch_seconds = opened_int;
    fuse_acknowledged = acknowledged_bool;
    processed_outcomes = processed;
  })

abbrev decode_or_fresh : Option Fields → Loaded State
decode_or_fresh none = ok fresh_default_state
decode_or_fresh (some fs) = decode fs

unfoldable pub load : PolicyFile → Loaded State
unfolding read_policy
load file = read_policy file >>= decode_or_fresh

abbrev started : Config → PolicyFile → Loaded State → Option AutoPolicy
started config file (ok s) =
    some (record { config = config; corrupt_reason = none; state = s; file = file })
started config file (err (corrupt reason)) = some (record {
  config = config;
  corrupt_reason = some reason;
  state = fresh_default_state;
  file = file;
})
started config file (err key_error) = none

-- `AutoPolicy(path, config)`; `none` is the exception that the constructor lets through.
unfoldable pub init : Config → PolicyFile → Option AutoPolicy
unfolding load
init config file = started config file (load file)

abbrev pub to_items : List ℤ → Items
to_items [] = nil
to_items (z ∷ zs) = cons (num z) (to_items zs)

abbrev pub to_fields : Dict Json → Fields
to_fields [] = end
to_fields ((k, v) ∷ d) = field k v (to_fields d)

abbrev pub outcomes_fields : Dict ℤ → Fields
outcomes_fields [] = end
outcomes_fields ((k, z) ∷ d) = field k (num z) (outcomes_fields d)

abbrev pub kinds_fields : Dict (Dict ℤ) → Fields
kinds_fields [] = end
kinds_fields ((k, o) ∷ d) = field k (obj (outcomes_fields o)) (kinds_fields d)

abbrev pub int_json : Option ℤ → Json
int_json none = null
int_json (some z) = num z

-- The object that `atomic_write_json` writes, with its keys in `sort_keys` order.
unfoldable pub encode : State → Json
encode s = obj (
    field "consecutiveRollbacks" (num s.consecutive_rollbacks) (
      field "fuseAcknowledged" (bool s.fuse_acknowledged) (
        field "fuseOpen" (bool s.fuse_open) (
          field "fuseOpenedAtEpochSeconds" (int_json s.fuse_opened_at_epoch_seconds) (
            field "lastAutoAtEpochSeconds" (num s.last_auto_at_epoch_seconds) (
              field "lastByRecommendation" (obj (to_fields s.last_by_recommendation)) (
                field "mutationTimes" (arr (to_items s.mutation_times))
                  (field "processedOutcomes" (obj (kinds_fields s.processed_outcomes)) end))))))))

-- `_persist`
unfoldable pub persist : AutoPolicy → AutoPolicy
unfolding encode
persist p = record p { file = regular 0o600 (some (encode p.state)) }
