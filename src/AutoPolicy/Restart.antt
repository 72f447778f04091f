-- ===== src/AutoPolicy/Restart.antt =====
-- What a restart reads back is what `_persist` wrote, and what it makes of a file that fails a check.
use rill_xray_agent.Prelude.{
  String, ◌≡◌, ◌≢◌, refl, ap, Bool, false, Option, none, some, List, [], ◌∷◌, arith, ℕ, ◌==◌, ◌⊎◌,
  inl, inr, Bool-cases, Option-cases,
}
use rill_xray_agent.Prelude.Int.{ℤ}
use rill_xray_agent.Prelude.Dict.{Dict}
use rill_xray_agent.Prelude.Result.{ok, err}
use rill_xray_agent.PolicyFile.{PolicyFile, absent, regular}
use rill_xray_agent.Json.{Json, obj, pairs}
use rill_xray_agent.Reason.{policy_corrupt}
use rill_xray_agent.AutoPolicy.Methods.{
  integrity_error, evaluate, record_apply, record_rollback, acknowledge_fuse,
}
use Prim.Native.Nat.{bit_and}
use rill_xray_agent.AutoPolicy.State.{Config, State, AutoPolicy, fresh_default_state}
use rill_xray_agent.AutoPolicy.Load.{
  ints_of, outcomes_of, kinds_of, decode, load, init, to_items, to_fields, outcomes_fields,
  kinds_fields, int_json, int_or_null, encode, persist,
}

ints_of-to_items : (zs : List ℤ) → ints_of (to_items zs) ≡ ok zs
unfolding ints_of
ints_of-to_items [] = refl
ints_of-to_items (z ∷ zs) = rw (ints_of-to_items zs)

pairs-to_fields : (d : Dict Json) → pairs (to_fields d) ≡ d
pairs-to_fields [] = refl
pairs-to_fields ((k, v) ∷ d) = ap (λ e. (k, v) ∷ e) (pairs-to_fields d)

outcomes_of-fields : (d : Dict ℤ) → outcomes_of (outcomes_fields d) ≡ ok d
unfolding outcomes_of
outcomes_of-fields [] = refl
outcomes_of-fields ((k, z) ∷ d) = rw (outcomes_of-fields d)

kinds_of-fields : (d : Dict (Dict ℤ)) → kinds_of (kinds_fields d) ≡ ok d
unfolding kinds_of
kinds_of-fields [] = refl
kinds_of-fields ((k, o) ∷ d) = rw (outcomes_of-fields o, kinds_of-fields d)

pub int_or_null-int_json : (o : Option ℤ) → int_or_null (int_json o) ≡ some o
int_or_null-int_json none = refl
int_or_null-int_json (some z) = refl

pub load-persisted : (s : State) → load (regular 0o600 (some (encode s))) ≡ ok s
unfolding load decode encode
load-persisted s = rw (
  int_or_null-int_json s.fuse_opened_at_epoch_seconds,
  ints_of-to_items s.mutation_times,
  kinds_of-fields s.processed_outcomes,
  pairs-to_fields s.last_by_recommendation,
)

-- A restart of an intact policy from the file that it has just persisted gives the same object: the
-- fuse, the counter, the times and the recorded outcomes survive it.
pub init-persist :
    (p : AutoPolicy) → p.corrupt_reason ≡ none → init p.config (persist p).file ≡ some (persist p)
unfolding init persist
init-persist p intact = rw (load-persisted p.state, intact)

-- the file passes every check, and holds this state
abbrev pub Holds : PolicyFile → State → Type 0
Holds absent s = s ≡ fresh_default_state
Holds (regular mode (some (obj fs))) s = (bit_and mode 0o022 ≡ 0) × (decode fs ≡ ok s)
Holds _ s = ⊥

intact-Holds :
    (c : Config) (file : PolicyFile) (p : AutoPolicy)
    → init c file ≡ some p
    → p.corrupt_reason ≡ none
    → Holds file p.state
unfolding init load
intact-Holds c absent p h intact = ground arith
intact-Holds c (regular mode (some (obj fs))) p h intact =
    elim (Bool-cases (bit_and mode 0o022 == 0)) [
      | inl e ↦ (ground arith, ground arith)
      | inr e ↦ ground arith
    ]
intact-Holds c file p h intact = ground arith

-- a policy that lets nothing through and that no method changes
pub record IsShut (p : AutoPolicy) : Type 0 where
  pub fresh : p.state ≡ fresh_default_state
  pub blocks :
      (parse_int : String → Option ℤ) (rid : String) (now : ℕ)
      → evaluate parse_int p rid now ≡ some ((false, policy_corrupt ∷ []), p)
  pub no_apply :
      (rid : String) (id : Option String) (now : ℕ)
      → record_apply p rid id now ≡ err integrity_error
  pub no_rollback : (id : Option String) (now : ℕ) → record_rollback p id now ≡ err integrity_error
  pub no_acknowledgement : (b : Bool) → acknowledge_fuse p b ≡ err integrity_error

corrupt-fresh :
    (c : Config) (file : PolicyFile) (p : AutoPolicy)
    → init c file ≡ some p
    → p.corrupt_reason ≢ none
    → p.state ≡ fresh_default_state
unfolding init
corrupt-fresh c file p h corrupted = ground arith

-- Whatever stands at the path, an object that the constructor makes of it is either intact, and then
-- the file is absent and the state fresh, or is one that others cannot write and whose JSON passes
-- every check with this state; or it is marked corrupt, and then its state is the fresh one,
-- `evaluate` blocks with `policy_corrupt` alone and each mutating method raises.
pub init-fail_closed :
    (c : Config) (file : PolicyFile) (p : AutoPolicy)
    → init c file ≡ some p
    → ((p.corrupt_reason ≡ none) × Holds file p.state) ⊎ IsShut p
unfolding evaluate record_apply record_rollback acknowledge_fuse
init-fail_closed c file p h = elim (Option-cases p.corrupt_reason) [
  | inl intact ↦ inl (intact, intact-Holds c file p h intact)
  | inr (reason, e) ↦ inr (record {
    fresh = corrupt-fresh c file p h (λ n. ground arith);
    blocks = λ parse_int rid now. rw e;
    no_apply = λ rid id now. rw e;
    no_rollback = λ id now. rw e;
    no_acknowledgement = λ b. rw e;
  })
]
