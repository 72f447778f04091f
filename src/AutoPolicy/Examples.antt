-- ===== src/AutoPolicy/Examples.antt =====
-- The theorems on the automatic policy at concrete states.
use rill_xray_agent.Prelude.{
  ℕ, ◌≤◌, String, ◌≡◌, refl, ◌↔◌, ◌⊎◌, true, false, Option, none, some, List, [], ◌∷◌, length,
  arith,
}
use rill_xray_agent.Prelude.Int.{ℤ, pos}
use rill_xray_agent.Prelude.Dict.{get}
use rill_xray_agent.Prelude.Result.{ok}
use rill_xray_agent.PolicyFile.{PolicyFile, regular, absent, read_policy, writable_by_others}
use rill_xray_agent.AutoPolicy.State.{State, AutoPolicy, default_policy, fresh_default_state}
use rill_xray_agent.AutoPolicy.Load.{init, load, encode, persist}
use rill_xray_agent.AutoPolicy.Methods.{
  acknowledge_fuse, evaluate, record_apply, record_rollback, rolled_back_state, applied_state,
  is_processed, processed_set, add_outcome, last_time,
}
use rill_xray_agent.AutoPolicy.Eligible.{Eligible, allows, evaluate-Eligible_iff}
use rill_xray_agent.AutoPolicy.Restart.{Holds, IsShut, init-persist, init-fail_closed}
use rill_xray_agent.AutoPolicy.Replay.{record_apply-replay}
use rill_xray_agent.AutoPolicy.Fuse.{Event, step, applied, revoked, run, fuse_stays_open}
use rill_xray_agent.AutoPolicy.Window.{
  Attempt, fresh_policy, attempts, IsSpaced, attempts-keep_the_pace,
}

-- no text reads as an integer
abbrev no_int : String → Option ℤ
no_int _ = none

-- one rollback before the fuse blows
abbrev one_rollback : State
one_rollback = record fresh_default_state {
  last_auto_at_epoch_seconds = pos 1000;
  mutation_times = pos 1000 ∷ [];
  consecutive_rollbacks = pos 1;
}

abbrev policy : AutoPolicy
policy = record {
  config = default_policy;
  corrupt_reason = none;
  state = one_rollback;
  file = absent;
}

abbrev after_apply : AutoPolicy
after_apply = record policy {
  state = applied_state default_policy "rec-1" (some "outcome-1") 9000 one_rollback;
  file =
      regular 0o600
        (some (encode (applied_state default_policy "rec-1" (some "outcome-1") 9000 one_rollback)));
}

abbrev after_rollback : AutoPolicy
after_rollback = record policy {
  state = rolled_back_state default_policy (some "outcome-1") 9000 one_rollback;
  file =
      regular 0o600
        (some (encode (rolled_back_state default_policy (some "outcome-1") 9000 one_rollback)));
}

apply_made : record_apply policy "rec-1" (some "outcome-1") 9000 ≡ ok after_apply
unfolding record_apply persist is_processed processed_set get
apply_made = refl

rollback_made : record_rollback policy (some "outcome-1") 9000 ≡ ok after_rollback
unfolding record_rollback persist is_processed processed_set get
rollback_made = refl

not_applied :
    is_processed (some "outcome-1") (processed_set "applied" one_rollback.processed_outcomes)
    ≡ false
unfolding is_processed processed_set get
not_applied = refl

not_rolled_back :
    is_processed (some "outcome-1") (processed_set "rolledBack" one_rollback.processed_outcomes)
    ≡ false
unfolding is_processed processed_set get
not_rolled_back = refl

evaluate-Eligible_iff_example : (allows (evaluate no_int policy "rec-1" 9000) ≡ true) ↔ (
    (policy.corrupt_reason ≡ none)
    × ((last_rec : ℤ) × (last_time no_int (get "rec-1" policy.state.last_by_recommendation)
          ≡ some last_rec)
        × Eligible policy.config policy.state last_rec 9000))
evaluate-Eligible_iff_example = evaluate-Eligible_iff no_int policy "rec-1" 9000

init-persist_example : init policy.config (persist policy).file ≡ some (persist policy)
init-persist_example = init-persist policy refl

-- the file that others can write
abbrev open_file : PolicyFile
open_file = regular 0o622 (some (encode one_rollback))

abbrev corrupted : AutoPolicy
corrupted = record {
  config = default_policy;
  corrupt_reason = some writable_by_others;
  state = fresh_default_state;
  file = open_file;
}

init-open_file : init default_policy open_file ≡ some corrupted
unfolding init load read_policy
init-open_file = refl

init-fail_closed_example :
    ((corrupted.corrupt_reason ≡ none) × Holds open_file corrupted.state) ⊎ IsShut corrupted
init-fail_closed_example = init-fail_closed default_policy open_file corrupted init-open_file

record_apply-replay_example :
    (init after_apply.config after_apply.file ≡ some after_apply)
    × ((rid' : String) (now' : ℕ)
        → record_apply after_apply rid' (some "outcome-1") now' ≡ ok after_apply)
    × (processed_set "rolledBack" after_apply.state.processed_outcomes
        ≡ processed_set "rolledBack" policy.state.processed_outcomes)
record_apply-replay_example =
    record_apply-replay policy after_apply "rec-1" "outcome-1" 9000 refl not_applied apply_made

-- an apply by hand after the fuse blew, and an acknowledgment taken back
abbrev later_state : State
later_state = record (applied_state default_policy "rec-2" none 9500 after_rollback.state) {
  fuse_acknowledged = false;
}

abbrev later_policy : AutoPolicy
later_policy = record policy {
  state = later_state;
  file = regular 0o600 (some (encode later_state));
}

abbrev events : List Event
events = applied "rec-2" none 9500 ∷ revoked ∷ []

run-events : run no_int after_rollback events ≡ some later_policy
unfolding run step record_apply acknowledge_fuse persist is_processed processed_set get add_outcome
run-events = refl

fuse_stays_open_example : allows (evaluate no_int later_policy "rec-3" 20000) ≡ false
fuse_stays_open_example =
    fuse_stays_open no_int policy after_rollback later_policy (some "outcome-1") 9000 events "rec-3"
      20000 refl not_rolled_back (omega arith) rollback_made run-events

-- the second attempt is in the cooldown of the first
abbrev three_attempts : List Attempt
three_attempts =
    record { recommendation = "a"; outcome = none; now = 1000 }
    ∷ record { recommendation = "b"; outcome = none; now = 1100 }
    ∷ record { recommendation = "c"; outcome = none; now = 1300 }
    ∷ []

attempts-keep_the_pace_example :
    let s = (attempts no_int (fresh_policy default_policy) three_attempts).state in
    (length s.mutation_times ≤ default_policy.max_auto_mutations_per_hour)
    × IsSpaced default_policy.global_cooldown_seconds s.mutation_times
attempts-keep_the_pace_example =
    attempts-keep_the_pace default_policy no_int three_attempts
      (omega arith, (omega arith, (omega arith, tt)))
