-- ===== src/AutoPolicy/Methods.antt =====
-- The methods of `AutoPolicy`. `now` is what `_clock` reads.
use rill_xray_agent.Prelude.{
  ℕ, ◌+◌, ◌-◌, String, Bool, true, false, not, ◌&&◌, Option, none, some, List, [], ◌∷◌, ◌++◌,
  length, keep, leb, if◌then◌else◌,
}
use rill_xray_agent.Prelude.Int.{ℤ, pos, pos_part, neg_part, increment, is_zero, at_least, within}
use rill_xray_agent.Prelude.Dict.{Dict, get, put}
use rill_xray_agent.Prelude.Result.{Result, ok, err}
use rill_xray_agent.PolicyFile.{Corruption}
use rill_xray_agent.Json.{Json, null, bool, num, real, str, arr, obj, nil, end}
use rill_xray_agent.AutoPolicy.State.{Config, State, AutoPolicy, integrity_valid}
use rill_xray_agent.AutoPolicy.Load.{persist}
use rill_xray_agent.Reason.{
  Reason, policy_corrupt, fusible_closed, same_recommendation_cooldown, auto_global_cooldown,
  auto_rate_limited, when,
}

-- `[t for t in times if now - t < 3600]`
unfoldable pub last_hour : ℕ → List ℤ → List ℤ
last_hour now = keep (λ t. within now t 3600)

-- `int(d.get(rid, 0) or 0)`: `none` is the exception of `int()`. `parse_int` is `int` of a text.
unfoldable pub last_time : (String → Option ℤ) → Option Json → Option ℤ
last_time parse_int none = some (pos 0)
last_time parse_int (some null) = some (pos 0)
last_time parse_int (some (bool true)) = some (pos 1)
last_time parse_int (some (bool false)) = some (pos 0)
last_time parse_int (some (num z)) = some z
last_time parse_int (some (real z)) = z
last_time parse_int (some (str String.[])) = some (pos 0)
last_time parse_int (some (str s)) = parse_int s
last_time parse_int (some (arr nil)) = some (pos 0)
last_time parse_int (some (arr _)) = none
last_time parse_int (some (obj end)) = some (pos 0)
last_time parse_int (some (obj _)) = none

-- `last != 0 and now - last < seconds`
unfoldable pub in_cooldown : ℕ → ℤ → ℕ → Bool
in_cooldown now last seconds = not (is_zero last) && within now last seconds

-- the reasons of `evaluate`, once the time of the last apply of this recommendation is read
unfoldable pub blocked_by : Config → State → ℤ → ℕ → List Reason
blocked_by c s last_rec now = when (s.fuse_open && not s.fuse_acknowledged) fusible_closed (
    when (in_cooldown now last_rec c.same_recommendation_cooldown_seconds)
      same_recommendation_cooldown
      (when (in_cooldown now s.last_auto_at_epoch_seconds c.global_cooldown_seconds)
        auto_global_cooldown
        (when (leb c.max_auto_mutations_per_hour (length (last_hour now s.mutation_times)))
          auto_rate_limited
          (when (at_least s.consecutive_rollbacks c.consecutive_rollback_fuse_limit) fusible_closed
            []))))

abbrev pub is_empty {ℓ} : {A : Type ℓ} → List A → Bool
is_empty [] = true
is_empty (_ ∷ _) = false

-- `(not blocked, blocked)`
abbrev pub Decision : Type 0
Decision = Bool × List Reason

abbrev pub decide_by : List Reason → Decision
decide_by blocked = (is_empty blocked, blocked)

-- `evaluate`: the decision, and the object, whose list of times it has pruned; `none` where `int()`
-- raises.
unfoldable pub evaluate :
    (String → Option ℤ) → AutoPolicy → String → ℕ → Option (Decision × AutoPolicy)
evaluate parse_int p rid now =
    if integrity_valid p
    then elim (last_time parse_int (get rid p.state.last_by_recommendation)) [
      | none ↦ none
      | some last_rec ↦ some (
        decide_by (blocked_by p.config p.state last_rec now),
        record p {
          state = record p.state { mutation_times = last_hour now p.state.mutation_times };
        },
      )
    ]
    else some ((false, policy_corrupt ∷ []), p)

-- `AutoPolicyIntegrityError`
pub data IntegrityError : Type 0 where
  integrity_error : IntegrityError

abbrev pub Outcome : Type 0
Outcome = Result IntegrityError AutoPolicy

-- `self._state['processedOutcomes'].setdefault(kind, {})`
unfoldable pub processed_set : String → Dict (Dict ℤ) → Dict ℤ
processed_set kind d = elim (get kind d) [ none ↦ [] | some o ↦ o ]

-- the outcome id was given, and is in the set
unfoldable pub is_processed : Option String → Dict ℤ → Bool
is_processed none d = false
is_processed (some id) d = elim (get id d) [ none ↦ false | some _ ↦ true ]

-- the set with the outcome id, if one was given
unfoldable pub add_outcome : Option String → ℕ → Dict ℤ → Dict ℤ
add_outcome none now d = d
add_outcome (some id) now d = put id (pos now) d

-- the state with `setdefault` done, the only change that a replay makes
abbrev pub with_set : String → State → State
with_set kind s = record s {
  processed_outcomes = put kind (processed_set kind s.processed_outcomes) s.processed_outcomes;
}

abbrev pub applied_state : Config → String → Option String → ℕ → State → State
applied_state c rid id now s = record s {
  last_auto_at_epoch_seconds = pos now;
  last_by_recommendation = put rid (num (pos now)) s.last_by_recommendation;
  mutation_times = last_hour now s.mutation_times ++ pos now ∷ [];
  consecutive_rollbacks = if s.fuse_open then s.consecutive_rollbacks else pos 0;
  processed_outcomes =
      put "applied" (add_outcome id now (processed_set "applied" s.processed_outcomes))
        s.processed_outcomes;
}

-- `record_apply`
unfoldable pub record_apply : AutoPolicy → String → Option String → ℕ → Outcome
record_apply p rid id now =
    if integrity_valid p
    then (if is_processed id (processed_set "applied" p.state.processed_outcomes)
        then ok (record p { state = with_set "applied" p.state })
        else ok (persist (record p { state = applied_state p.config rid id now p.state })))
    else err integrity_error

-- the fuse, once the counter has its new value
abbrev pub blow : Config → ℕ → State → State
blow c now s =
    if at_least s.consecutive_rollbacks c.consecutive_rollback_fuse_limit
    then record s {
      fuse_open = true;
      fuse_opened_at_epoch_seconds = some (pos now);
      fuse_acknowledged = false;
    }
    else s

abbrev pub rolled_back_state : Config → Option String → ℕ → State → State
rolled_back_state c id now s = blow c now (record s {
  consecutive_rollbacks = increment s.consecutive_rollbacks;
  processed_outcomes =
      put "rolledBack" (add_outcome id now (processed_set "rolledBack" s.processed_outcomes))
        s.processed_outcomes;
})

-- `record_rollback`
unfoldable pub record_rollback : AutoPolicy → Option String → ℕ → Outcome
record_rollback p id now =
    if integrity_valid p
    then (if is_processed id (processed_set "rolledBack" p.state.processed_outcomes)
        then ok (record p { state = with_set "rolledBack" p.state })
        else ok (persist (record p { state = rolled_back_state p.config id now p.state })))
    else err integrity_error

abbrev pub acknowledged_state : Bool → State → State
acknowledged_state true s =
    if s.fuse_open then record s { fuse_acknowledged = true; consecutive_rollbacks = pos 0 } else s
acknowledged_state false s = record s { fuse_acknowledged = false }

-- `acknowledge_fuse`
unfoldable pub acknowledge_fuse : AutoPolicy → Bool → Outcome
acknowledge_fuse p acknowledged =
    if integrity_valid p
    then ok (persist (record p { state = acknowledged_state acknowledged p.state }))
    else err integrity_error

-- `max(0, seconds - (now - last))`, 0 where nothing was ever applied
unfoldable pub cooldown_remaining : ℕ → ℤ → ℕ → ℕ
cooldown_remaining now last seconds =
    if is_zero last then 0 else (seconds + pos_part last) - (now + neg_part last)

-- `snapshot`; the fields that repeat the settings and the state are read off those
pub record Snapshot : Type 0 where
  pub can_auto_apply : Bool
  pub corrupt_reason : Option Corruption
  pub fuse_open : Bool
  pub fuse_acknowledged : Bool
  pub fuse_opened_at_epoch_seconds : Option ℤ
  pub consecutive_rollbacks : ℤ
  pub consecutive_rollback_fuse_limit : ℕ
  pub auto_mutations_last_hour : ℕ
  pub max_auto_mutations_per_hour : ℕ
  pub global_cooldown_remaining_seconds : ℕ
  pub last_auto_at_epoch_seconds : ℤ

unfoldable pub snapshot : AutoPolicy → ℕ → Snapshot
unfolding last_hour cooldown_remaining
snapshot p now = record {
  can_auto_apply = integrity_valid p;
  corrupt_reason = p.corrupt_reason;
  fuse_open = p.state.fuse_open;
  fuse_acknowledged = p.state.fuse_acknowledged;
  fuse_opened_at_epoch_seconds = p.state.fuse_opened_at_epoch_seconds;
  consecutive_rollbacks = p.state.consecutive_rollbacks;
  consecutive_rollback_fuse_limit = p.config.consecutive_rollback_fuse_limit;
  auto_mutations_last_hour = length (last_hour now p.state.mutation_times);
  max_auto_mutations_per_hour = p.config.max_auto_mutations_per_hour;
  global_cooldown_remaining_seconds =
      cooldown_remaining now p.state.last_auto_at_epoch_seconds p.config.global_cooldown_seconds;
  last_auto_at_epoch_seconds = p.state.last_auto_at_epoch_seconds;
}
