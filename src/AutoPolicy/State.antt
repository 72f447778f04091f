-- ===== src/AutoPolicy/State.antt =====
-- The state and the settings of `AutoPolicy`.
use rill_xray_agent.Prelude.{ℕ, Bool, true, false, Option, none, List, []}
use rill_xray_agent.Prelude.Int.{ℤ, pos}
use rill_xray_agent.Prelude.Dict.{Dict}
use rill_xray_agent.PolicyFile.{PolicyFile, Corruption}
use rill_xray_agent.Json.{Json}

-- `DEFAULT_POLICY`, or what a caller gives in its place.
pub record Config : Type 0 where
  pub same_recommendation_cooldown_seconds : ℕ
  pub global_cooldown_seconds : ℕ
  pub max_auto_mutations_per_hour : ℕ
  pub consecutive_rollback_fuse_limit : ℕ

abbrev pub default_policy : Config
default_policy = record {
  same_recommendation_cooldown_seconds = 1800;
  global_cooldown_seconds = 300;
  max_auto_mutations_per_hour = 3;
  consecutive_rollback_fuse_limit = 2;
}

-- `_load` leaves the values of `lastByRecommendation` unchecked, so they are any JSON.
pub record State : Type 0 where
  pub last_auto_at_epoch_seconds : ℤ
  pub last_by_recommendation : Dict Json
  pub mutation_times : List ℤ
  pub consecutive_rollbacks : ℤ
  pub fuse_open : Bool
  pub fuse_opened_at_epoch_seconds : Option ℤ
  pub fuse_acknowledged : Bool
  pub processed_outcomes : Dict (Dict ℤ)

abbrev pub fresh_default_state : State
fresh_default_state = record {
  last_auto_at_epoch_seconds = pos 0;
  last_by_recommendation = [];
  mutation_times = [];
  consecutive_rollbacks = pos 0;
  fuse_open = false;
  fuse_opened_at_epoch_seconds = none;
  fuse_acknowledged = false;
  processed_outcomes = [];
}

-- The object: `integrity_valid` and `corrupt_reason` are one field, and `file` is what stands at
-- `self.path`.
pub record AutoPolicy : Type 0 where
  pub config : Config
  pub corrupt_reason : Option Corruption
  pub state : State
  pub file : PolicyFile

abbrev pub integrity_valid : AutoPolicy → Bool
integrity_valid p = elim p.corrupt_reason [ none ↦ true | _ ↦ false ]
