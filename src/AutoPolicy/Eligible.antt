-- ===== src/AutoPolicy/Eligible.antt =====
-- When `evaluate` lets an automatic apply through.
use rill_xray_agent.Prelude.{
  ℕ, ◌+◌, ◌≤◌, ◌<◌, String, ◌≡◌, ◌≢◌, ◌↔◌, Bool, true, false, Option, none, some, length, arith,
  Option-cases, inl, inr,
}
use rill_xray_agent.Prelude.Int.{ℤ, pos, pos_part, neg_part}
use rill_xray_agent.Prelude.Dict.{get}
use rill_xray_agent.AutoPolicy.State.{Config, State, AutoPolicy}
use rill_xray_agent.AutoPolicy.Methods.{
  Decision, last_time, last_hour, blocked_by, in_cooldown, is_empty, evaluate,
}

abbrev pub allows : Option (Decision × AutoPolicy) → Bool
allows none = false
allows (some (d, _)) = d.0

-- `last` is no sentinel only if `seconds` have passed since
abbrev pub HasPassed : ℤ → ℕ → ℕ → Type 0
HasPassed last seconds now = last ≢ pos 0 → pos_part last + seconds ≤ now + neg_part last

pub record Eligible (c : Config) (s : State) (last_rec : ℤ) (now : ℕ) : Type 0 where
  pub armed : s.fuse_open ≡ true → s.fuse_acknowledged ≡ true
  pub recommendation_rested : HasPassed last_rec c.same_recommendation_cooldown_seconds now
  pub rested : HasPassed s.last_auto_at_epoch_seconds c.global_cooldown_seconds now
  pub rate_left : length (last_hour now s.mutation_times) < c.max_auto_mutations_per_hour
  pub under_limit :
      pos_part s.consecutive_rollbacks
      < c.consecutive_rollback_fuse_limit + neg_part s.consecutive_rollbacks

cooldown-HasPassed :
    (now : ℕ) (last : ℤ) (seconds : ℕ)
    → in_cooldown now last seconds ≡ false
    → HasPassed last seconds now
unfolding in_cooldown
cooldown-HasPassed now last seconds h ne = ground arith

HasPassed-cooldown :
    (now : ℕ) (last : ℤ) (seconds : ℕ)
    → HasPassed last seconds now
    → in_cooldown now last seconds ≡ false
unfolding in_cooldown
HasPassed-cooldown now last seconds h = ground (arith, h)

pub blocked-Eligible :
    (c : Config) (s : State) (r : ℤ) (now : ℕ)
    → is_empty (blocked_by c s r now) ≡ true
    → Eligible c s r now
unfolding blocked_by
blocked-Eligible c s r now h = record {
  armed = λ o. ground arith;
  recommendation_rested =
      cooldown-HasPassed now r c.same_recommendation_cooldown_seconds (ground arith);
  rested =
      cooldown-HasPassed now s.last_auto_at_epoch_seconds c.global_cooldown_seconds (ground arith);
  rate_left = ground arith;
  under_limit = ground arith;
}

Eligible-blocked :
    (c : Config) (s : State) (r : ℤ) (now : ℕ)
    → Eligible c s r now
    → is_empty (blocked_by c s r now) ≡ true
unfolding blocked_by
Eligible-blocked c s r now h = ground (
  arith,
  HasPassed-cooldown now r c.same_recommendation_cooldown_seconds h.recommendation_rested,
  HasPassed-cooldown now s.last_auto_at_epoch_seconds c.global_cooldown_seconds h.rested,
)

-- the parts of a decision that lets the apply through
allows-evaluate :
    (parse_int : String → Option ℤ) (p : AutoPolicy) (rid : String) (now : ℕ)
    → allows (evaluate parse_int p rid now) ≡ true
    → (p.corrupt_reason ≡ none)
      × ((last_rec : ℤ) × (last_time parse_int (get rid p.state.last_by_recommendation)
            ≡ some last_rec)
          × (is_empty (blocked_by p.config p.state last_rec now) ≡ true))
unfolding evaluate
allows-evaluate parse_int p rid now h =
    elim (Option-cases (last_time parse_int (get rid p.state.last_by_recommendation))) [
      | inl e ↦ ground arith
      | inr (z, e) ↦ (ground arith, (z, e, ground arith))
    ]

-- `evaluate` lets an automatic apply through exactly when the policy is intact, the recorded time of
-- the recommendation reads as an integer, an open fuse has been acknowledged, both cooldowns have
-- passed, fewer applies than the hourly maximum lie in the last hour, and the count of consecutive
-- rollbacks is under the limit of the fuse.
pub evaluate-Eligible_iff :
    (parse_int : String → Option ℤ) (p : AutoPolicy) (rid : String) (now : ℕ)
    → (allows (evaluate parse_int p rid now) ≡ true) ↔ (
        (p.corrupt_reason ≡ none)
        × ((last_rec : ℤ) × (last_time parse_int (get rid p.state.last_by_recommendation)
              ≡ some last_rec)
            × Eligible p.config p.state last_rec now))
unfolding evaluate
evaluate-Eligible_iff parse_int p rid now = (
  λ h.
      let (intact, last) = allows-evaluate parse_int p rid now h in
      (intact, (last.0, last.1, blocked-Eligible p.config p.state last.0 now last.2)),
  λ h. rw (h.0, h.1.1) (Eligible-blocked p.config p.state h.1.0 now h.1.2),
)
