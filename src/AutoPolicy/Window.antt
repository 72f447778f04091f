-- ===== src/AutoPolicy/Window.antt =====
-- The applies that `evaluate` lets through keep the hourly maximum and the global cooldown.
use mathlib.Core.Path.{subst, subst⁻¹}
use rill_xray_agent.PolicyFile.{absent}
use rill_xray_agent.AutoPolicy.Load.{persist}
use rill_xray_agent.Prelude.{
  ℕ, zero, suc, ◌+◌, ◌≤◌, ◌<◌, String, ◌≡◌, ◌≢◌, refl, Bool, true, false, Option, none, some, List,
  [], ◌∷◌, ◌++◌, arith, if◌then◌else◌, Option-cases, Bool-cases, inl, inr, length, length-append,
  length-keep, keep, All, All-append, All-keep,
}
use rill_xray_agent.Prelude.Int.{ℤ, pos, negsuc, pos_part, neg_part, is_zero, within, ◌≤ℤ◌}
use rill_xray_agent.Prelude.Dict.{get}
use rill_xray_agent.AutoPolicy.State.{Config, State, AutoPolicy, fresh_default_state}
use rill_xray_agent.AutoPolicy.Methods.{
  Decision, last_time, last_hour, blocked_by, decide_by, is_empty, evaluate, record_apply,
  is_processed, processed_set, applied_state,
}
use rill_xray_agent.AutoPolicy.Branches.{
  evaluate-raises, evaluate-reads, record_apply-seen, record_apply-new,
}
use rill_xray_agent.AutoPolicy.Eligible.{HasPassed, blocked-Eligible}
use rill_xray_agent.AutoPolicy.Fuse.{settle}

-- `t + d <= u`
abbrev pub Apart : ℕ → ℤ → ℤ → Type 0
Apart d t u = pos_part t + d + neg_part u ≤ pos_part u + neg_part t

-- each later time lies at least `d` after each earlier one
abbrev pub IsSpaced : ℕ → List ℤ → Type 0
IsSpaced d [] = Unit
IsSpaced d (t ∷ ts) = All (Apart d t) ts × IsSpaced d ts

IsSpaced-append :
    (d : ℕ) (ts : List ℤ) (u : ℤ)
    → IsSpaced d ts
    → All (λ t. Apart d t u) ts
    → IsSpaced d (ts ++ u ∷ [])
IsSpaced-append d [] u h a = (tt, tt)
IsSpaced-append d (t ∷ ts) u h a =
    (All-append (Apart d t) ts (u ∷ []) h.0 (a.0, tt), IsSpaced-append d ts u h.1 a.1)

IsSpaced-keep : (d : ℕ) (p : ℤ → Bool) (ts : List ℤ) → IsSpaced d ts → IsSpaced d (keep p ts)
IsSpaced-keep d p [] h = tt
IsSpaced-keep d p (t ∷ ts) h =
    elim (p t) as (λ b. IsSpaced d (if b then t ∷ keep p ts else keep p ts)) [
      | true ↦ (All-keep (Apart d t) p ts h.0, IsSpaced-keep d p ts h.1)
      | false ↦ IsSpaced-keep d p ts h.1
    ]

is_zero-eq : (z : ℤ) → is_zero z ≡ true → z ≡ pos 0
is_zero-eq (pos zero) h = refl
is_zero-eq (pos (suc n)) h = cc
is_zero-eq (negsuc n) h = cc

is_zero-ne : (z : ℤ) → is_zero z ≡ false → z ≢ pos 0
is_zero-ne z h e = ground arith

-- what lies before the last apply is apart from a time that the cooldown has passed for
All-Apart :
    (d now : ℕ) (last : ℤ) (ts : List ℤ)
    → pos_part last + d ≤ now + neg_part last
    → All (λ t. t ≤ℤ last) ts
    → All (λ t. Apart d t (pos now)) ts
All-Apart d now last [] h a = tt
All-Apart d now last (t ∷ ts) h a = (omega (arith, a.0), All-Apart d now last ts h a.1)

All-le : (d now : ℕ) (ts : List ℤ) → All (λ t. Apart d t (pos now)) ts → All (λ t. t ≤ℤ pos now) ts
All-le d now [] a = tt
All-le d now (t ∷ ts) a = (omega (arith, a.0), All-le d now ts a.1)

-- What holds of the times between two applies.
pub record IsPaced (c : Config) (s : State) : Type 0 where
  pub spaced : IsSpaced c.global_cooldown_seconds s.mutation_times
  pub rated : length s.mutation_times ≤ c.max_auto_mutations_per_hour
  pub before_last : All (λ t. t ≤ℤ s.last_auto_at_epoch_seconds) s.mutation_times
  pub never : s.last_auto_at_epoch_seconds ≡ pos 0 → s.mutation_times ≡ []

pub record Attempt : Type 0 where
  pub recommendation : String
  pub outcome : Option String
  pub now : ℕ

-- the apply itself stands between the two calls, and is recorded if it was let through
abbrev pub recorded : AutoPolicy → Attempt → Option (Decision × AutoPolicy) → AutoPolicy
recorded p a none = p
recorded p a (some (d, q)) =
    if d.0 then settle q (record_apply q a.recommendation a.outcome a.now) else q

unfoldable pub attempt : (String → Option ℤ) → AutoPolicy → Attempt → AutoPolicy
attempt parse_int p a = recorded p a (evaluate parse_int p a.recommendation a.now)

unfoldable pub attempts : (String → Option ℤ) → AutoPolicy → List Attempt → AutoPolicy
attempts parse_int p [] = p
attempts parse_int p (a ∷ rest) = attempts parse_int (attempt parse_int p a) rest

abbrev pruned : State → ℕ → State
pruned s now = record s { mutation_times = last_hour now s.mutation_times }

pruned-IsPaced : (c : Config) (s : State) (now : ℕ) → IsPaced c s → IsPaced c (pruned s now)
unfolding last_hour
pruned-IsPaced c s now h = record {
  spaced =
      IsSpaced-keep c.global_cooldown_seconds (λ t. within now t 3600) s.mutation_times h.spaced;
  rated = omega (arith, length-keep {0} (λ t. within now t 3600) s.mutation_times, h.rated);
  before_last = All-keep _ (λ t. within now t 3600) s.mutation_times h.before_last;
  never = λ e. rw (h.never e) refl;
}

-- all recorded times are apart from the time of an eligible apply
rested-Apart :
    (c : Config) (s : State) (now : ℕ)
    → IsPaced c s
    → HasPassed s.last_auto_at_epoch_seconds c.global_cooldown_seconds now
    → All (λ t. Apart c.global_cooldown_seconds t (pos now)) s.mutation_times
rested-Apart c s now h e = elim (Bool-cases (is_zero s.last_auto_at_epoch_seconds)) [
  | inl z ↦ rw (h.never (is_zero-eq s.last_auto_at_epoch_seconds z)) tt
  | inr z ↦
      All-Apart c.global_cooldown_seconds now s.last_auto_at_epoch_seconds s.mutation_times
        (e (is_zero-ne s.last_auto_at_epoch_seconds z)) h.before_last
]

applied-IsPaced :
    (c : Config) (s : State) (rid : String) (id : Option String) (now : ℕ)
    → IsPaced c s
    → HasPassed s.last_auto_at_epoch_seconds c.global_cooldown_seconds now
    → length (last_hour now s.mutation_times) < c.max_auto_mutations_per_hour
    → 0 < now
    → IsPaced c (applied_state c rid id now s)
unfolding last_hour
applied-IsPaced c s rid id now h e rate positive =
    let d = c.global_cooldown_seconds in
    let young = λ (t : ℤ). within now t 3600 in
    let apart = All-keep _ young s.mutation_times (rested-Apart c s now h e) in
    let kept = keep young s.mutation_times in
    record {
      spaced =
          IsSpaced-append d kept (pos now) (IsSpaced-keep d young s.mutation_times h.spaced) apart;
      rated = omega (arith, length-append {0} kept (pos now ∷ []), rate);
      before_last = All-append _ kept (pos now ∷ []) (All-le d now kept apart) (omega arith, tt);
      never = λ z. absurd (ground arith);
    }

-- a fresh install
abbrev pub fresh_policy : Config → AutoPolicy
fresh_policy c = record {
  config = c;
  corrupt_reason = none;
  state = fresh_default_state;
  file = absent;
}

-- intact, with these settings and paced times
pub record IsSteady (c : Config) (p : AutoPolicy) : Type 0 where
  pub settings : p.config ≡ c
  pub intact : p.corrupt_reason ≡ none
  pub paced : IsPaced c p.state

record_apply-IsSteady :
    (p : AutoPolicy) (rid : String) (id : Option String) (now : ℕ)
    → p.corrupt_reason ≡ none
    → IsPaced p.config p.state
    → HasPassed p.state.last_auto_at_epoch_seconds p.config.global_cooldown_seconds now
    → length (last_hour now p.state.mutation_times) < p.config.max_auto_mutations_per_hour
    → 0 < now
    → IsSteady p.config (settle p (record_apply p rid id now))
unfolding persist
record_apply-IsSteady p rid id now intact h e rate positive =
    elim (Bool-cases (is_processed id (processed_set "applied" p.state.processed_outcomes))) [
      | inl seen ↦ rw (record_apply-seen p intact rid id now seen) (record {
        settings = refl;
        intact = intact;
        paced = record {
          spaced = h.spaced;
          rated = h.rated;
          before_last = h.before_last;
          never = h.never;
        };
      })
      | inr new ↦ rw (record_apply-new p intact rid id now new) (record {
        settings = refl;
        intact = intact;
        paced = applied-IsPaced p.config p.state rid id now h e rate positive;
      })
    ]

-- the object that `evaluate` leaves
abbrev looked : AutoPolicy → ℕ → AutoPolicy
looked p now = record p { state = pruned p.state now }

last_hour-pruned :
    (s : State) (now : ℕ)
    → length (last_hour now (last_hour now s.mutation_times))
      ≤ length (last_hour now s.mutation_times)
unfolding last_hour
last_hour-pruned s now = length-keep (λ t. within now t 3600) (last_hour now s.mutation_times)

decided-IsSteady :
    (p : AutoPolicy) (a : Attempt) (z : ℤ)
    → p.corrupt_reason ≡ none
    → 0 < a.now
    → IsPaced p.config p.state
    → IsSteady p.config
        (recorded p a (some (decide_by (blocked_by p.config p.state z a.now), looked p a.now)))
decided-IsSteady p a z intact positive h =
    elim (Bool-cases (is_empty (blocked_by p.config p.state z a.now))) [
      | inr blocked ↦ rw blocked (record {
        settings = refl;
        intact = intact;
        paced = pruned-IsPaced p.config p.state a.now h;
      })
      | inl clear ↦
          let e = blocked-Eligible p.config p.state z a.now clear in
          rw clear (
            record_apply-IsSteady (looked p a.now) a.recommendation a.outcome a.now intact
              (pruned-IsPaced p.config p.state a.now h) e.rested
              (omega (arith, last_hour-pruned p.state a.now, e.rate_left)) positive)
    ]

fresh-IsSteady : (c : Config) → IsSteady c (fresh_policy c)
fresh-IsSteady c = record {
  settings = refl;
  intact = refl;
  paced = record { spaced = tt; rated = omega arith; before_last = tt; never = λ e. refl };
}

attempt-IsSteady :
    (c : Config) (parse_int : String → Option ℤ) (p : AutoPolicy) (a : Attempt)
    → 0 < a.now
    → IsSteady c p
    → IsSteady c (attempt parse_int p a)
unfolding attempt
attempt-IsSteady c parse_int p a positive h =
    elim (Option-cases
      (last_time parse_int (get a.recommendation p.state.last_by_recommendation))) [
        | inl e ↦ rw (evaluate-raises p h.intact parse_int a.recommendation a.now e) h
        | inr (z, e) ↦ rw (evaluate-reads p h.intact parse_int a.recommendation a.now z e) (
            subst
              (λ d. IsSteady d (
                recorded p a
                  (some (decide_by (blocked_by p.config p.state z a.now), looked p a.now))))
              h.settings
              (decided-IsSteady p a z h.intact positive
                (subst⁻¹ (λ d. IsPaced d p.state) h.settings h.paced)))
      ]

attempts-IsSteady :
    (c : Config) (parse_int : String → Option ℤ) (p : AutoPolicy) (as_ : List Attempt)
    → All (λ a. 0 < a.now) as_
    → IsSteady c p
    → IsSteady c (attempts parse_int p as_)
unfolding attempts
attempts-IsSteady c parse_int p [] positive h = h
attempts-IsSteady c parse_int p (a ∷ rest) positive h =
    attempts-IsSteady c parse_int (attempt parse_int p a) rest positive.1
      (attempt-IsSteady c parse_int p a positive.0 h)

-- Start from the fresh state and make any attempts, each of which evaluates the policy and records an
-- apply only if it was let through, at positive times in any order. Then the times that are kept are
-- at most the hourly maximum, and each later one lies at least the global cooldown after each earlier
-- one.
pub attempts-keep_the_pace :
    (c : Config) (parse_int : String → Option ℤ) (as_ : List Attempt)
    → All (λ a. 0 < a.now) as_
    → let s = (attempts parse_int (fresh_policy c) as_).state in
      (length s.mutation_times ≤ c.max_auto_mutations_per_hour)
      × IsSpaced c.global_cooldown_seconds s.mutation_times
attempts-keep_the_pace c parse_int as_ positive =
    let h = attempts-IsSteady c parse_int (fresh_policy c) as_ positive (fresh-IsSteady c) in
    (h.paced.rated, h.paced.spaced)
