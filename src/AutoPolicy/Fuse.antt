-- ===== src/AutoPolicy/Fuse.antt =====
-- The fuse stays open through everything but a human's acknowledgment.
use mathlib.Core.Path.{subst}
use rill_xray_agent.Prelude.{
  ℕ, zero, suc, sym, ◌∙◌, ◌+◌, ◌≤◌, String, ◌≡◌, refl, true, false, Option, none, some, List, [],
  ◌∷◌, arith, Option-cases, Bool-cases, inl, inr,
}
use rill_xray_agent.Prelude.Int.{ℤ, increment, at_least, pos_part, neg_part, pos, negsuc}
use rill_xray_agent.Prelude.Dict.{get}
use rill_xray_agent.Prelude.Result.{ok, err, ok-injective}
use rill_xray_agent.PolicyFile.{regular}
use rill_xray_agent.AutoPolicy.State.{Config, State, AutoPolicy}
use rill_xray_agent.AutoPolicy.Load.{encode, init, persist}
use rill_xray_agent.AutoPolicy.Methods.{
  last_time, Decision, Outcome, blocked_by, evaluate, record_apply, record_rollback,
  acknowledge_fuse, is_processed, processed_set, rolled_back_state, with_set, applied_state,
  acknowledged_state, decide_by,
}
use rill_xray_agent.AutoPolicy.Branches.{
  evaluate-raises, evaluate-reads, record_apply-seen, record_apply-new, record_rollback-seen,
  record_rollback-new, acknowledge_fuse-intact,
}
use rill_xray_agent.AutoPolicy.Eligible.{allows}
use rill_xray_agent.AutoPolicy.Restart.{load-persisted}

-- What may happen to the policy, short of `acknowledge_fuse(True)`.
pub data Event : Type 0 where
  evaluated : String → ℕ → Event
  applied : String → Option String → ℕ → Event
  rolled_back : Option String → ℕ → Event
  revoked : Event
  restarted : Event

-- an exception leaves the object as it was
abbrev pub settle : AutoPolicy → Outcome → AutoPolicy
settle p (ok q) = q
settle p (err _) = p

abbrev pub evaluated_to : AutoPolicy → Option (Decision × AutoPolicy) → AutoPolicy
evaluated_to p none = p
evaluated_to p (some (_, q)) = q

-- `none`: the constructor raised, and there is no object.
unfoldable pub step : (String → Option ℤ) → AutoPolicy → Event → Option AutoPolicy
step parse_int p (evaluated rid now) = some (evaluated_to p (evaluate parse_int p rid now))
step parse_int p (applied rid id now) = some (settle p (record_apply p rid id now))
step parse_int p (rolled_back id now) = some (settle p (record_rollback p id now))
step parse_int p revoked = some (settle p (acknowledge_fuse p false))
step parse_int p restarted = init p.config p.file

unfoldable pub run : (String → Option ℤ) → AutoPolicy → List Event → Option AutoPolicy
run parse_int p [] = some p
run parse_int p (e ∷ es) = elim (step parse_int p e) [ none ↦ none | some q ↦ run parse_int q es ]

-- open and not acknowledged, in memory and on disk
pub record IsBlown (p : AutoPolicy) : Type 0 where
  pub intact : p.corrupt_reason ≡ none
  pub is_open : p.state.fuse_open ≡ true
  pub unacknowledged : p.state.fuse_acknowledged ≡ false
  pub stored : State
  pub on_disk : p.file ≡ regular 0o600 (some (encode stored))
  pub stored_open : stored.fuse_open ≡ true
  pub stored_unacknowledged : stored.fuse_acknowledged ≡ false

-- a state with an open fuse, held and stored
opened-IsBlown :
    (p : AutoPolicy) (s : State)
    → p.corrupt_reason ≡ none
    → s.fuse_open ≡ true
    → s.fuse_acknowledged ≡ false
    → IsBlown (persist (record p { state = s }))
unfolding persist
opened-IsBlown p s intact o u = record {
  intact = intact;
  is_open = o;
  unacknowledged = u;
  stored = s;
  on_disk = refl;
  stored_open = o;
  stored_unacknowledged = u;
}

-- a change of the state in memory that leaves the fuse
keep_IsBlown :
    (p : AutoPolicy) (s : State)
    → IsBlown p
    → s.fuse_open ≡ true
    → s.fuse_acknowledged ≡ false
    → IsBlown (record p { state = s })
keep_IsBlown p s h o u = record {
  intact = h.intact;
  is_open = o;
  unacknowledged = u;
  stored = h.stored;
  on_disk = h.on_disk;
  stored_open = h.stored_open;
  stored_unacknowledged = h.stored_unacknowledged;
}

blocked_by-blown :
    (c : Config) (s : State) (z : ℤ) (now : ℕ)
    → s.fuse_open ≡ true
    → s.fuse_acknowledged ≡ false
    → (decide_by (blocked_by c s z now)).0 ≡ false
unfolding blocked_by
blocked_by-blown c s z now o u = rw (o, u)

IsBlown-blocks :
    (parse_int : String → Option ℤ) (p : AutoPolicy) (rid : String) (now : ℕ)
    → IsBlown p
    → allows (evaluate parse_int p rid now) ≡ false
IsBlown-blocks parse_int p rid now h =
    elim (Option-cases (last_time parse_int (get rid p.state.last_by_recommendation))) [
      | inl e ↦ rw (evaluate-raises p h.intact parse_int rid now e)
      | inr (z, e) ↦
          rw (evaluate-reads p h.intact parse_int rid now z e)
            (blocked_by-blown p.config p.state z now h.is_open h.unacknowledged)
    ]

evaluated-IsBlown :
    (parse_int : String → Option ℤ) (p : AutoPolicy) (rid : String) (now : ℕ)
    → IsBlown p
    → IsBlown (evaluated_to p (evaluate parse_int p rid now))
evaluated-IsBlown parse_int p rid now h =
    elim (Option-cases (last_time parse_int (get rid p.state.last_by_recommendation))) [
      | inl e ↦ rw (evaluate-raises p h.intact parse_int rid now e) h
      | inr (z, e) ↦
          rw (evaluate-reads p h.intact parse_int rid now z e)
            (keep_IsBlown p _ h h.is_open h.unacknowledged)
    ]

applied-IsBlown :
    (p : AutoPolicy) (rid : String) (id : Option String) (now : ℕ)
    → IsBlown p
    → IsBlown (settle p (record_apply p rid id now))
applied-IsBlown p rid id now h =
    elim (Bool-cases (is_processed id (processed_set "applied" p.state.processed_outcomes))) [
      | inl e ↦
          rw (record_apply-seen p h.intact rid id now e)
            (keep_IsBlown p (with_set "applied" p.state) h h.is_open h.unacknowledged)
      | inr e ↦ rw (record_apply-new p h.intact rid id now e) (
          opened-IsBlown p (applied_state p.config rid id now p.state) h.intact h.is_open
            h.unacknowledged)
    ]

-- the counter may pass its limit again: the fuse then opens anew
rolled_back-is_open :
    (c : Config) (id : Option String) (now : ℕ) (s : State)
    → s.fuse_open ≡ true
    → (rolled_back_state c id now s).fuse_open ≡ true
rolled_back-is_open c id now s o = ground arith

rolled_back-unacknowledged :
    (c : Config) (id : Option String) (now : ℕ) (s : State)
    → s.fuse_acknowledged ≡ false
    → (rolled_back_state c id now s).fuse_acknowledged ≡ false
rolled_back-unacknowledged c id now s u = ground arith

rolled_back-IsBlown :
    (p : AutoPolicy) (id : Option String) (now : ℕ)
    → IsBlown p
    → IsBlown (settle p (record_rollback p id now))
rolled_back-IsBlown p id now h =
    elim (Bool-cases (is_processed id (processed_set "rolledBack" p.state.processed_outcomes))) [
      | inl e ↦
          rw (record_rollback-seen p h.intact id now e)
            (keep_IsBlown p (with_set "rolledBack" p.state) h h.is_open h.unacknowledged)
      | inr e ↦ rw (record_rollback-new p h.intact id now e) (
          opened-IsBlown p (rolled_back_state p.config id now p.state) h.intact
            (rolled_back-is_open p.config id now p.state h.is_open)
            (rolled_back-unacknowledged p.config id now p.state h.unacknowledged))
    ]

revoked-IsBlown : (p : AutoPolicy) → IsBlown p → IsBlown (settle p (acknowledge_fuse p false))
revoked-IsBlown p h =
    rw (acknowledge_fuse-intact p h.intact false)
      (opened-IsBlown p (acknowledged_state false p.state) h.intact h.is_open refl)

-- an object, if there is one, with a blown fuse
abbrev Sound : Option AutoPolicy → Type 0
Sound none = Unit
Sound (some p) = IsBlown p

restarted-IsBlown : (p : AutoPolicy) → IsBlown p → Sound (init p.config p.file)
unfolding init
restarted-IsBlown p h =
    let on_disk = h.on_disk in
    rw (on_disk, load-persisted h.stored)
      (record {
        intact = refl;
        is_open = h.stored_open;
        unacknowledged = h.stored_unacknowledged;
        stored = h.stored;
        on_disk = refl;
        stored_open = h.stored_open;
        stored_unacknowledged = h.stored_unacknowledged;
      })

step-IsBlown :
    (parse_int : String → Option ℤ) (p : AutoPolicy) (e : Event)
    → IsBlown p
    → Sound (step parse_int p e)
unfolding step
step-IsBlown parse_int p (evaluated rid now) h = evaluated-IsBlown parse_int p rid now h
step-IsBlown parse_int p (applied rid id now) h = applied-IsBlown p rid id now h
step-IsBlown parse_int p (rolled_back id now) h = rolled_back-IsBlown p id now h
step-IsBlown parse_int p revoked h = revoked-IsBlown p h
step-IsBlown parse_int p restarted h = restarted-IsBlown p h

run-IsBlown :
    (parse_int : String → Option ℤ) (p : AutoPolicy) (es : List Event)
    → IsBlown p
    → Sound (run parse_int p es)
unfolding run
run-IsBlown parse_int p [] h = h
run-IsBlown parse_int p (e ∷ es) h = elim (Option-cases (step parse_int p e)) [
  | inl gone ↦ rw (gone, run) tt
  | inr (q, there) ↦
      rw (there, run)
        (run-IsBlown parse_int q es (let next = step-IsBlown parse_int p e h in rw there at next))
]

at_least-increment :
    (z : ℤ) (n : ℕ) → n + neg_part z ≤ pos_part z + 1 → at_least (increment z) n ≡ true
at_least-increment (pos m) n h = ground arith
at_least-increment (negsuc zero) n h = ground arith
at_least-increment (negsuc (suc m)) n h = absurd (omega arith)

pub blow-opens :
    (c : Config) (id : Option String) (now : ℕ) (s : State)
    → c.consecutive_rollback_fuse_limit + neg_part s.consecutive_rollbacks
      ≤ pos_part s.consecutive_rollbacks + 1
    → ((rolled_back_state c id now s).fuse_open ≡ true)
      × ((rolled_back_state c id now s).fuse_acknowledged ≡ false)
blow-opens c id now s limit =
    rw (at_least-increment s.consecutive_rollbacks c.consecutive_rollback_fuse_limit limit)
      (refl, refl)

-- A rollback, not seen before, that brings the counter of an intact policy to the limit blocks every
-- later `evaluate`: after any sequence of evaluations, recorded applies and rollbacks, revoked
-- acknowledgments and restarts, in any order and at any times, no automatic apply is let through.
pub fuse_stays_open :
    (parse_int : String → Option ℤ) (p q r : AutoPolicy) (id : Option String) (now : ℕ)
    (es : List Event) (rid : String) (later : ℕ)
    → p.corrupt_reason ≡ none
    → is_processed id (processed_set "rolledBack" p.state.processed_outcomes) ≡ false
    → p.config.consecutive_rollback_fuse_limit + neg_part p.state.consecutive_rollbacks
      ≤ pos_part p.state.consecutive_rollbacks + 1
    → record_rollback p id now ≡ ok q
    → run parse_int q es ≡ some r
    → allows (evaluate parse_int r rid later) ≡ false
fuse_stays_open parse_int p q r id now es rid later intact new limit h ran =
    let opens = blow-opens p.config id now p.state limit in
    let blown : IsBlown q =
      subst IsBlown (ok-injective (sym (record_rollback-new p intact id now new) ∙ h))
        (opened-IsBlown p (rolled_back_state p.config id now p.state) intact opens.0 opens.1) in
    IsBlown-blocks parse_int r rid later
      (let sound = run-IsBlown parse_int q es blown in rw ran at sound)
