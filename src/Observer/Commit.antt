-- ===== src/Observer/Commit.antt =====
-- `commit_transition`, killed anywhere, with recoveries after it that are killed too.
use mathlib.Core.Path.{subst, subst⁻¹}
use mathlib.Core.List.{append-nil}
use rill_xray_agent.Prelude.{
  ℕ, zero, suc, String, ◌≡◌, refl, ap, ◌∙◌, false, Option, none, some, List, [], ◌∷◌, ◌++◌, map,
  All, arith, str_eq,
}
use rill_xray_agent.Prelude.Result.{ok, err}
use rill_xray_agent.Json.{Fields}
use rill_xray_agent.Observer.Transition.{
  Events, Entry, World, Committed, absent, Step, write_checkpoint, perform, run, run_all, inject,
  ids, appends, replace, state_digest, disk_digest, recover_pending_transition, checkpoint_of,
  commit_with, commit_transition, load_checkpoint,
}
use rill_xray_agent.Observer.Replay.{IsNew}
use rill_xray_agent.Observer.Load.{IsWellFormed}
use rill_xray_agent.Observer.Once.{
  events, pending_at, settled_at, Phase, run-Phase, run_all-appends, Phase-Recovers,
}

-- the first `n` writes of a plan, or none where there is no plan
abbrev pub after : {A : Type 0} → ℕ → Committed (List Step × A) → World → World
after n (ok (plan, _)) w = run n plan w
after n (err _) w = w

abbrev pub after_all : {A : Type 0} → Committed (List Step × A) → World → World
after_all (ok (plan, _)) w = run_all plan w
after_all (err _) w = w

-- the writes of `commit_transition`, the first `n` of them or all
abbrev pub committed : ℕ → Committed (List Step) → World → World
committed n (ok steps) w = run n steps w
committed n (err _) w = w

abbrev pub committed_all : Committed (List Step) → World → World
committed_all (ok steps) w = run_all steps w
committed_all (err _) w = w

first_of :
    (ps : List (Fields × String)) (s : String) (ss : List String)
    → ids ps ≡ s ∷ ss
    → (p : Fields × String) × (rest : List (Fields × String)) × (ps ≡ p ∷ rest)
first_of [] s ss h = absurd (ground arith)
first_of (p ∷ ps) s ss h = (p, ps, refl)

module _ (ev : Events) (previous : Option Fields) (current : Fields) (start : List Entry) where
  -- the disk before the transition
  abbrev pub quiet : World
  quiet = record { journal = start; observation = previous; checkpoint = absent }

  -- recoveries that are killed after so many writes each
  abbrev pub recoveries : List ℕ → World → World
  recoveries [] w = w
  recoveries (n ∷ ns) w = recoveries ns (after n (recover_pending_transition ev w) w)

  abbrev pub plan : List Step
  plan =
      write_checkpoint (checkpoint_of ev previous current) ∷ appends (events ev previous current)
      ++ replace current

  abbrev pub settled : World
  settled = settled_at ev previous current (start ++ map inject (events ev previous current))

  commit_with-plan :
      (ps : List (Fields × String)) (p : Fields × String) (rest : List (Fields × String))
      → ps ≡ p ∷ rest
      → commit_with ev previous current quiet ps none
        ≡ ok (write_checkpoint (checkpoint_of ev previous current) ∷ appends ps ++ replace current)
  commit_with-plan [] p rest e = absurd (ground arith)
  commit_with-plan (q ∷ qs) p rest e = refl

  -- The writes of the commit.
  pub commit_transition-plan :
      IsWellFormed (checkpoint_of ev previous current)
      → commit_transition ev previous current quiet ≡ ok plan
  unfolding commit_transition load_checkpoint
  commit_transition-plan well =
      let first = first_of (events ev previous current) well.first well.others well.ids_are in
      commit_with-plan (events ev previous current) first.0 first.1 first.2

  module _ (well : IsWellFormed (checkpoint_of ev previous current))
      (same_disk : disk_digest ev previous ≡ state_digest ev previous)
      (current_disk : disk_digest ev (some current) ≡ ev.fingerprint current)
      (moved : str_eq (state_digest ev previous) (ev.fingerprint current) ≡ false)
      (new : All (IsNew start) (events ev previous current)) where
    abbrev InPhase : World → Type 0
    InPhase = Phase ev previous current start

    begun : (n : ℕ) → InPhase (run (suc n) plan quiet)
    unfolding perform
    begun n =
        subst
          (λ j. InPhase (
            run n (appends (events ev previous current) ++ replace current)
              (pending_at ev previous current j)))
          (append-nil start)
          (run-Phase ev previous current start n [] (events ev previous current) refl)

    step-InPhase :
        (n : ℕ) (w : World) → InPhase w → InPhase (after n (recover_pending_transition ev w) w)
    step-InPhase n w h =
        let r =
          Phase-Recovers ev previous current start well same_disk current_disk moved new w h in
        subst⁻¹ (λ x. InPhase (after n x w)) r.2 (r.4 n)

    recoveries-InPhase : (ns : List ℕ) (w : World) → InPhase w → InPhase (recoveries ns w)
    recoveries-InPhase [] w h = h
    recoveries-InPhase (n ∷ ns) w h = recoveries-InPhase ns _ (step-InPhase n w h)

    settles : (w : World) → InPhase w → after_all (recover_pending_transition ev w) w ≡ settled
    settles w h =
        let r =
          Phase-Recovers ev previous current start well same_disk current_disk moved new w h in
        ap (λ x. after_all x w) r.2 ∙ r.3

    quiet_stays : (ns : List ℕ) → recoveries ns quiet ≡ quiet
    unfolding recover_pending_transition load_checkpoint
    quiet_stays [] = refl
    quiet_stays (zero ∷ ns) = quiet_stays ns
    quiet_stays (suc n ∷ ns) = quiet_stays ns

    -- Kill the commit of a transition after any number of its writes, and then any recoveries after any
    -- number of theirs. If the commit made a write at all, one recovery that is let finish gives the disk
    -- that the whole commit gives: each event is in the journal once, in order, the observation is the
    -- current one, and the checkpoint is gone. No event has an id that the journal knows, the ids
    -- differ, and the fingerprints of both observations differ.
    pub commit_transition-once :
        (n : ℕ) (ns : List ℕ)
        → (commit_transition ev previous current quiet ≡ ok plan)
          × (run_all plan quiet ≡ settled)
          × (recoveries ns (run 0 plan quiet) ≡ quiet)
          × (let w = recoveries ns (run (suc n) plan quiet) in
              after_all (recover_pending_transition ev w) w ≡ settled)
    unfolding perform
    commit_transition-once n ns = (
      commit_transition-plan well,
      run_all-appends ev previous current (events ev previous current) start,
      quiet_stays ns,
      settles (recoveries ns (run (suc n) plan quiet))
          (recoveries-InPhase ns (run (suc n) plan quiet) (begun n)),
    )
