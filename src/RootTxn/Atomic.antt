-- ===== src/RootTxn/Atomic.antt =====
-- Recovery, cut short as often as may be, leads to all of a transaction or to none of it.
use rill_xray_agent.Prelude.{ℕ, String, ◌≡◌, refl, Bool, true, false, Option, none, some}
use rill_xray_agent.RootTxn.World.{World, Env, Bundle, Request, StateFile, Ending, of_base}
use rill_xray_agent.RootTxn.Steps.{M, ◌>>◌, pure, catch, build_bundle, materialize}
use rill_xray_agent.RootTxn.Apply.{mark_unverified}
use rill_xray_agent.RootTxn.Recover.{recover_one}
use rill_xray_agent.RootTxn.Triples.{Run, Ends, Run-pure, Run-catch, Run-seq, Run-weaken, Run-know}
use rill_xray_agent.RootTxn.Mutation.{U}
use rill_xray_agent.RootTxn.Budget.{Budget, Unless, Quiet, RestartsUp, Unless-map}
use rill_xray_agent.RootTxn.Finish.{Held, Settled, Run-materialize}
use rill_xray_agent.RootTxn.Restore.{Original, Active}
use rill_xray_agent.RootTxn.Recovery.{Run-rollback_recover, Keeps-mark_unverified}
use rill_xray_agent.RootTxn.Safe.{
  IsSafe, untouched, active, undoable, undone, committing, IsUntouched, undo_bundle, commit_bundle,
}

module _ (env : Env) (old : ℕ) (request : Request) where
  undo_valid :
      env.digest (of_base (undo_bundle env old request).base)
      ≡ (undo_bundle env old request).commit_sha256
  unfolding build_bundle
  undo_valid = refl

  pub commit_valid :
      env.digest (of_base (commit_bundle env old request).base)
      ≡ (commit_bundle env old request).commit_sha256
  unfolding build_bundle
  commit_valid = refl

module _ {H : Type 0} (env : Env) (accepted : Option String → Type 0) (orig : Option String)
    (old : ℕ) (request : Request) where
  abbrev pub Safe : World H → Type 0
  Safe w = IsSafe orig old w accepted env request

  abbrev pub Undone : World H → Type 0
  Undone = Settled env (Original orig) (undo_bundle env old request)

  abbrev pub Done : World H → Type 0
  Done = Settled env accepted (commit_bundle env old request)

  -- What recovery leads to: nothing had been done, or all of it is undone and the managed file the
  -- original one, or all of it is done and the managed file one that was accepted.
  pub data IsAtomic (w : World H) : Type 0 where
    nothing : IsUntouched orig old w → IsAtomic w
    all_undone : Undone w → IsAtomic w
    all_done : Done w → IsAtomic w

  -- what a recovery leaves: with the promise, no loose ends
  abbrev After : Bool → World H → Type 0
  After true w = IsAtomic w
  After false w = Safe w

  pub undo-Held :
      (w : World H)
      → Held env (Original orig) (undo_bundle env old request) w
      → Active env accepted orig old request w
  undo-Held w h = undone (record { bundle_is = h.0; managed = h.1 })

  pub commit-Held :
      (w : World H)
      → Held env accepted (commit_bundle env old request) w
      → Active env accepted orig old request w
  commit-Held w h = committing (record { bundle_is = h.0; managed = h.1 })

  After-Undone : (enough : Bool) (w : World H) → Undone w → After enough w
  After-Undone true w s = all_undone s
  After-Undone false w s = active (undo-Held w (s.0.bundle_is, s.1))

  After-Done : (enough : Bool) (w : World H) → Done w → After enough w
  After-Done true w s = all_done s
  After-Done false w s = active (commit-Held w (s.0.bundle_is, s.1))

  -- the two handlers of `_recover_one`
  Run-handler :
      (enough : Bool)
      → Run
          (Unless enough (Active env accepted orig old request))
          (do mark_unverified; pure true)
          (λ _. After enough)
          (Unless enough Safe)
          (Unless enough Safe)
  Run-handler true = record { at = λ w e. absurd e }
  Run-handler false =
      Run-weaken _ (λ w a. a) (λ _ w a. active a) (λ w a. active a) (λ w a. active a)
        (Run-seq _ _ (Keeps-mark_unverified env accepted orig old request)
          (λ _. Run-pure true (λ w a. a)))

  Run-handled :
      (enough : Bool) {P : World H → Type 0} (m : M H Bool)
      → Run P m
          (λ _. After enough)
          (Unless enough (Active env accepted orig old request))
          (Unless enough (Active env accepted orig old request))
      → Run P
          (catch m (do mark_unverified; pure true))
          (λ _. After enough)
          (Unless enough Safe)
          (Unless enough Safe)
  Run-handled enough m run =
      Run-catch m _
        (Run-weaken m (λ w p. p) (λ a w q. q) (λ w r. r) (Unless-map enough (λ w a. active a)) run)
        (Run-handler enough)

  -- the branch of `_recover_one` with a durable bundle
  Run-bundle :
      (enough : Bool) (X : Option String → Type 0) (b : Bundle)
      → Quiet enough env
      → env.digest (of_base b.base) ≡ b.commit_sha256
      → ((w : World H) → Held env X b w → Active env accepted orig old request w)
      → ((w : World H) → Settled env X b w → After enough w)
      → Run
          (λ (w : World H). Held env X b w × Budget enough 8 w)
          (catch (do materialize env; pure true) (do mark_unverified; pure true))
          (λ _. After enough)
          (Unless enough Safe)
          (Unless enough Safe)
  Run-bundle enough X b quiet valid held settled = Run-handled enough _ (
      Run-seq _ _
        (Run-weaken _ (λ w h. h) (λ a w s. s) (Unless-map enough held) (Unless-map enough held)
          (Run-materialize env X b enough 3 quiet valid))
        λ _. Run-pure true (λ w s. settled w s.0))

  module _ (enough : Bool) (restart : Option (H → Option String → Ending Bool × H))
      (quiet : Quiet enough env) (up : RestartsUp enough restart) where
    -- the branch of `_recover_one` with a state and no bundle
    Run-undoable :
        (s : StateFile)
        → Run
            (λ (w : World H). (U orig old request w × Budget enough 8 w) × (w.work.state ≡ some s))
            (recover_one env restart)
            (λ _. After enough)
            (Unless enough Safe)
            (Unless enough Safe)
    unfolding recover_one
    Run-undoable s =
        Run-know (λ v. v.work.bundle) none _ (λ v p. p.0.0.no_bundle)
          (Run-know (λ v. v.work.state) (some s) _ (λ v p. p.1)
            (Run-handled enough _ (
              Run-seq _ _
                (Run-weaken _ (λ v p. p.0) (λ a v q. q) (λ v r. r) (λ v d. d)
                  (Run-rollback_recover env accepted orig old request enough restart quiet up))
                λ _. Run-pure true (After-Undone enough))))

    Run-Held :
        (X : Option String → Type 0) (b : Bundle)
        → env.digest (of_base b.base) ≡ b.commit_sha256
        → ((w : World H) → Held env X b w → Active env accepted orig old request w)
        → ((w : World H) → Settled env X b w → After enough w)
        → Run
            (λ (w : World H). Held env X b w × Budget enough 8 w)
            (recover_one env restart)
            (λ _. After enough)
            (Unless enough Safe)
            (Unless enough Safe)
    unfolding recover_one
    Run-Held X b valid held settled =
        Run-know (λ v. v.work.bundle) (some b) _ (λ v p. p.0.0)
          (Run-bundle enough X b quiet valid held settled)

    Run-untouched :
        Run
          (λ (w : World H). IsUntouched orig old w)
          (recover_one env restart)
          (λ _. After enough)
          (Unless enough Safe)
          (Unless enough Safe)
    unfolding recover_one
    Run-untouched =
        Run-know (λ v. v.work.bundle) none _ (λ v p. p.no_bundle)
          (Run-know (λ v. v.work.state) none _ (λ v p. p.no_state)
            (Run-pure false (after_untouched enough)))
      where
        after_untouched : (enough : Bool) (w : World H) → IsUntouched orig old w → After enough w
        after_untouched true w u = nothing u
        after_untouched false w u = untouched u

    -- `_recover_one` of a safe world
    pub Run-recover_one :
        Run
          (λ (w : World H). Safe w × Budget enough 8 w)
          (recover_one env restart)
          (λ _. After enough)
          (Unless enough Safe)
          (Unless enough Safe)
    Run-recover_one = record { at = λ w p. by_case w p.0 p.1 }
      where
        by_case :
            (w : World H)
            → Safe w
            → Budget enough 8 w
            → Ends
                (λ _. After enough)
                (Unless enough Safe)
                (Unless enough Safe)
                (recover_one env restart w)
        by_case w (untouched u) b = Run-untouched.at w u
        by_case w (active (undoable u)) b = (Run-undoable u.state).at w ((u, b), u.state_is)
        by_case w (active (undone u)) b =
            (Run-Held (Original orig) (undo_bundle env old request) (undo_valid env old request)
                undo-Held (After-Undone enough)).at
              w ((u.bundle_is, u.managed), b)
        by_case w (active (committing u)) b =
            (Run-Held accepted (commit_bundle env old request) (commit_valid env old request)
                commit-Held (After-Done enough)).at
              w ((u.bundle_is, u.managed), b)
