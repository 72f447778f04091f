-- ===== src/RootTxn/Attempt.antt =====
-- `apply` on a fresh work directory: wherever it ends, recovery knows what to do.
use rill_xray_agent.Prelude.{
  Bool, true, false, ℕ, String, ◌≡◌, refl, Option, none, some, if◌then◌else◌,
}
use rill_xray_agent.RootTxn.World.{
  World, Env, Request, Callbacks, rolled_back, committed, rollback_intent, at_rollback_intent,
  at_managed_restore, at_generation_restore, at_rollback_bundle, at_terminal, at_commit_bundle,
}
use rill_xray_agent.RootTxn.Steps.{
  M, ◌>>=◌, ◌>>◌, pure, state, write_generation, build_bundle, write_bundle, materialize_artifacts,
  Reply,
}
use rill_xray_agent.RootTxn.Apply.{
  is_some, restore, finish_rollback, rollback_body, rollback, mutate, commit, attempt,
}
use rill_xray_agent.RootTxn.Triples.{
  Run, Run-pure, Run-raise, Run-gets, Run-catch, Run-bind, Run-seq, Run-write, Run-fault,
  Run-weaken, Run-load,
}
use rill_xray_agent.RootTxn.Mutation.{
  Keeps, Keeps-write, Keeps-fault, Keeps-require_restart, Keeps-run_hook, Keeps-state, IsAccepted,
  Verified, Run-mutate, U,
}
use rill_xray_agent.RootTxn.Finish.{Settled, Held, Run-materialize, Run-artifacts, Run-terminal}
use rill_xray_agent.RootTxn.Restore.{
  Original, Active, Restored, Restored-Active, Restored-host, put_back, regenerate,
  Run-check_restore, Run-undo_bundle,
}
use rill_xray_agent.RootTxn.Recovery.{Run-unlink, Keeps-mark_unverified}
use rill_xray_agent.RootTxn.Safe.{active, undoable, undone, undo_bundle, commit_bundle}
use rill_xray_agent.RootTxn.Atomic.{commit_valid, Safe, Undone, commit-Held, undo-Held}

module _ {H : Type 0} (env : Env) (cb : Callbacks H) (orig : Option String) (old : ℕ)
    (request : Request) where
  abbrev A : World H → Type 0
  A = Active env (IsAccepted cb) orig old request

  abbrev S : World H → Type 0
  S = Safe env (IsAccepted cb) orig old request

module _ {H : Type 0} (env : Env) (cb : Callbacks H) (orig : Option String) (old : ℕ)
    (request : Request) where
  -- the reply tells what was done
  pub data Replied (r : Reply) (w : World H) : Type 0 where
    was_committed :
        r.status ≡ committed
        → Settled env (IsAccepted cb) (commit_bundle env old request) w
        → Replied r w
    was_rolled_back :
        r.status ≡ rolled_back → Undone env (IsAccepted cb) orig old request w → Replied r w

  accepted-Held :
      (w : World H)
      → Held env (IsAccepted cb) (commit_bundle env old request) w
      → A env cb orig old request w
  accepted-Held w h = commit-Held env (IsAccepted cb) orig old request w h

  -- what comes after the mutation succeeded
  Run-commit :
      Run
        (Verified orig old request cb)
        (commit env request old)
        Replied
        (A env cb orig old request)
        (A env cb orig old request)
  unfolding commit write_bundle build_bundle
  Run-commit =
      Run-seq _ _
        (Run-write {Q = λ _. Held env (IsAccepted cb) (commit_bundle env old request)} _
          (λ w u e. undoable u.0) (λ w n u e. (refl, u.1)))
        λ _.
          Run-seq _ _
            (Run-fault {Q = λ _. Held env (IsAccepted cb) (commit_bundle env old request)} env
              at_commit_bundle (λ w h. h) accepted-Held)
            λ _.
              Run-weaken _ (λ w h. (h, tt)) (λ a w s. was_committed s.2 s.0) accepted-Held
                accepted-Held
                (Run-materialize env (IsAccepted cb) (commit_bundle env old request) false 0 tt
                  (commit_valid env old request))

module _ {H : Type 0} (env : Env) (cb : Callbacks H) (old : ℕ) (request : Request) where
  -- the restore of the rollback
  Run-restore :
      (orig : Option String)
      → Run {H = H}
          (U orig old request)
          (restore (is_some orig))
          (λ _. Restored env (IsAccepted cb) orig old request)
          (A {H = H} env cb orig old request)
          (A env cb orig old request)
  unfolding restore
  Run-restore (some c) =
      Run-load (λ w. w.work.backup) c _ (λ w u. u.records.backup_is)
        (Run-write _ (λ w u e. undoable u)
          (λ w n u e. put_back env (IsAccepted cb) (some c) old request w n u))
  Run-restore none = Run-bind _ _ (Run-gets (λ w. is_some w.managed)) λ present.
      Run-weaken _ (λ w p. ((p.0, tt), p.1)) (λ a w q. q.0) (λ w r. r) (λ w d. d)
        (Run-unlink env (IsAccepted cb) old request false 0 present)

module _ {H : Type 0} (env : Env) (cb : Callbacks H) (orig : Option String) (old : ℕ)
    (request : Request) where
  -- the rollback's bundle, its artifacts and its terminal state
  Run-finish_rollback :
      Run
        (Restored {H = H} env (IsAccepted cb) orig old request)
        (finish_rollback env old)
        (λ b w. (b ≡ undo_bundle env old request) × Undone env (IsAccepted cb) orig old request w)
        (A env cb orig old request)
        (A env cb orig old request)
  unfolding finish_rollback build_bundle
  Run-finish_rollback =
      Run-load (λ w. w.work.request) request _ (λ w r. r.undoable.records.request_is)
        (Run-seq _ _
          (Run-weaken _ (λ w r. (r, tt)) (λ a w q. q.0) (λ w r. r) (λ w d. d)
            (Run-undo_bundle env (IsAccepted cb) orig old request false 0))
          λ _.
            Run-seq _ _
              (Run-fault {Q = λ _. Held env (Original orig) (undo_bundle env old request)} env
                at_rollback_bundle (λ w h. h)
                (λ w h. undone (record { bundle_is = h.0; managed = h.1 })))
              λ _. finish)
    where
      finish :
          Run
            (Held {H = H} env (Original orig) (undo_bundle env old request))
            (do
              materialize_artifacts env (undo_bundle env old request)
              state rolled_back (some (undo_bundle env old request).commit_sha256)
              pure (undo_bundle env old request))
            (λ b w.
              (b ≡ undo_bundle env old request) × Undone env (IsAccepted cb) orig old request w)
            (A env cb orig old request)
            (A env cb orig old request)
      finish =
          let b = undo_bundle env old request in
          Run-weaken _ (λ w h. (h, tt)) (λ a w q. q)
            (undo-Held env (IsAccepted cb) orig old request)
            (undo-Held env (IsAccepted cb) orig old request)
            (Run-seq _ _ (Run-artifacts env (Original orig) b false 1 tt) λ _.
              Run-seq _ _ (Run-terminal env (Original orig) b false 0)
                λ _. Run-pure b (λ w s. (refl, s.0)))

  -- the body of `_rollback`'s `try`
  Run-rollback_body :
      Run
        (U orig old request)
        (rollback_body env cb (is_some orig) old)
        (Replied env cb orig old request)
        (A env cb orig old request)
        (A env cb orig old request)
  unfolding rollback_body write_generation
  Run-rollback_body = Run-seq _ _ (Run-restore env cb old request orig) λ _.
      Run-seq _ _ (restored (Keeps-fault env at_managed_restore)) λ _.
        Run-seq _ _
          (restored (
            Keeps-require_restart cb.restart_fn
              (Restored-host env (IsAccepted cb) orig old request)))
          λ _.
            Run-seq _ _ (restored (Keeps-write _ (regenerate env (IsAccepted cb) orig old request)))
              λ _. Run-seq _ _ (restored (Keeps-fault env at_generation_restore)) λ _.
                Run-seq _ _
                  (Run-weaken _ (λ w r. (r, tt)) (λ a w q. q.0) (λ w r. r) (λ w d. d)
                    (Run-check_restore env (IsAccepted cb) old request false 0 orig _ _))
                  λ _.
                    Run-seq _ _
                      (restored (
                        Keeps-run_hook cb.rollback_hook
                          (Restored-host env (IsAccepted cb) orig old request)))
                      λ _. Run-bind _ _ Run-finish_rollback λ b.
                        Run-seq _ _
                          (Run-fault
                            {Q = λ _ w.
                              (b ≡ undo_bundle env old request)
                              × Undone env (IsAccepted cb) orig old request w}
                            env at_terminal (λ w h. h)
                            (λ w h.
                              undo-Held env (IsAccepted cb) orig old request w
                                (h.1.0.bundle_is, h.1.1)))
                          λ _. Run-pure _ (λ w h. was_rolled_back refl h.1)
    where
      restored :
          {m : M H (Unit {0})}
          → Keeps (Restored env (IsAccepted cb) orig old request) m
          → Run
              (Restored env (IsAccepted cb) orig old request)
              m
              (λ _. Restored env (IsAccepted cb) orig old request)
              (A env cb orig old request)
              (A env cb orig old request)
      restored {m} keeps =
          Run-weaken m (λ w r. r) (λ a w r. r)
            (Restored-Active env (IsAccepted cb) orig old request)
            (Restored-Active env (IsAccepted cb) orig old request) keeps

  -- `_rollback`, which raises again what its `try` raised
  Run-rollback :
      Run
        (U orig old request)
        (rollback env cb (is_some orig) old)
        (Replied env cb orig old request)
        (A env cb orig old request)
        (A env cb orig old request)
  unfolding rollback
  Run-rollback = Run-seq _ _ (begun (Keeps-state orig old request rollback_intent none)) λ _.
      Run-seq _ _ (begun (Keeps-fault env at_rollback_intent)) λ _.
        Run-catch _ _ Run-rollback_body (
          Run-seq _ _ (Keeps-mark_unverified env (IsAccepted cb) orig old request)
            (λ _. Run-raise (λ w a. a)))
    where
      begun :
          {m : M H (Unit {0})}
          → Keeps (U orig old request) m
          → Run
              (U orig old request)
              m
              (λ _. U orig old request)
              (A env cb orig old request)
              (A env cb orig old request)
      begun {m} keeps =
          Run-weaken m (λ w r. r) (λ a w r. r) (λ w u. undoable u) (λ w u. undoable u) keeps

  -- what the mutation leaves, by whether it returned
  abbrev Decided : Bool → World H → Type 0
  Decided true = Verified orig old request cb
  Decided false = U orig old request

  Run-branch :
      (done : Bool)
      → Run
          (Decided done)
          (if done then commit env request old else rollback env cb (is_some orig) old)
          (Replied env cb orig old request)
          (A env cb orig old request)
          (A env cb orig old request)
  Run-branch true = Run-commit env cb orig old request
  Run-branch false = Run-rollback

  -- what follows the tests before the mutation
  pub Run-decide :
      Run
        (U orig old request)
        (do
          done ← attempt (mutate env cb)
          if done then commit env request old else rollback env cb (is_some orig) old)
        (Replied env cb orig old request)
        (S env cb orig old request)
        (S env cb orig old request)
  unfolding attempt
  Run-decide =
      Run-weaken _ (λ w u. u) (λ r w q. q) (λ w a. active a) (λ w a. active a)
        (Run-bind {Q = Decided} _ _
          (Run-catch _ _
            (Run-weaken _ (λ w u. u) (λ r w q. q) (λ w u. u) (λ w u. undoable u)
              (Run-seq _ _ (Run-mutate orig old request env cb)
                (λ _. Run-pure {Q = Decided} true (λ w v. v))))
            (Run-pure {Q = Decided} false (λ w u. u)))
          Run-branch)
