-- ===== src/RootTxn/Recovery.antt =====
-- Recovery keeps a transaction safe, and settles it if it is let finish.
use rill_xray_agent.Prelude.{
  ℕ, suc, String, ◌≡◌, refl, sym, Bool, true, false, Option, none, some, if◌then◌else◌,
}
use rill_xray_agent.RootTxn.World.{World, Env, Metadata, Request, StateFile, Ending}
use rill_xray_agent.RootTxn.Steps.{◌>>◌, pure, write, state, write_generation}
use rill_xray_agent.RootTxn.Apply.{is_some, require_restart, check_restore, mark_unverified}
use rill_xray_agent.RootTxn.Recover.{recover_managed, write_rollback, rollback_recover}
use rill_xray_agent.RootTxn.Triples.{
  Run, Run-pure, Run-gets, Run-catch, Run-bind, Run-seq, Run-weaken, Run-load, Run-know,
}
use rill_xray_agent.RootTxn.Mutation.{Keeps, Keeps-write, U}
use rill_xray_agent.RootTxn.Budget.{Budget, Unless, Quiet, RestartsUp, Run-spend, Run-restart, less}
use rill_xray_agent.RootTxn.Finish.{Settled}
use rill_xray_agent.RootTxn.Restore.{
  Original, Active, Restored, U-Active, Restored-Active, Restored-host, put_back, regenerate,
  Run-check_restore, Run-undo_bundle, Run-settle_rollback,
}
use rill_xray_agent.RootTxn.Safe.{undoable, undone, committing, undo_bundle}

absent : (o : Option String) → is_some o ≡ false → o ≡ none
absent none h = refl
absent (some c) h = cc

module _ {H : Type 0} (env : Env) (accepted : Option String → Type 0) (old : ℕ) (request : Request)
    (enough : Bool) where
  -- the managed file is unlinked if it is there
  pub Run-unlink :
      (n : ℕ) (present : Bool)
      → Run
          (λ (w : World H).
            (U none old request w × Budget enough (suc n) w) × (present ≡ is_some w.managed))
          (if present then write (λ w. record w { managed = none }) else pure tt)
          (λ _ w. Restored env accepted none old request w × Budget enough n w)
          (Unless enough (Active env accepted none old request))
          (Unless enough (Active env accepted none old request))
  Run-unlink n true =
      Run-weaken _ (λ w p. p.0) (λ a w q. q) (λ w r. r) (λ w d. d)
        (Run-spend enough (U-Active env accepted none old request) n _
          λ w m u. (put_back env accepted none old request w m u, refl))
  Run-unlink n false = Run-pure tt λ w p.
      (record { undoable = p.0.0; managed = absent w.managed (sym p.1) }, less enough n w p.0.1)

  -- the managed file is put back from the backup
  pub Run-recover_managed :
      (n : ℕ) (orig : Option String)
      → Run
          (λ (w : World H). U orig old request w × Budget enough (suc n) w)
          (recover_managed (is_some orig))
          (λ _ w. Restored env accepted orig old request w × Budget enough n w)
          (Unless enough (Active env accepted orig old request))
          (Unless enough (Active env accepted orig old request))
  unfolding recover_managed
  Run-recover_managed n (some c) =
      Run-know (λ w. w.work.backup) (some c) _ (λ w p. p.0.records.backup_is)
        (Run-spend enough (U-Active env accepted (some c) old request) n _
          λ w m u. (put_back env accepted (some c) old request w m u, refl))
  Run-recover_managed n none =
      Run-bind _ _ (Run-gets (λ w. is_some w.managed)) (λ present. Run-unlink n present)

module _ {H : Type 0} (env : Env) (accepted : Option String → Type 0) (orig : Option String)
    (old : ℕ) (request : Request) (enough : Bool)
    (restart : Option (H → Option String → Ending Bool × H)) (quiet : Quiet enough env)
    (up : RestartsUp enough restart) where
  -- what follows the reads of the recovery
  Run-undo :
      Run
        (λ (w : World H). U orig old request w × Budget enough 8 w)
        (do
          recover_managed (is_some orig)
          require_restart restart
          write_generation old
          check_restore env (is_some orig)
          write_rollback env (undo_bundle env old request))
        (λ _ w. Settled env (Original orig) (undo_bundle env old request) w)
        (Unless enough (Active env accepted orig old request))
        (Unless enough (Active env accepted orig old request))
  unfolding write_rollback write_generation
  Run-undo = Run-seq _ _ (Run-recover_managed env accepted old request enough 7 orig) λ _.
      Run-seq _ _
        (Run-restart enough (Restored-Active env accepted orig old request) 7 restart
          (Restored-host env accepted orig old request) up)
        λ _.
          Run-seq _ _
            (Run-spend enough (Restored-Active env accepted orig old request)
              {J = Restored env accepted orig old request} 6 _
              (λ w m r. (regenerate env accepted orig old request w m r, refl)))
            λ _. Run-seq _ _ (Run-check_restore env accepted old request enough 6 orig _ _) λ _.
              Run-seq _ _ (Run-undo_bundle env accepted orig old request enough 5) λ _.
                Run-weaken _ (λ w p. p) (λ a w q. q.0) (λ w r. r) (λ w d. d)
                  (Run-settle_rollback env accepted orig old request enough 0 quiet)

  -- an undoable world, with the metadata that it holds
  abbrev Read : Metadata → World H → Type 0
  Read m w = (U orig old request w × Budget enough 8 w) × (w.work.metadata ≡ some m)

  -- the same, once the metadata are read
  Run-Read :
      (m : Metadata)
      → m.managed_existed ≡ is_some orig
      → m.old_generation ≡ old
      → Run
          (Read m)
          (rollback_recover env restart)
          (λ _ w. Settled env (Original orig) (undo_bundle env old request) w)
          (Unless enough (Active env accepted orig old request))
          (Unless enough (Active env accepted orig old request))
  unfolding rollback_recover
  Run-Read m ex o =
      Run-load {P = Read m} (λ v. v.work.metadata) m _ (λ v q. q.1)
        (Run-load {P = Read m} (λ v. v.work.request) request _ (λ v q. q.0.0.records.request_is)
          (rw (ex, o) (Run-weaken _ (λ v q. q.0) (λ a v q. q) (λ v r. r) (λ v d. d) Run-undo)))

  -- `_rollback_recover` of an undoable transaction ends in its rollback.
  pub Run-rollback_recover :
      Run
        (λ (w : World H). U orig old request w × Budget enough 8 w)
        (rollback_recover env restart)
        (λ _ w. Settled env (Original orig) (undo_bundle env old request) w)
        (Unless enough (Active env accepted orig old request))
        (Unless enough (Active env accepted orig old request))
  Run-rollback_recover = record {
    at = λ w p.
        (Run-Read p.0.records.metadata p.0.records.existed p.0.records.old_is).at w
          (p, p.0.records.metadata_is);
  }

module _ {H : Type 0} (env : Env) (accepted : Option String → Type 0) (orig : Option String)
    (old : ℕ) (request : Request) where
  -- `state.json` can be written at any time of the recovery
  pub Active-state :
      (w : World H) (m : ℕ) (s : StateFile)
      → Active env accepted orig old request w
      → Active env accepted orig old request
          (record w { work = record w.work { state = some s }; life = m })
  Active-state w m s (undoable u) = undoable (record {
    no_bundle = u.no_bundle;
    state = s;
    state_is = refl;
    generation = u.generation;
    records = record {
      metadata = u.records.metadata;
      metadata_is = u.records.metadata_is;
      existed = u.records.existed;
      old_is = u.records.old_is;
      request_is = u.records.request_is;
      backup_is = u.records.backup_is;
    };
  })
  Active-state w m s (undone u) = undone (record { bundle_is = u.bundle_is; managed = u.managed })
  Active-state w m s (committing u) =
      committing (record { bundle_is = u.bundle_is; managed = u.managed })

  pub Keeps-mark_unverified : Keeps {H = H} (Active env accepted orig old request) mark_unverified
  unfolding mark_unverified state
  Keeps-mark_unverified =
      Run-catch _ _ (Keeps-write _ (λ w m a. Active-state w m _ a)) (Run-pure tt (λ w a. a))
