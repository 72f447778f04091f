-- ===== src/RootTxn/Prepare.antt =====
-- `apply` up to the mutation: the backup and its metadata are durable before a state is.
use rill_xray_agent.Prelude.{
  ℕ, ◌+◌, ◌==◌, String, ◌≡◌, refl, ap, Bool, false, not, Option, none, some,
}
use rill_xray_agent.RootTxn.World.{
  World, WorkDir, empty_dir, Env, Metadata, Request, Ending, Callbacks, prepared, at_prepared,
  at_pre_verify,
}
use rill_xray_agent.RootTxn.Steps.{M, write, state, generation_of}
use rill_xray_agent.RootTxn.Apply.{
  is_some, make_backup, metadata_of, prepare, write_candidate, pre_verify, apply_new, apply,
}
use rill_xray_agent.RootTxn.Triples.{
  Run, Run-pure, Run-raise, Run-gets, Run-catch, Run-bind, Run-seq, Run-write, Run-if, Run-weaken,
  Run-know,
}
use rill_xray_agent.RootTxn.Mutation.{IsAccepted, Keeps, Keeps-write, Keeps-fault, Keeps-call_host}
use rill_xray_agent.RootTxn.Restore.{Restored, Restored-host}
use rill_xray_agent.RootTxn.Safe.{untouched, active, undoable, IsUntouched}
use rill_xray_agent.RootTxn.Atomic.{Safe}
use rill_xray_agent.RootTxn.Attempt.{Replied, Run-decide}

-- The work directory was just made, beside the managed file and the generation.
pub record IsFresh {H : Type 0} (orig : Option String) (old : ℕ) (w : World H) : Type 0 where
  pub work : w.work ≡ empty_dir
  pub managed : w.managed ≡ orig
  pub generation : generation_of w.generation ≡ old

-- what the metadata of the backup say
abbrev expected : Env → Option String → ℕ → Metadata
expected env orig old = record {
  managed_existed = is_some orig;
  backup_sha256 = elim orig [ none ↦ none | some c ↦ some (env.sha256 c) ];
  old_generation = old;
  new_generation = old + 1;
}

module _ {H : Type 0} (env : Env) (cb : Callbacks H) (request : Request) (old : ℕ)
    (orig : Option String) where
  abbrev S : World H → Type 0
  S = Safe env (IsAccepted cb) orig old request

  -- untouched, with more and more of what a rollback needs
  abbrev Bare : World H → Type 0
  Bare w = IsUntouched orig old w × (w.work.backup ≡ none)

  abbrev BackedUp : World H → Type 0
  BackedUp w = IsUntouched orig old w × (w.work.backup ≡ orig)

  abbrev Described : World H → Type 0
  Described w = BackedUp w × (w.work.metadata ≡ some (expected env orig old))

  abbrev Recorded : World H → Type 0
  Recorded w = Described w × (w.work.request ≡ some request)

  Fresh-Bare : (w : World H) → IsFresh orig old w → Bare w
  Fresh-Bare w f =
      let e = f.work in
      (
        record {
          no_bundle = ap (λ (d : WorkDir). d.bundle) e;
          no_state = ap (λ (d : WorkDir). d.state) e;
          managed = f.managed;
          generation = f.generation;
        },
        ap (λ (d : WorkDir). d.backup) e,
      )

  -- a file of the work directory is written, neither the bundle nor the state
  still :
      (w : World H) (d : WorkDir) (n : ℕ)
      → d.bundle ≡ none
      → d.state ≡ none
      → IsUntouched orig old w
      → IsUntouched orig old (record w { work = d; life = n })
  still w d n b s u = record {
    no_bundle = b;
    no_state = s;
    managed = u.managed;
    generation = u.generation;
  }

  Run-describe :
      Run BackedUp
        (write (λ w. record w { work = record w.work { metadata = some (expected env orig old) } }))
        (λ _. Described)
        S
        S
  Run-describe =
      Run-write _ (λ w p e. untouched p.0)
        λ w n p e. ((still w _ n p.0.no_bundle p.0.no_state p.0, p.1), refl)

  Run-record :
      Run Described
        (write (λ w. record w { work = record w.work { request = some request } }))
        (λ _. Recorded)
        S
        S
  Run-record =
      Run-write _ (λ w p e. untouched p.0.0)
        λ w n p e. (((still w _ n p.0.0.no_bundle p.0.0.no_state p.0.0, p.0.1), p.1), refl)

  Run-prepared :
      Run Recorded (state prepared none) (λ _. Restored env (IsAccepted cb) orig old request) S S
  unfolding state
  Run-prepared =
      Run-write _ (λ w p e. untouched p.0.0.0)
        λ w n p e. record {
          undoable = record {
            no_bundle = p.0.0.0.no_bundle;
            state = record { state = prepared; commit_sha256 = none };
            state_is = refl;
            generation = p.0.0.0.generation;
            records = record {
              metadata = expected env orig old;
              metadata_is = p.0.1;
              existed = refl;
              old_is = refl;
              request_is = p.1;
              backup_is = p.0.0.1;
            };
          };
          managed = p.0.0.0.managed;
        }

module _ {H : Type 0} (env : Env) (cb : Callbacks H) (request : Request) (old : ℕ) where
  Run-make_backup :
      (orig : Option String)
      → Run {H = H}
          (Bare env cb request old orig)
          (make_backup env)
          (λ _. BackedUp env cb request old orig)
          (S env cb request old orig)
          (S env cb request old orig)
  unfolding make_backup
  Run-make_backup none =
      Run-know (λ w. w.managed) none _ (λ w p. p.0.managed)
        (Run-know (λ w. w.work.backup) none _ (λ w p. p.1) (Run-pure tt (λ w p. p)))
  Run-make_backup (some c) =
      Run-know (λ w. w.managed) (some c) _ (λ w p. p.0.managed)
        (Run-know (λ w. w.work.backup) none _ (λ w p. p.1)
          (Run-seq _ _
            (Run-write {Q = λ _. IsUntouched (some c) old} _ (λ w p e. untouched p.0)
              (λ w n p e. still env cb request old (some c) w _ n p.0.no_bundle p.0.no_state p.0))
            λ _.
              Run-write _ (λ w p e. untouched p)
                λ w n p e.
                  (still env cb request old (some c) w _ n p.no_bundle p.no_state p, refl)))

  metadata_lem :
      (orig : Option String) (w : World H)
      → BackedUp env cb request old orig w
      → metadata_of env w old ≡ expected env orig old
  unfolding metadata_of
  metadata_lem none w p = let m = p.0.managed in rw m refl
  metadata_lem (some c) w p = let m = p.0.managed in let b = p.1 in rw (m, b) refl

module _ {H : Type 0} (env : Env) (cb : Callbacks H) (request : Request) (old : ℕ)
    (orig : Option String) where
  abbrev R : World H → Type 0
  R = Restored env (IsAccepted cb) orig old request

  safely :
      {m : M H (Unit {0})}
      → Keeps R m
      → Run R m (λ _. R) (S env cb request old orig) (S env cb request old orig)
  safely {m} keeps =
      Run-weaken m (λ w r. r) (λ a w r. r) (λ w r. active (undoable r.undoable))
        (λ w r. active (undoable r.undoable)) keeps

  Run-prepare :
      Run
        (Bare env cb request old orig)
        (prepare env request old)
        (λ _. R)
        (S env cb request old orig)
        (S env cb request old orig)
  unfolding prepare
  Run-prepare = Run-seq _ _ (Run-make_backup env cb request old orig) λ _.
      Run-know (λ w. metadata_of env w old) (expected env orig old) _
        (metadata_lem env cb request old orig)
        (Run-seq _ _ (Run-describe env cb request old orig) λ _.
          Run-seq _ _ (Run-record env cb request old orig) λ _.
            Run-seq _ _ (Run-prepared env cb request old orig)
              λ _. safely (Keeps-fault env at_prepared))

  -- the candidate is not a file that the rollback reads
  Run-write_candidate :
      (bytes : Option String)
      → Run R
          (write_candidate bytes)
          (λ _. R)
          (S env cb request old orig)
          (S env cb request old orig)
  unfolding write_candidate
  Run-write_candidate none = Run-pure tt (λ w r. r)
  Run-write_candidate (some c) = safely (
      Keeps-write _ λ w n r. record {
        undoable = record {
          no_bundle = r.undoable.no_bundle;
          state = r.undoable.state;
          state_is = r.undoable.state_is;
          generation = r.undoable.generation;
          records = record {
            metadata = r.undoable.records.metadata;
            metadata_is = r.undoable.records.metadata_is;
            existed = r.undoable.records.existed;
            old_is = r.undoable.records.old_is;
            request_is = r.undoable.records.request_is;
            backup_is = r.undoable.records.backup_is;
          };
        };
        managed = r.managed;
      })

  -- a failed test removes the directory: nothing was done
  Run-pre_verify :
      (check : Option (H → Option String → Ending Bool × H))
      → Run R (pre_verify check) (λ _. R) (S env cb request old orig) (S env cb request old orig)
  unfolding pre_verify
  Run-pre_verify none = Run-pure tt (λ w r. r)
  Run-pre_verify (some check) = Run-bind _ _ (Run-gets (λ w. w.work.candidate)) λ candidate.
      Run-bind _ _
        (Run-weaken {R = R} {D = R} _ (λ w p. p.0) (λ a w r. r)
          (λ w r. active (undoable r.undoable)) (λ w r. active (undoable r.undoable))
          (Run-catch _ _
            (Keeps-call_host (λ h _. check h candidate)
              (Restored-host env (IsAccepted cb) orig old request))
            (Run-pure false (λ w r. r))))
        λ passed.
          Run-if passed _ _ (λ e. Run-pure tt (λ w r. r))
            λ e.
              Run-seq _ _
                (Run-write {Q = λ _. IsUntouched orig old} _ (λ w r e. active (undoable r.undoable))
                  λ w n r e. record {
                    no_bundle = refl;
                    no_state = refl;
                    managed = r.managed;
                    generation = r.undoable.generation;
                  })
                λ _. Run-raise (λ w u. untouched u)

  -- `apply` on a work directory that was just made
  pub Run-apply :
      Run
        (IsFresh orig old)
        (apply env cb request)
        (Replied env cb orig old request)
        (S env cb request old orig)
        (S env cb request old orig)
  unfolding apply apply_new
  Run-apply =
      Run-if (not (env.valid_id request.recommendation_id)) _ _ (λ e. Run-raise fresh_safe)
        λ e.
          Run-know (λ w. w.work.bundle) none _ (λ w f. ap (λ (d : WorkDir). d.bundle) f.work)
            (Run-know (λ w. generation_of w.generation) old _ (λ w f. f.generation)
              (Run-know (λ w. is_some w.managed) (is_some orig) _ (λ w f. ap is_some f.managed)
                (Run-if (not (old == request.configuration_generation)) _ _
                  (λ e. Run-raise fresh_safe)
                  λ e.
                    Run-seq _ _
                      (Run-weaken _ (Fresh-Bare env cb request old orig) (λ a w r. r) (λ w s. s)
                        (λ w s. s) Run-prepare)
                      λ _. Run-seq _ _ (Run-write_candidate cb.candidate_bytes) λ _.
                        Run-seq _ _ (Run-pre_verify cb.pre_verify_fn) λ _.
                          Run-seq _ _ (safely (Keeps-fault env at_pre_verify)) λ _.
                            Run-weaken _ (λ w r. r.undoable) (λ a w r. r) (λ w s. s) (λ w s. s)
                              (Run-decide env cb orig old request))))
    where
      fresh_safe : (w : World H) → IsFresh orig old w → S env cb request old orig w
      fresh_safe w f = untouched (Fresh-Bare env cb request old orig w f).0
