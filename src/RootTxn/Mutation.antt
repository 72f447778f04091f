-- ===== src/RootTxn/Mutation.antt =====
-- The steps that leave a transaction undoable.
use rill_xray_agent.Prelude.{
  ℕ, String, ◌≡◌, refl, Bool, true, false, Option, none, some, if◌then◌else◌,
}
use rill_xray_agent.RootTxn.World.{
  Request, World, Env, TxnState, applying, applied, verified, commit_intent, at_applying,
  at_managed_mutation, at_applied, at_verified, at_commit_intent, Ending, returned, raised, died,
  Callbacks, Point,
}
use rill_xray_agent.RootTxn.Steps.{
  M, resume, ◌>>=◌, ◌>>◌, pure, raise, fault, call_host, write, state,
}
use rill_xray_agent.RootTxn.Apply.{require_restart, run_hook, call_apply, require_verified, mutate}
use rill_xray_agent.RootTxn.Triples.{
  Run, Ends, Run-pure, Run-raise, Run-bind, Run-seq, Run-write, Run-fault, Run-call_host, Run-if,
  Run-weaken,
}
use rill_xray_agent.RootTxn.Safe.{IsUndoable}

-- `m` keeps `I`, however it ends
abbrev pub Keeps : {H A : Type 0} → (World H → Type 0) → M H A → Type 0
Keeps I m = Run I m (λ _. I) I I

-- an invariant that does not look at the host
abbrev pub HostFree : {H : Type 0} → (World H → Type 0) → Type 0
HostFree {H} I = (w : World H) (h : H) → I w → I (record w { host = h })

module _ {H : Type 0} {I : World H → Type 0} where
  pub Keeps-fault : (env : Env) (point : Point) → Keeps I (fault env point)
  Keeps-fault env point = Run-fault env point (λ w h. h) (λ w h. h)

  pub Keeps-call_host :
      {A : Type 0} (f : H → Option String → Ending A × H) → HostFree I → Keeps I (call_host f)
  Keeps-call_host f free = Run-call_host f λ w h r i.
      elim r as (λ r. Ends (λ _. I) I I (r, record w { host = h })) [
        | returned a ↦ free w h i
        | raised ↦ free w h i
        | died ↦ free w h i
      ]

  pub Keeps-require_restart :
      (restart : Option (H → Option String → Ending Bool × H))
      → HostFree I
      → Keeps I (require_restart restart)
  unfolding require_restart
  Keeps-require_restart none free = Run-pure tt (λ w i. i)
  Keeps-require_restart (some restart) free =
      Run-bind (call_host restart) _ (Keeps-call_host restart free)
        λ up. Run-if up (pure tt) raise (λ _. Run-pure tt (λ w i. i)) (λ _. Run-raise (λ w i. i))

  pub Keeps-run_hook :
      (hook : Option (H → Ending (Unit {0}) × H)) → HostFree I → Keeps I (run_hook hook)
  unfolding run_hook
  Keeps-run_hook none free = Run-pure tt (λ w i. i)
  Keeps-run_hook (some hook) free = Keeps-call_host (λ h _. hook h) free

  pub Keeps-require_verified :
      (verify : H → Option String → Ending Bool × H)
      → HostFree I
      → Keeps I (require_verified verify)
  unfolding require_verified
  Keeps-require_verified verify free =
      Run-bind (call_host verify) _ (Keeps-call_host verify free)
        λ up. Run-if up (pure tt) raise (λ _. Run-pure tt (λ w i. i)) (λ _. Run-raise (λ w i. i))

  pub Keeps-write :
      (f : World H → World H)
      → ((w : World H) (n : ℕ) → I w → I (f (record w { life = n })))
      → Keeps I (write f)
  Keeps-write f k = Run-write f (λ w i e. i) (λ w n i e. k w n i)

  pub Keeps-seq : {A B : Type 0} (m : M H A) (k : M H B) → Keeps I m → Keeps I k → Keeps I (m >> k)
  Keeps-seq m k km kk = Run-seq m k km (λ _. kk)

-- `verify_fn` has accepted this managed file
pub record IsAccepted {H : Type 0} (cb : Callbacks H) (m : Option String) : Type 0 where
  pub host : H
  pub accepts : (cb.verify_fn host m).0 ≡ returned true

module _ {H : Type 0} (orig : Option String) (old : ℕ) (request : Request) where
  abbrev pub U : World H → Type 0
  U w = IsUndoable orig old w request

  -- whatever happens to the managed file and the host
  pub U-with :
      (w : World H) (m : Option String) (h : H) (n : ℕ)
      → U w
      → U (record w { managed = m; host = h; life = n })
  U-with w m h n u = record {
    no_bundle = u.no_bundle;
    state = u.state;
    state_is = u.state_is;
    generation = u.generation;
    records = record {
      metadata = u.records.metadata;
      metadata_is = u.records.metadata_is;
      existed = u.records.existed;
      old_is = u.records.old_is;
      request_is = u.records.request_is;
      backup_is = u.records.backup_is;
    };
  }

  pub U-host : HostFree U
  U-host w h u = U-with w w.managed h w.life u

  pub U-state :
      (s : TxnState) (commit : Option String) (w : World H) (n : ℕ)
      → U w
      → U (record w {
        work = record w.work { state = some (record { state = s; commit_sha256 = commit }) };
        life = n;
      })
  U-state s commit w n u = record {
    no_bundle = u.no_bundle;
    state = record { state = s; commit_sha256 = commit };
    state_is = refl;
    generation = u.generation;
    records = record {
      metadata = u.records.metadata;
      metadata_is = u.records.metadata_is;
      existed = u.records.existed;
      old_is = u.records.old_is;
      request_is = u.records.request_is;
      backup_is = u.records.backup_is;
    };
  }

  pub Keeps-state : (s : TxnState) (commit : Option String) → Keeps U (state s commit)
  unfolding state
  Keeps-state s commit = Keeps-write _ (U-state s commit)

  Keeps-call_apply :
      (f : H → Option String → Ending (Unit {0}) × H × Option String) → Keeps U (call_apply f)
  unfolding call_apply
  Keeps-call_apply f = record { at = λ w u. keep w (f w.host w.managed) u }
    where
      keep :
          (w : World H) (r : Ending (Unit {0}) × H × Option String)
          → U w
          → Ends (λ _. U) U U (r.0, record w { host = r.1; managed = r.2 })
      keep w (returned a, h, m) u = U-with w m h w.life u
      keep w (raised, h, m) u = U-with w m h w.life u
      keep w (died, h, m) u = U-with w m h w.life u

  -- undoable, and `verify_fn` accepts the managed file
  abbrev pub Verified : Callbacks H → World H → Type 0
  Verified cb w = U w × IsAccepted cb w.managed

  Verified-host : (cb : Callbacks H) → HostFree (Verified cb)
  Verified-host cb w h v = (U-host w h v.0, v.1)

  Keeps-state_checked :
      (cb : Callbacks H) (s : TxnState) (commit : Option String)
      → Keeps (Verified cb) (state s commit)
  unfolding state
  Keeps-state_checked cb s commit = Keeps-write _ (λ w n v. (U-state s commit w n v.0, v.1))

  Run-require_verified :
      (cb : Callbacks H) → Run U (require_verified cb.verify_fn) (λ _. Verified cb) U U
  unfolding require_verified call_host ◌>>=◌ pure raise
  Run-require_verified cb = record {
    at = λ w u. answer w (cb.verify_fn w.host w.managed).0 (cb.verify_fn w.host w.managed).1 u refl;
  }
    where
      answer :
          (w : World H) (r : Ending Bool) (h : H)
          → U w
          → (cb.verify_fn w.host w.managed).0 ≡ r
          → Ends
              (λ _. Verified cb)
              U
              U
              (resume (λ fits. if fits then pure tt else raise) (r, record w { host = h }))
      answer w (returned true) h u e = (U-host w h u, record { host = w.host; accepts = e })
      answer w (returned false) h u e = U-host w h u
      answer w raised h u e = U-host w h u
      answer w died h u e = U-host w h u

  -- after the verification
  Keeps-conclude :
      (env : Env) (cb : Callbacks H)
      → Keeps (Verified cb) (do
        state verified none
        fault env at_verified
        state commit_intent none
        fault env at_commit_intent
        run_hook cb.commit_hook)
  Keeps-conclude env cb =
      search (Keeps-seq, Keeps-state_checked, Keeps-fault, Keeps-run_hook, Verified-host) depth 20

  -- The body of `try` keeps the transaction undoable, whatever its callbacks do, and returns only with
  -- a managed file that was verified.
  pub Run-mutate : (env : Env) (cb : Callbacks H) → Run U (mutate env cb) (λ _. Verified cb) U U
  unfolding mutate
  Run-mutate env cb = Run-seq _ _ (Keeps-state applying none) λ _.
      Run-seq _ _ (Keeps-fault env at_applying) λ _. Run-seq _ _ (Keeps-call_apply cb.apply_fn) λ _.
        Run-seq _ _ (Keeps-fault env at_managed_mutation) λ _.
          Run-seq _ _ (Keeps-require_restart cb.restart_fn U-host) λ _.
            Run-seq _ _ (Keeps-state applied none) λ _.
              Run-seq _ _ (Keeps-fault env at_applied) λ _.
                Run-seq _ _ (Run-require_verified cb) λ _.
                  Run-weaken _ (λ w v. v) (λ a w v. v) (λ w v. v.0) (λ w v. v.0)
                    (Keeps-conclude env cb)
