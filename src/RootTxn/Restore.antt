-- ===== src/RootTxn/Restore.antt =====
-- From an undoable transaction to the rollback's bundle: the steps that the rollback and the recovery
-- share.
use rill_xray_agent.Prelude.{ℕ, suc, String, ◌≡◌, refl, Bool, true, Option, none, some, eq_refl}
use rill_xray_agent.RootTxn.World.{World, Env, Request, rolled_back}
use rill_xray_agent.RootTxn.Steps.{◌>>◌, state, build_bundle, write_bundle, materialize_artifacts}
use rill_xray_agent.RootTxn.Apply.{is_some, same_content, check_restore}
use rill_xray_agent.RootTxn.Triples.{Run, Run-pure, Run-seq, Run-weaken, Run-know}
use rill_xray_agent.RootTxn.Mutation.{HostFree, U, U-with}
use rill_xray_agent.RootTxn.Budget.{Budget, Unless, Quiet, Run-spend, Unless-map}
use rill_xray_agent.RootTxn.Finish.{Held, Settled, Run-artifacts, Run-terminal}
use rill_xray_agent.RootTxn.Safe.{IsActive, undoable, undone, IsRestored, undo_bundle}

-- the managed file is the original one
abbrev pub Original : Option String → Option String → Type 0
Original orig m = m ≡ orig

module _ {H : Type 0} (env : Env) (accepted : Option String → Type 0) (orig : Option String)
    (old : ℕ) (request : Request) where
  abbrev pub Active : World H → Type 0
  Active w = IsActive orig old w accepted env request

  abbrev pub Restored : World H → Type 0
  Restored w = IsRestored orig old w request

  pub U-Active : (w : World H) → U orig old request w → Active w
  U-Active w u = undoable u

  pub Restored-Active : (w : World H) → Restored w → Active w
  Restored-Active w r = undoable r.undoable

  pub Held-Active :
      (w : World H) → Held env (Original orig) (undo_bundle env old request) w → Active w
  Held-Active w h = undone (record { bundle_is = h.0; managed = h.1 })

  pub Restored-host : HostFree Restored
  Restored-host w h r = record {
    undoable = U-with orig old request w w.managed h w.life r.undoable;
    managed = r.managed;
  }

  -- the managed file gets the content of the backup
  pub put_back :
      (w : World H) (m : ℕ)
      → U orig old request w
      → Restored (record w { managed = orig; life = m })
  put_back w m u = record { undoable = U-with orig old request w orig w.host m u; managed = refl }

  -- the old generation is written
  pub regenerate :
      (w : World H) (m : ℕ) → Restored w → Restored (record w { generation = some old; life = m })
  regenerate w m r = record {
    undoable = record {
      no_bundle = r.undoable.no_bundle;
      state = r.undoable.state;
      state_is = r.undoable.state_is;
      generation = refl;
      records = record {
        metadata = r.undoable.records.metadata;
        metadata_is = r.undoable.records.metadata_is;
        existed = r.undoable.records.existed;
        old_is = r.undoable.records.old_is;
        request_is = r.undoable.records.request_is;
        backup_is = r.undoable.records.backup_is;
      };
    };
    managed = r.managed;
  }

  -- a bundle is written where there was none
  pub Run-undo_bundle :
      (enough : Bool) (n : ℕ)
      → Run
          (λ w. Restored w × Budget enough (suc n) w)
          (write_bundle (undo_bundle env old request))
          (λ _ w. Held env (Original orig) (undo_bundle env old request) w × Budget enough n w)
          (Unless enough Active)
          (Unless enough Active)
  unfolding write_bundle
  Run-undo_bundle enough n =
      Run-spend enough Restored-Active {J = Held env (Original orig) (undo_bundle env old request)}
        n _ λ w m r. ((refl, r.managed), refl)

  -- the artifacts and the terminal state of the rollback
  pub Run-settle_rollback :
      (enough : Bool) (n : ℕ)
      → Quiet enough env
      → Run
          (λ w.
            Held env (Original orig) (undo_bundle env old request) w
            × Budget enough (suc (suc (suc (suc (suc n))))) w)
          (do
            materialize_artifacts env (undo_bundle env old request)
            state rolled_back (some (undo_bundle env old request).commit_sha256))
          (λ _ w. Settled env (Original orig) (undo_bundle env old request) w × Budget enough n w)
          (Unless enough Active)
          (Unless enough Active)
  unfolding build_bundle
  Run-settle_rollback enough n quiet =
      let b = undo_bundle env old request in
      Run-weaken _ (λ w p. p) (λ a w q. q) (Unless-map enough Held-Active)
        (Unless-map enough Held-Active)
        (Run-seq _ _ (Run-artifacts env (Original orig) b enough (suc n) quiet)
          λ _. Run-terminal env (Original orig) b enough n)

module _ {H : Type 0} (env : Env) (accepted : Option String → Type 0) (old : ℕ) (request : Request)
    (enough : Bool) (n : ℕ) where
  -- `check_restore` of a managed file that was put back
  pub Run-check_restore :
      (orig : Option String) (R D : World H → Type 0)
      → Run
          (λ w. Restored env accepted orig old request w × Budget enough n w)
          (check_restore env (is_some orig))
          (λ _ w. Restored env accepted orig old request w × Budget enough n w)
          R
          D
  unfolding check_restore
  Run-check_restore none R D = Run-pure tt (λ w p. p)
  Run-check_restore (some c) R D =
      Run-know _ true _
        (λ w p.
          unfold same_content in
          (let m = p.0.managed in
            let k = p.0.undoable.records.backup_is in rw (m, k) (eq_refl (env.sha256 c))))
        (Run-pure tt (λ w p. p))
