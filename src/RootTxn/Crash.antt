-- ===== src/RootTxn/Crash.antt =====
-- A transaction that is killed anywhere, and recoveries that may be killed as well.
use rill_xray_agent.Prelude.{ℕ, ◌≤◌, String, ◌≡◌, Bool, true, false, Option, List, [], ◌∷◌}
use rill_xray_agent.RootTxn.World.{
  World, Env, Request, Ending, returned, raised, died, Callbacks, Point,
}
use rill_xray_agent.RootTxn.Steps.{auto_outcome_id_for, build_bundle, Reply}
use rill_xray_agent.RootTxn.Apply.{apply}
use rill_xray_agent.RootTxn.Recover.{recover_one}
use rill_xray_agent.RootTxn.Triples.{Ends}
use rill_xray_agent.RootTxn.Budget.{RestartsUp}
use rill_xray_agent.RootTxn.Safe.{untouched, active, undoable, undone, committing}
use rill_xray_agent.RootTxn.Atomic.{
  Safe, IsAtomic, nothing, all_undone, all_done, undo-Held, commit-Held, Run-recover_one,
}
use rill_xray_agent.RootTxn.Mutation.{IsAccepted}
use rill_xray_agent.RootTxn.Attempt.{Replied, was_committed, was_rolled_back}
use rill_xray_agent.RootTxn.Prepare.{IsFresh, Run-apply}

-- One life of the process: after how many durable writes it is killed, which faults are injected,
-- and how the service restarts.
pub record Life (H : Type 0) : Type 0 where
  pub writes : ℕ
  pub faults : Point → Bool
  pub restart : Option (H → Option String → Ending Bool × H)

abbrev pub with_faults : Env → (Point → Bool) → Env
with_faults env f = record env { faults = f }

-- `recover_one` in a new process, and what it leaves on disk
unfoldable pub recover_in : {H : Type 0} → Env → Life H → World H → World H
recover_in env a w =
    (recover_one (with_faults env a.faults) a.restart (record w { life = a.writes })).1

-- recoveries in one process after another
unfoldable pub recover_all : {H : Type 0} → Env → List (Life H) → World H → World H
recover_all env [] w = w
recover_all env (a ∷ lives) w = recover_all env lives (recover_in env a w)

-- A process that lives long enough to recover one directory, injects no fault, and whose service
-- restarts. One recovery takes at most eight durable writes.
pub record IsFavourable {H : Type 0} (a : Life H) : Type 0 where
  pub long : 8 ≤ a.writes
  pub quiet : (point : Point) → a.faults point ≡ false
  pub up : RestartsUp true a.restart

module _ {H : Type 0} (env : Env) (accepted : Option String → Type 0) (orig : Option String)
    (old : ℕ) (request : Request) where
  -- the world in which a process starts
  Safe-started :
      (f : Point → Bool) (n : ℕ) (w : World H)
      → Safe env accepted orig old request w
      → Safe (with_faults env f) accepted orig old request (record w { life = n })
  unfolding build_bundle auto_outcome_id_for
  Safe-started f n w (untouched u) = untouched (record {
    no_bundle = u.no_bundle;
    no_state = u.no_state;
    managed = u.managed;
    generation = u.generation;
  })
  Safe-started f n w (active (undoable u)) = active (
      undoable (record {
        no_bundle = u.no_bundle;
        state = u.state;
        state_is = u.state_is;
        generation = u.generation;
        records = record {
          metadata = u.records.metadata;
          metadata_is = u.records.metadata_is;
          existed = u.records.existed;
          old_is = u.records.old_is;
          request_is = u.records.request_is;
          backup_is = u.records.backup_is;
        };
      }))
  Safe-started f n w (active (undone u)) =
      active (undone (record { bundle_is = u.bundle_is; managed = u.managed }))
  Safe-started f n w (active (committing u)) =
      active (committing (record { bundle_is = u.bundle_is; managed = u.managed }))

  -- faults are not in what is on disk
  Safe-faults :
      (f : Point → Bool) (w : World H)
      → Safe (with_faults env f) accepted orig old request w
      → Safe env accepted orig old request w
  unfolding build_bundle auto_outcome_id_for
  Safe-faults f w (untouched u) = untouched u
  Safe-faults f w (active (undoable u)) = active (undoable u)
  Safe-faults f w (active (undone u)) =
      active (undone (record { bundle_is = u.bundle_is; managed = u.managed }))
  Safe-faults f w (active (committing u)) =
      active (committing (record { bundle_is = u.bundle_is; managed = u.managed }))

  -- however a call ends
  ended :
      {B : Type 0} {I : World H → Type 0} {Q : B → World H → Type 0} (r : Ending B × World H)
      → ((b : B) (w : World H) → Q b w → I w)
      → Ends Q I I r
      → I r.1
  ended (returned b, w) weaker e = weaker b w e
  ended (raised, w) weaker e = e
  ended (died, w) weaker e = e

  recover_in-Safe :
      (a : Life H) (w : World H)
      → Safe env accepted orig old request w
      → Safe env accepted orig old request (recover_in env a w)
  unfolding recover_in
  recover_in-Safe a w s =
      let e = with_faults env a.faults in
      Safe-faults a.faults _ (
        ended {I = Safe e accepted orig old request}
          (recover_one e a.restart (record w { life = a.writes })) (λ (b : Bool) w s. s)
          ((Run-recover_one e accepted orig old request false a.restart tt tt).at
            (record w { life = a.writes }) (Safe-started a.faults a.writes w s, tt)))

  recover_all-Safe :
      (lives : List (Life H)) (w : World H)
      → Safe env accepted orig old request w
      → Safe env accepted orig old request (recover_all env lives w)
  unfolding recover_all
  recover_all-Safe [] w s = s
  recover_all-Safe (a ∷ lives) w s = recover_all-Safe lives _ (recover_in-Safe a w s)

  settle :
      (f : Point → Bool) (r : Ending Bool × World H)
      → Ends (λ _. IsAtomic (with_faults env f) accepted orig old request) (λ _. ⊥) (λ _. ⊥) r
      → IsAtomic env accepted orig old request r.1
  unfolding build_bundle auto_outcome_id_for
  settle f (returned b, w) (nothing u) = nothing u
  settle f (returned b, w) (all_undone u) = all_undone (
    record {
      bundle_is = u.0.bundle_is;
      generation = u.0.generation;
      result = u.0.result;
      receipt = u.0.receipt;
      delivery = u.0.delivery;
      state = u.0.state;
    },
    u.1,
  )
  settle f (returned b, w) (all_done u) = all_done (
    record {
      bundle_is = u.0.bundle_is;
      generation = u.0.generation;
      result = u.0.result;
      receipt = u.0.receipt;
      delivery = u.0.delivery;
      state = u.0.state;
    },
    u.1,
  )
  settle f (raised, w) e = absurd e
  settle f (died, w) e = absurd e

  recover_in-IsAtomic :
      (a : Life H)
      → IsFavourable a
      → (w : World H) → Safe env accepted orig old request w
      → IsAtomic env accepted orig old request (recover_in env a w)
  unfolding recover_in
  recover_in-IsAtomic a good w s = settle a.faults _ (
      (Run-recover_one (with_faults env a.faults) accepted orig old request true a.restart
          good.quiet good.up).at
        (record w { life = a.writes }) (Safe-started a.faults a.writes w s, good.long))

-- what a reply leaves is safe
Replied-Safe :
    {H : Type 0} (env : Env) (cb : Callbacks H) (orig : Option String) (old : ℕ) (request : Request)
    → (r : Reply) (w : World H) → Replied env cb orig old request r w
    → Safe env (IsAccepted cb) orig old request w
Replied-Safe env cb orig old request r w (was_committed e d) =
    active (commit-Held env (IsAccepted cb) orig old request w (d.0.bundle_is, d.1))
Replied-Safe env cb orig old request r w (was_rolled_back e d) =
    active (undo-Held env (IsAccepted cb) orig old request w (d.0.bundle_is, d.1))

-- The reply of `apply` on a fresh work directory is true: where it says `committed`, the commit's
-- bundle, generation, result, receipt, delivery and state are all on disk and `verify_fn` has accepted
-- the managed file; where it says `rolledBack`, those of the rollback are and the managed file is the
-- original one. Wherever it raises, or the process is killed, nothing was done or a recovery has all
-- that it needs.
pub apply-replies :
    {H : Type 0} (env : Env) (cb : Callbacks H) (request : Request) (orig : Option String) (old : ℕ)
    → (w : World H) → IsFresh orig old w
    → Ends
        (Replied env cb orig old request)
        (Safe env (IsAccepted cb) orig old request)
        (Safe env (IsAccepted cb) orig old request)
        (apply env cb request w)
apply-replies env cb request orig old w fresh = (Run-apply env cb request old orig).at w fresh

-- Kill `apply` on a fresh work directory after any number of durable writes, inject any faults, let
-- the callbacks do anything, and cut short any number of recoveries in the same way: one recovery
-- that is let finish, without faults and with a service that restarts, leaves a transaction that is
-- not begun, with the managed file and the generation of before; or wholly undone, with the artifacts
-- of the rollback and the original managed file; or wholly done, with the artifacts of the commit and
-- a managed file that `verify_fn` accepts on some host.
pub apply-IsAtomic :
    {H : Type 0} (env : Env) (cb : Callbacks H) (request : Request) (orig : Option String) (old : ℕ)
    → (w : World H) → IsFresh orig old w
    → (lives : List (Life H)) (last : Life H) → IsFavourable last
    → IsAtomic env
        (IsAccepted cb)
        orig
        old
        request
        (recover_in env last (recover_all env lives (apply env cb request w).1))
apply-IsAtomic env cb request orig old w fresh lives last good =
    recover_in-IsAtomic env (IsAccepted cb) orig old request last good _ (
      recover_all-Safe env (IsAccepted cb) orig old request lives _ (
        ended env (IsAccepted cb) orig old request _ (Replied-Safe env cb orig old request)
          (apply-replies env cb request orig old w fresh)))
