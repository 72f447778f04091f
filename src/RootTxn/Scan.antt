-- ===== src/RootTxn/Scan.antt =====
-- `scan_recovery_state` for one work directory: what the runtime, which may not write there, is told.
use rill_xray_agent.Prelude.{
  ℕ, String, ◌≡◌, refl, ◌⊎◌, inl, inr, Bool, true, false, not, ◌&&◌, Option, none, some, List,
}
use rill_xray_agent.RootTxn.World.{
  TxnState, committed, rolled_back, rollback_unverified, WorkDir, World, Env, Request, Callbacks,
}
use rill_xray_agent.RootTxn.Steps.{build_bundle}
use rill_xray_agent.RootTxn.Apply.{is_some, apply}
use rill_xray_agent.RootTxn.Mutation.{IsAccepted}
use rill_xray_agent.RootTxn.Safe.{IsUntouched, IsFinished, undo_bundle, commit_bundle}
use rill_xray_agent.RootTxn.Atomic.{IsAtomic, nothing, all_undone, all_done}
use rill_xray_agent.RootTxn.Prepare.{IsFresh}
use rill_xray_agent.RootTxn.Crash.{Life, IsFavourable, recover_in, recover_all, apply-IsAtomic}

-- one entry of the list, less the name of the directory
pub record Report : Type 0 where
  pub state : Option TxnState
  pub commit_bundle : Bool
  pub result : Bool
  pub receipt : Bool
  pub safe : Bool
  pub unsafe : Bool
  pub recovery_required : Bool

-- `state in TERMINAL_STATES`
abbrev pub is_terminal : TxnState → Bool
is_terminal committed = true
is_terminal rolled_back = true
is_terminal rollback_unverified = true
is_terminal _ = false

-- `safe` and `unsafe`, where `complete` says that the bundle, the result and the receipt are there
abbrev pub classify : Option TxnState → Bool → Bool × Bool
classify none complete = (false, true)
classify (some rollback_unverified) complete = (false, true)
classify (some s) complete = (is_terminal s && complete, false)

abbrev pub state_name : WorkDir → Option TxnState
state_name d = elim d.state [ none ↦ none | some f ↦ some f.state ]

unfoldable pub report_of : WorkDir → Report
report_of d =
    let found =
      classify (state_name d) (is_some d.bundle && is_some d.result && is_some d.receipt) in
    record {
      state = state_name d;
      commit_bundle = is_some d.bundle;
      result = is_some d.result;
      receipt = is_some d.receipt;
      safe = found.0;
      unsafe = found.1;
      recovery_required = not found.0;
    }

-- a transaction that has come to its end is reported as safe
undone_lem :
    {H : Type 0} (env : Env) (old : ℕ) (request : Request) (w : World H)
    → IsFinished (undo_bundle env old request) w
    → (report_of w.work).recovery_required ≡ false
unfolding report_of build_bundle
undone_lem env old request w f =
    let b = f.bundle_is in
    let r = f.result in let c = f.receipt in let s = f.state in rw (b, r, c, s) refl

done_lem :
    {H : Type 0} (env : Env) (old : ℕ) (request : Request) (w : World H)
    → IsFinished (commit_bundle env old request) w
    → (report_of w.work).recovery_required ≡ false
unfolding report_of build_bundle
done_lem env old request w f =
    let b = f.bundle_is in
    let r = f.result in let c = f.receipt in let s = f.state in rw (b, r, c, s) refl

-- Kill `apply` on a fresh work directory and recoveries after it at any point, and let one recovery
-- finish, without faults and with a service that restarts: the scan then asks for no recovery, unless
-- the transaction is not begun.
pub report-recovered :
    {H : Type 0} (env : Env) (cb : Callbacks H) (request : Request) (orig : Option String) (old : ℕ)
    → (w : World H) → IsFresh orig old w
    → (lives : List (Life H)) (last : Life H) → IsFavourable last
    → let end = recover_in env last (recover_all env lives (apply env cb request w).1) in
      ((report_of end.work).recovery_required ≡ false) ⊎ IsUntouched orig old end
report-recovered {H} env cb request orig old w fresh lives last good =
    by_case _ (apply-IsAtomic env cb request orig old w fresh lives last good)
  where
    by_case :
        (v : World H)
        → IsAtomic env (IsAccepted cb) orig old request v
        → ((report_of v.work).recovery_required ≡ false) ⊎ IsUntouched orig old v
    by_case v (nothing u) = inr u
    by_case v (all_undone u) = inl (undone_lem env old request v u.0)
    by_case v (all_done d) = inl (done_lem env old request v d.0)
