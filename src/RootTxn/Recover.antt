-- ===== src/RootTxn/Recover.antt =====
-- `_recover_one` and `_rollback_recover` of `RootTransaction`.
use rill_xray_agent.Prelude.{String, Bool, true, false, Option, none, some, if◌then◌else◌}
use rill_xray_agent.RootTxn.World.{rolled_back, Bundle, Env, Ending}
use rill_xray_agent.RootTxn.Steps.{
  M, ◌>>=◌, ◌>>◌, pure, catch, gets, or_raise, write, state, write_generation, build_bundle,
  write_bundle, materialize_artifacts, materialize,
}
use rill_xray_agent.RootTxn.Apply.{is_some, require_restart, check_restore, mark_unverified}

-- the restore of the recovery: without a backup the managed file stays
unfoldable pub recover_managed : {H : Type 0} → Bool → M H (Unit {0})
recover_managed true = do
  found ← gets (λ w. w.work.backup)
  elim found [ none ↦ pure tt | some c ↦ write (λ w. record w { managed = some c }) ]
recover_managed false = do
  present ← gets (λ w. is_some w.managed)
  if present then write (λ w. record w { managed = none }) else pure tt

unfoldable pub write_rollback : {H : Type 0} → Env → Bundle → M H (Unit {0})
write_rollback env b = do
  write_bundle b
  materialize_artifacts env b
  state rolled_back (some b.commit_sha256)

-- `_rollback_recover`, with the `restart_fn` of the object
unfoldable pub rollback_recover :
    {H : Type 0} → Env → Option (H → Option String → Ending Bool × H) → M H (Unit {0})
rollback_recover env restart = do
  meta_file ← gets (λ w. w.work.metadata)
  meta ← or_raise meta_file
  request_file ← gets (λ w. w.work.request)
  request ← or_raise request_file
  recover_managed meta.managed_existed
  require_restart restart
  write_generation meta.old_generation
  check_restore env meta.managed_existed
  write_rollback env (
      build_bundle env request.recommendation_id request meta.old_generation rolled_back
        "rolledBack")

-- `_recover_one`: whether the directory was acted on. Each state name is recoverable or terminal.
unfoldable pub recover_one :
    {H : Type 0} → Env → Option (H → Option String → Ending Bool × H) → M H Bool
recover_one env restart = do
  bundle ← gets (λ w. w.work.bundle)
  (if is_some bundle
      then catch (do materialize env; pure true) (do mark_unverified; pure true)
      else (do
        state_file ← gets (λ w. w.work.state)
        (if is_some state_file
            then catch (do rollback_recover env restart; pure true) (do mark_unverified; pure true)
            else pure false)))
