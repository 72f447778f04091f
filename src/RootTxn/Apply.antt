-- ===== src/RootTxn/Apply.antt =====
-- `RootTransaction.apply` and `_rollback`.
use rill_xray_agent.Prelude.{
  ℕ, ◌+◌, ◌==◌, String, Bool, true, false, not, Option, none, some, str_eq, if◌then◌else◌,
}
use rill_xray_agent.RootTxn.World.{
  Request, prepared, applying, applied, verified, commit_intent, rollback_intent, committed,
  rolled_back, rollback_unverified, Metadata, Bundle, empty_dir, World, at_prepared, at_pre_verify,
  at_applying, at_managed_mutation, at_applied, at_verified, at_commit_intent, at_rollback_intent,
  at_managed_restore, at_generation_restore, at_rollback_bundle, at_terminal, at_commit_bundle, Env,
  Ending, Callbacks,
}
use rill_xray_agent.RootTxn.Steps.{
  M, ◌>>=◌, ◌>>◌, pure, raise, catch, gets, or_raise, write, fault, call_host, set_work, state,
  generation_of, write_generation, build_bundle, write_bundle, materialize_artifacts, materialize,
  Reply,
}

abbrev pub is_some {ℓ} : {A : Type ℓ} → Option A → Bool
is_some none = false
is_some (some _) = true

-- `restart is not None and not restart()` raises
unfoldable pub require_restart :
    {H : Type 0} → Option (H → Option String → Ending Bool × H) → M H (Unit {0})
require_restart none = pure tt
require_restart (some restart) = do up ← call_host restart; if up then pure tt else raise

-- `if hook is not None: hook()`
unfoldable pub run_hook : {H : Type 0} → Option (H → Ending (Unit {0}) × H) → M H (Unit {0})
run_hook none = pure tt
run_hook (some hook) = call_host (λ h _. hook h)

-- `atomic_write_bytes(managed, backup.read_bytes())`, or `managed.unlink()`
unfoldable pub restore : {H : Type 0} → Bool → M H (Unit {0})
restore true = do
  found ← gets (λ w. w.work.backup)
  content ← or_raise found
  write (λ w. record w { managed = some content })
restore false = do
  present ← gets (λ w. is_some w.managed)
  if present then write (λ w. record w { managed = none }) else pure tt

-- the managed file and the backup are there and have the same hash
unfoldable pub same_content : Env → Option String → Option String → Bool
same_content env (some a) (some b) = str_eq (env.sha256 a) (env.sha256 b)
same_content env _ _ = false

-- `if existed and (not backup.is_file() or file_sha256(managed) != file_sha256(backup))` raises
unfoldable pub check_restore : {H : Type 0} → Env → Bool → M H (Unit {0})
unfolding same_content
check_restore env false = pure tt
check_restore env true = do
  same ← gets (λ w. same_content env w.managed w.work.backup)
  if same then pure tt else raise

-- the rollback bundle, its artifacts and the terminal state
unfoldable pub finish_rollback : {H : Type 0} → Env → ℕ → M H Bundle
finish_rollback env old = do
  found ← gets (λ w. w.work.request)
  request ← or_raise found
  let b = build_bundle env request.recommendation_id request old rolled_back "rolledBack"
  write_bundle b
  fault env at_rollback_bundle
  materialize_artifacts env b
  state rolled_back (some b.commit_sha256)
  pure b

-- the body of the `try` of `_rollback`
unfoldable pub rollback_body : {H : Type 0} → Env → Callbacks H → Bool → ℕ → M H Reply
rollback_body env cb existed old = do
  restore existed
  fault env at_managed_restore
  require_restart cb.restart_fn
  write_generation old
  fault env at_generation_restore
  check_restore env existed
  run_hook cb.rollback_hook
  b ← finish_rollback env old
  fault env at_terminal
  pure (record { status = rolled_back; result = b.base.result; receipt = b.base.receipt })

-- `try: self.state(w, 'rollbackUnverified') except Exception: pass`
unfoldable pub mark_unverified : {H : Type 0} → M H (Unit {0})
mark_unverified = catch (state rollback_unverified none) (pure tt)

-- `_rollback`
unfoldable pub rollback : {H : Type 0} → Env → Callbacks H → Bool → ℕ → M H Reply
rollback env cb existed old = do
  state rollback_intent none
  fault env at_rollback_intent
  catch (rollback_body env cb existed old) (do mark_unverified; raise)

-- `shutil.copy2`, which is not atomic, where there is no backup yet
unfoldable pub make_backup : {H : Type 0} → Env → M H (Unit {0})
make_backup env = do
  content ← gets (λ w. w.managed)
  backup ← gets (λ w. w.work.backup)
  elim content [
    | none ↦ pure tt
    | some c ↦ elim backup [
      | some _ ↦ pure tt
      | none ↦ do
        write (set_work (λ d. record d { backup = some (env.torn c) }))
        write (set_work (λ d. record d { backup = some c }))
    ]
  ]

unfoldable pub metadata_of : {H : Type 0} → Env → World H → ℕ → Metadata
metadata_of env w old = record {
  managed_existed = is_some w.managed;
  backup_sha256 = elim w.managed [
    | none ↦ none
    | some _ ↦ elim w.work.backup [ none ↦ none | some c ↦ some (env.sha256 c) ]
  ];
  old_generation = old;
  new_generation = old + 1;
}

-- from the backup to the state `prepared`
unfoldable pub prepare : {H : Type 0} → Env → Request → ℕ → M H (Unit {0})
prepare env request old = do
  make_backup env
  meta ← gets (λ w. metadata_of env w old)
  write (set_work (λ d. record d { metadata = some meta }))
  write (set_work (λ d. record d { request = some request }))
  state prepared none
  fault env at_prepared

-- the candidate is written
unfoldable pub write_candidate : {H : Type 0} → Option String → M H (Unit {0})
write_candidate none = pure tt
write_candidate (some c) = write (set_work (λ d. record d { candidate = some c }))

-- `pre_verify_fn`, whose exceptions are a failed test, and the removal of the work directory, which
-- is taken for one step
unfoldable pub pre_verify :
    {H : Type 0} → Option (H → Option String → Ending Bool × H) → M H (Unit {0})
pre_verify none = pure tt
pre_verify (some check) = do
  candidate ← gets (λ w. w.work.candidate)
  passed ← catch (call_host (λ h _. check h candidate)) (pure false)
  if passed then pure tt else (do write (set_work (λ _. empty_dir)); raise)

unfoldable pub call_apply :
    {H : Type 0} → (H → Option String → Ending (Unit {0}) × H × Option String) → M H (Unit {0})
call_apply f w = let (r, h, m) = f w.host w.managed in (r, record w { host = h; managed = m })

unfoldable pub require_verified :
    {H : Type 0} → (H → Option String → Ending Bool × H) → M H (Unit {0})
require_verified verify = do fits ← call_host verify; if fits then pure tt else raise

-- the body of the `try` of `apply`
unfoldable pub mutate : {H : Type 0} → Env → Callbacks H → M H (Unit {0})
mutate env cb = do
  state applying none
  fault env at_applying
  call_apply cb.apply_fn
  fault env at_managed_mutation
  require_restart cb.restart_fn
  state applied none
  fault env at_applied
  require_verified cb.verify_fn
  state verified none
  fault env at_verified
  state commit_intent none
  fault env at_commit_intent
  run_hook cb.commit_hook

-- what comes after the `try`
unfoldable pub commit : {H : Type 0} → Env → Request → ℕ → M H Reply
commit env request old = do
  write_bundle (build_bundle env request.recommendation_id request old committed "success")
  fault env at_commit_bundle
  materialize env

-- whether `mutate` raised
unfoldable pub attempt : {H : Type 0} → M H (Unit {0}) → M H Bool
attempt m = catch (do m; pure true) (pure false)

-- `apply` under its lock, on a work directory without a bundle
unfoldable pub apply_new : {H : Type 0} → Env → Callbacks H → Request → M H Reply
apply_new env cb request = do
  old ← gets (λ w. generation_of w.generation)
  existed ← gets (λ w. is_some w.managed)
  (if not (old == request.configuration_generation) then raise else (do
    prepare env request old
    write_candidate cb.candidate_bytes
    pre_verify cb.pre_verify_fn
    fault env at_pre_verify
    done ← attempt (mutate env cb)
    if done then commit env request old else rollback env cb existed old))

-- `apply`
unfoldable pub apply : {H : Type 0} → Env → Callbacks H → Request → M H Reply
apply env cb request = if not (env.valid_id request.recommendation_id) then raise else (do
  existing ← gets (λ w. w.work.bundle)
  if is_some existing then materialize env else apply_new env cb request)
