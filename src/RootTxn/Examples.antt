-- ===== src/RootTxn/Examples.antt =====
-- Runs of the transaction on a small host, which counts the restarts of its service.
use rill_xray_agent.Prelude.{
  ◌⊎◌, ℕ, suc, String, ◌≡◌, refl, Bool, true, false, Option, none, some, [], ◌∷◌, arith,
}
use rill_xray_agent.RootTxn.World.{
  World, Env, Doc, of_body, of_transaction, of_base, of_outcome, Request, Ending, returned,
  Callbacks, Point, empty_dir,
}
use rill_xray_agent.RootTxn.Apply.{
  apply, apply_new, prepare, make_backup, metadata_of, write_candidate, pre_verify, attempt, mutate,
  call_apply, require_restart, require_verified, run_hook, commit, rollback, rollback_body, restore,
  check_restore, same_content, finish_rollback, mark_unverified,
}
use rill_xray_agent.RootTxn.Steps.{
  ◌>>=◌, ◌>>◌, pure, raise, catch, gets, or_raise, write, fault, call_host, state, write_generation,
  auto_outcome_id_for, build_bundle, write_bundle, materialize_artifacts, materialize,
}
use rill_xray_agent.RootTxn.Recover.{recover_managed, write_rollback, rollback_recover, recover_one}
use rill_xray_agent.RootTxn.Triples.{Ends}
use rill_xray_agent.RootTxn.Atomic.{IsAtomic, Safe}
use rill_xray_agent.RootTxn.Attempt.{Replied}
use rill_xray_agent.RootTxn.Mutation.{IsAccepted}
use rill_xray_agent.RootTxn.Prepare.{IsFresh}
use rill_xray_agent.RootTxn.Safe.{IsUntouched}
use rill_xray_agent.RootTxn.Scan.{report_of, report-recovered}
use rill_xray_agent.RootTxn.Crash.{
  Life, IsFavourable, recover_in, recover_all, apply-replies, apply-IsAtomic,
}

abbrev hash : Doc → String
hash (of_body _) = "body"
hash (of_transaction _ _) = "transaction"
hash (of_base _) = "base"
hash (of_outcome _ _ _) = "outcome"

abbrev no_fault : Point → Bool
no_fault _ = false

abbrev env : Env
env = record {
  digest = hash;
  sha256 = λ s. s;
  valid_id = λ _. true;
  now = 1000;
  faults = no_fault;
  torn = λ _. "";
}

abbrev request : Request
request = record {
  recommendation_id = "rec-1";
  configuration_generation = 4;
  request_sha256 = "request";
  apply_type = some "auto";
}

abbrev restart : ℕ → Option String → Ending Bool × ℕ
restart n _ = (returned true, suc n)

abbrev callbacks : Callbacks ℕ
callbacks = record {
  apply_fn = λ n _. (returned tt, n, some "new");
  verify_fn = λ n _. (returned true, n);
  restart_fn = some restart;
  commit_hook = none;
  rollback_hook = none;
  pre_verify_fn = none;
  candidate_bytes = none;
}

-- the process is killed after seven durable writes, with the new file in place
abbrev world : World ℕ
world = record {
  managed = some "old";
  generation = some 4;
  work = empty_dir;
  delivery = none;
  host = 0;
  life = 7;
}

world-IsFresh : IsFresh (some "old") 4 world
world-IsFresh = record { work = refl; managed = refl; generation = refl }

-- a process that is killed in the second write of its recovery, and one that lives
abbrev short_life : Life ℕ
short_life = record { writes = 1; faults = no_fault; restart = some restart }

abbrev long_life : Life ℕ
long_life = record { writes = 8; faults = no_fault; restart = some restart }

long_life-IsFavourable : IsFavourable long_life
long_life-IsFavourable = record { long = omega arith; quiet = λ point. refl; up = λ h m. refl }

-- the new file is in place when the process dies, and the old one after the recoveries
killed_managed : (apply env callbacks request world).1.managed ≡ some "new"
unfolding apply apply_new prepare make_backup metadata_of write_candidate pre_verify attempt mutate
    call_apply require_restart require_verified run_hook commit rollback rollback_body restore
    check_restore same_content finish_rollback mark_unverified ◌>>=◌ ◌>>◌ pure raise catch gets
    or_raise write fault call_host state write_generation auto_outcome_id_for build_bundle
    write_bundle materialize_artifacts materialize
killed_managed = refl

recovered_managed :
    (recover_in env long_life
      (recover_all env (short_life ∷ []) (apply env callbacks request world).1)).managed
    ≡ some "old"
unfolding apply apply_new prepare make_backup metadata_of write_candidate pre_verify attempt mutate
    call_apply require_restart require_verified run_hook commit rollback rollback_body restore
    check_restore same_content finish_rollback mark_unverified ◌>>=◌ ◌>>◌ pure raise catch gets
    or_raise write fault call_host state write_generation auto_outcome_id_for build_bundle
    write_bundle materialize_artifacts materialize recover_managed write_rollback rollback_recover
    recover_one recover_in recover_all
recovered_managed = refl

-- with a life of fourteen writes the same call commits
committed_generation :
    (apply env callbacks request (record world { life = 14 })).1.generation ≡ some 5
unfolding apply apply_new prepare make_backup metadata_of write_candidate pre_verify attempt mutate
    call_apply require_restart require_verified run_hook commit rollback rollback_body restore
    check_restore same_content finish_rollback mark_unverified ◌>>=◌ ◌>>◌ pure raise catch gets
    or_raise write fault call_host state write_generation auto_outcome_id_for build_bundle
    write_bundle materialize_artifacts materialize
committed_generation = refl

apply-replies_example :
    Ends
      (Replied env callbacks (some "old") 4 request)
      (Safe env (IsAccepted callbacks) (some "old") 4 request)
      (Safe env (IsAccepted callbacks) (some "old") 4 request)
      (apply env callbacks request (record world { life = 40 }))
apply-replies_example =
    apply-replies env callbacks request (some "old") 4 (record world { life = 40 })
      (record { work = refl; managed = refl; generation = refl })

apply-IsAtomic_example : IsAtomic env (IsAccepted callbacks) (some "old") 4 request (
    recover_in env long_life
      (recover_all env (short_life ∷ []) (apply env callbacks request world).1))
apply-IsAtomic_example =
    apply-IsAtomic env callbacks request (some "old") 4 world world-IsFresh (short_life ∷ [])
      long_life long_life-IsFavourable

report-recovered_example :
    let end =
      recover_in env long_life
        (recover_all env (short_life ∷ []) (apply env callbacks request world).1) in
    ((report_of end.work).recovery_required ≡ false) ⊎ IsUntouched (some "old") 4 end
report-recovered_example =
    report-recovered env callbacks request (some "old") 4 world world-IsFresh (short_life ∷ [])
      long_life long_life-IsFavourable

-- the request was made for generation 4, and the host is at 5
abbrev moved_on : World ℕ
moved_on = record world { generation = some 5; life = 40 }
