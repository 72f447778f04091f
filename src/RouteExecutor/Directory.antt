-- ===== src/RouteExecutor/Directory.antt =====
-- The transactions of the executor, where the root has one work directory.
use rill_xray_agent.Prelude.{ℕ, String, Bool, Option, none, some, [], ◌∷◌}
use rill_xray_agent.RootTxn.World.{World, Env, Ending}
use rill_xray_agent.RootTxn.Recover.{recover_one}
use rill_xray_agent.RootTxn.Scan.{report_of, state_name}
use rill_xray_agent.RouteExecutor.Gates.{Transactions}

-- `generation()` of the transactions
abbrev generation_of : Option ℕ → ℕ
generation_of none = 0
generation_of (some n) = n

-- `recover_all` of one directory; an exception of it is dropped.
unfoldable pub one_directory :
    {H : Type 0} → Env → Option (H → Option String → Ending Bool × H) → Transactions (World H)
one_directory env restart = record {
  managed = λ w. w.managed;
  generation = λ w. some (generation_of w.generation);
  requires_recovery = λ w. (report_of w.work).recovery_required;
  recover_all = λ w. (recover_one env restart w).1;
  outcomes = λ w. (w.work.request, state_name w.work) ∷ [];
}
