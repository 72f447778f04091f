-- ===== src/Operation/Examples.antt =====
-- The theorem on the recovery of an operation that was cut short after its state was written.
use rill_xray_agent.Prelude.{◌≡◌, refl, true, false, none, some, [], ◌∷◌}
use rill_xray_agent.Prelude.Dict.{get, put}
use rill_xray_agent.Json.{null}
use rill_xray_agent.Audit.Log as Log
use rill_xray_agent.Audit.Log.{Event, genesis, contains}
use rill_xray_agent.Ledger.Files.{Tombstone, append, get_hash, put_hashed}
use rill_xray_agent.Operation.Recover.{
  Intent, Site, Setting, recovered, cancelled, heal_ledger, ledger_applied, commit_event,
  commit_missing, finish, finish_healed, heal_and_finish, cancel, recover_one,
}
use rill_xray_agent.Operation.Converges.{IsReported, recover_one-IsReported}

abbrev setting : Setting
setting = record {
  size = λ _. 200;
  line_len = λ _. 100;
  limits = record { segment_bytes = 150; total_bytes = 1000 };
  io_error = false;
  fail_after_event = false;
}

abbrev event : Event
event = record {
  body = record {
    sequence = 1;
    event_type = "closed";
    timestamp_epoch_seconds = 1000;
    actor_type = "system";
    actor_id = "runtime";
    details = null;
    previous_event_hash = genesis;
  };
  event_hash = "event";
}

abbrev mutation : Tombstone
mutation = record {
  decision_id_hash = "d";
  identity_hash = "i";
  payload_hash = "p";
  closed_at_epoch_seconds = 1000;
  capability = none;
  model_generation = none;
}

abbrev intent : Intent
intent = record {
  pre_state_sha256 = "before";
  post_state_sha256 = "after";
  mutations = mutation ∷ [];
  event = some event;
}

abbrev site : Site
site = record {
  state_sha256 = "after";
  ledger = record { root = []; max_entries = none; max_bytes = none; io_error = false };
  audit = some (record { segments = []; head = none; intent = some event });
  terminal = false;
  intent = true;
}

-- the operation is completed; a state that is still that of before is given up
completed : (recover_one setting intent site).0 ≡ recovered
unfolding recover_one heal_and_finish finish_healed heal_ledger ledger_applied commit_missing
    commit_event finish put_hashed append get put contains Log.commit_event Log.commit_until
    get_hash Log.ensure_line Log.append_segment Log.place Log.drop_stale Log.drop_intent
    Log.write_head
completed = refl

given_up : (recover_one setting intent (record site { state_sha256 = "before" })).0 ≡ cancelled
unfolding recover_one ledger_applied cancel get_hash get
given_up = refl

recover_one-IsReported_example :
    IsReported setting intent site
      (recover_one setting intent site).0
      (recover_one setting intent site).1
recover_one-IsReported_example = recover_one-IsReported setting intent site
