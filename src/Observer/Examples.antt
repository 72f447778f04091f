-- ===== src/Observer/Examples.antt =====
-- The theorems on the observer at a first observation.
use rill_xray_agent.Prelude.{String, ◌≡◌, refl, Option, none, List, [], ◌∷◌}
use rill_xray_agent.Prelude.Result.{ok}
use rill_xray_agent.Json.{str, Fields, field, end}
use rill_xray_agent.RouteContract.Names.{sha_re}
use rill_xray_agent.Observer.Transition.{
  Events, Entry, are_distinct, has_transition, planned, inject, run, run_all, checkpoint_of,
  commit_transition, recover_pending_transition,
}
use rill_xray_agent.Observer.Load.{IsWellFormed}
use rill_xray_agent.Observer.Once.{settled_at}
use rill_xray_agent.Observer.Commit.{
  after_all, committed, committed_all, plan, quiet, recoveries, settled, commit_transition-once,
}
use rill_xray_agent.Observer.Repeated.{recover_pending_transition-skips}

abbrev digest : String
digest = "0123456789abcdef0123456789abcdef0123456789abcdef0123456789abcdef"

abbrev fingerprint : Fields → String
fingerprint _ = digest

abbrev event : Fields
event = field "eventType" (str "baseline") end

abbrev derive_events : Option Fields → Fields → List Fields
derive_events _ _ = event ∷ []

abbrev event_id : String → String → Fields → String
event_id _ new _ = new

abbrev ev : Events
ev = record {
  fingerprint = fingerprint;
  derive_events = derive_events;
  transition_event_id = event_id;
}

abbrev observed : Fields
observed = field "xray" (str "present") end

well : IsWellFormed (checkpoint_of ev none observed)
unfolding planned sha_re are_distinct
well = record {
  old_digest = refl;
  new_digest = refl;
  first = digest;
  others = [];
  ids_are = refl;
  id_digests = refl;
  distinct = refl;
}

commit_transition-once_example :
    (commit_transition ev none observed (quiet ev none observed []) ≡ ok (plan ev none observed []))
    × (run_all (plan ev none observed []) (quiet ev none observed []) ≡ settled ev none observed [])
    × (recoveries ev none observed [] (1 ∷ []) (quiet ev none observed [])
        ≡ quiet ev none observed [])
    × (let w =
          recoveries ev none observed []
            (1 ∷ [])
            (run 2 (plan ev none observed []) (quiet ev none observed [])) in
        after_all (recover_pending_transition ev w) w ≡ settled ev none observed [])
unfolding planned has_transition
commit_transition-once_example =
    commit_transition-once ev none observed [] well refl refl refl (refl, tt) 1 (1 ∷ [])

-- the journal after a first transition of the kind
abbrev before : List Entry
before = inject (event, digest) ∷ []

recover_pending_transition-skips_example :
    let start = quiet ev none observed before in
    let commit = commit_transition ev none observed start in
    let killed = committed 1 commit start in
    (committed_all commit start ≡ settled ev none observed before)
    × (after_all (recover_pending_transition ev killed) killed ≡ settled_at ev none observed before)
unfolding planned has_transition
recover_pending_transition-skips_example =
    recover_pending_transition-skips ev none observed before well refl refl (refl, tt)
