-- ===== src/Runtime/Examples.antt =====
-- The theorem on registrations at one decision.
use rill_xray_agent.Prelude.{String, ◌≡◌, refl, false, none, List, [], ◌∷◌}
use rill_xray_agent.Prelude.Dict.{get, put}
use rill_xray_agent.Prelude.Result.{ok, err}
use rill_xray_agent.Ledger.Files.{ClosedLedger, get_hash}
use rill_xray_agent.Runtime.Decisions.{
  Identity, same_identity, RuntimeState, Digests, registered, idempotent, identity_conflict,
  entry_of, register,
}
use rill_xray_agent.Runtime.Once.{Call, registers, commits, run, register-final}

abbrev digests : Digests String
digests = record { of_id = λ s. s; of_identity = λ i. i.capability; of_result = λ s. s }

abbrev ledger : ClosedLedger
ledger = record { root = []; max_entries = none; max_bytes = none; io_error = false }

abbrev identity : Identity
identity = record {
  capability = "route";
  decision_id = "d-1";
  model_generation = 3;
  created_at_epoch_seconds = 900;
}

abbrev other_identity : Identity
other_identity = record identity { model_generation = 4 }

abbrev fresh : RuntimeState String
fresh = record { pending = []; completed = [] }

abbrev one_pending : RuntimeState String
one_pending = record fresh {
  pending =
      (
        "d-1",
        record { identity = identity; root_result = none; registered_at_epoch_seconds = 1000 },
      )
      ∷ [];
}

register_made : register digests ledger fresh identity 1000 ≡ ok (registered, one_pending)
unfolding register entry_of get put get_hash
register_made = refl

identities_differ : same_identity identity other_identity ≡ false
unfolding same_identity
identities_differ = refl

abbrev calls : List (Call String)
calls = commits "d-1" "result" ∷ registers ledger other_identity 1100 ∷ []

register-final_example :
    (register digests ledger (run digests one_pending calls) identity 2000
      ≡ ok (idempotent, run digests one_pending calls))
    × (register digests ledger (run digests one_pending calls) other_identity 2000
        ≡ err identity_conflict)
register-final_example =
    register-final digests ledger ledger fresh one_pending identity other_identity 1000 2000 calls
      register_made refl identities_differ
