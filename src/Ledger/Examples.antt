-- ===== src/Ledger/Examples.antt =====
-- The theorems on the ledger at a ledger with one tombstone.
use rill_xray_agent.Prelude.{ℕ, String, ◌≡◌, ◌≢◌, refl, true, false, none, some, List, [], ◌∷◌}
use rill_xray_agent.Prelude.Dict.{get, put}
use rill_xray_agent.Prelude.Result.{ok}
use rill_xray_agent.Ledger.Files.{
  Tombstone, TombstoneFile, stored, ClosedLedger, found, get_hash, bytes, is_same, append,
  put_hashed,
}
use rill_xray_agent.Ledger.Final.{put_all, put_all-keeps, put_hashed-get_hash}

abbrev tombstone : String → String → Tombstone
tombstone decision payload = record {
  decision_id_hash = decision;
  identity_hash = "identity";
  payload_hash = payload;
  closed_at_epoch_seconds = 1000;
  capability = some "route";
  model_generation = none;
}

abbrev size : TombstoneFile → ℕ
size _ = 200

-- room for one more
abbrev ledger : ClosedLedger
ledger = record {
  root = ("a", stored (tombstone "a" "p")) ∷ [];
  max_entries = some 2;
  max_bytes = none;
  io_error = false;
}

abbrev full : ClosedLedger
full = record ledger {
  root = ("a", stored (tombstone "a" "p")) ∷ ("b", stored (tombstone "b" "q")) ∷ [];
}

put_made : put_hashed size ledger (tombstone "b" "q") ≡ ok full
unfolding put_hashed append get put bytes
put_made = refl

a_found : get_hash ledger "a" ≡ some (found (tombstone "a" "p"))
unfolding get_hash get
a_found = refl

-- a conflict, a new decision and one too many
abbrev three : List Tombstone
three = tombstone "a" "other" ∷ tombstone "b" "q" ∷ tombstone "c" "r" ∷ []

put_all-keeps_example : get_hash (put_all size ledger three) "a" ≡ some (found (tombstone "a" "p"))
put_all-keeps_example = put_all-keeps size ledger "a" (tombstone "a" "p") three a_found

put_hashed-get_hash_example :
    ((old : Tombstone) × (get_hash full "b" ≡ some (found old))
      × (is_same old (tombstone "b" "q") ≡ true))
    × (put_hashed size full (tombstone "b" "q") ≡ ok full)
    × ((h : String) → "b" ≢ h → get_hash full h ≡ get_hash ledger h)
put_hashed-get_hash_example = put_hashed-get_hash size ledger full (tombstone "b" "q") put_made
