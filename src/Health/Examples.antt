-- ===== src/Health/Examples.antt =====
-- The theorem on readiness at a host with two transactions.
use rill_xray_agent.Prelude.{ℕ, String, ◌≡◌, refl, true, some, List, [], ◌∷◌, All}
use rill_xray_agent.Prelude.Dict.{get, put}
use rill_xray_agent.Health.Scan.{
  Item, file, directory, bundle_integrity, empty_scan, unsafe_of, incomplete_of, add_item,
  scan_from, health,
}
use rill_xray_agent.Health.Ready.{IsSettled, ready-IsSettled}

abbrev finished : String → Item
finished s = directory (record {
  state = some s;
  bundle = some (record { hash_valid = true; terminal_state = some s });
  has_result = true;
  has_receipt = true;
})

abbrev items : List Item
items = finished "committed" ∷ file ∷ finished "rolledBack" ∷ []

is_ready : (health (scan_from true empty_scan items) true 0).ready ≡ true
unfolding health scan_from add_item unsafe_of incomplete_of bundle_integrity get put
is_ready = refl

abbrev no_pending : ℕ
no_pending = 0

ready-IsSettled_example : All (IsSettled true) items × (true ≡ true) × (no_pending ≡ 0)
ready-IsSettled_example = ready-IsSettled true items true no_pending is_ready
