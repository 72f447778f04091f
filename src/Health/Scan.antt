-- ===== src/Health/Scan.antt =====
-- `scan_transactions` and `health`.
use rill_xray_agent.Prelude.{
  ℕ, ◌+◌, ◌==◌, String, Bool, true, false, not, ◌&&◌, ◌||◌, Option, none, some, List, [], ◌∷◌,
  str_eq, if◌then◌else◌,
}
use rill_xray_agent.Prelude.Dict.{Dict, get, put}

-- `commit-bundle.json` where it is JSON: whether its hash is right, and its terminal state
pub record BundleFile : Type 0 where
  pub hash_valid : Bool
  pub terminal_state : Option String

-- A work directory: the name in `state.json`, if it can be read, the bundle, if it can, and whether
-- `result.json` and `receipt.json` are there.
pub record WorkFiles : Type 0 where
  pub state : Option String
  pub bundle : Option BundleFile
  pub has_result : Bool
  pub has_receipt : Bool

-- an entry of the directory of transactions
pub data Item : Type 0 where
  file linked : Item
  directory : WorkFiles → Item

-- `_bundle_integrity`
unfoldable pub bundle_integrity : WorkFiles → Option String
bundle_integrity w = elim w.bundle [
  | none ↦ none
  | some b ↦ if b.hash_valid && w.has_result && w.has_receipt then b.terminal_state else none
]

pub record Scan : Type 0 where
  pub total : ℕ
  pub incomplete : ℕ
  pub unsafe : ℕ
  pub states : Dict ℕ

abbrev pub empty_scan : Scan
empty_scan = record { total = 0; incomplete = 0; unsafe = 0; states = [] }

abbrev pub is_terminal : String → Bool
is_terminal s =
    str_eq s "committed"
    || str_eq s "rolledBack"
    || str_eq s "rollbackUnverified"
    || str_eq s "rejected"
    || str_eq s "noChange"

abbrev pub one_if : Bool → ℕ
one_if true = 1
one_if false = 0

abbrev is_text : Option String → String → Bool
is_text none t = false
is_text (some s) t = str_eq s t

-- the bundle is not of this state, or the delivery that is asked for is missing; `delivered` is true
-- where no delivery file is asked for
abbrev pub lacks : WorkFiles → Bool → String → Bool
lacks w delivered s = not (is_text (bundle_integrity w) s) || not delivered

-- what a readable state adds to `unsafe`
unfoldable pub unsafe_of : WorkFiles → Bool → String → ℕ
unsafe_of w delivered s =
    if str_eq s "committed"
    then one_if (lacks w delivered s)
    else if str_eq s "rolledBack"
    then one_if (lacks w delivered s)
    else one_if (str_eq s "rollbackUnverified")

-- what it adds to `incomplete`
unfoldable pub incomplete_of : String → ℕ
incomplete_of s = one_if (not (is_terminal s)) + one_if (str_eq s "rollbackUnverified")

abbrev count_of : Option ℕ → ℕ
count_of none = 0
count_of (some n) = n

-- one round of the loop
unfoldable pub add_item : Bool → Item → Scan → Scan
add_item delivered file r = r
add_item delivered linked r = record r { total = r.total + 1; unsafe = r.unsafe + 1 }
add_item delivered (directory w) r = elim w.state [
  | none ↦ record r { total = r.total + 1; unsafe = r.unsafe + 1 }
  | some s ↦ record r {
    total = r.total + 1;
    incomplete = r.incomplete + incomplete_of s;
    unsafe = r.unsafe + unsafe_of w delivered s;
    states = put s (count_of (get s r.states) + 1) r.states;
  }
]

-- `scan_transactions`; no directory is no item
unfoldable pub scan_from : Bool → Scan → List Item → Scan
scan_from delivered r [] = r
scan_from delivered r (x ∷ xs) = scan_from delivered (add_item delivered x r) xs

pub data HealthReason : Type 0 where
  incomplete_or_unsafe_root_transaction rollback_unverified : HealthReason
  audit_chain_invalid unfinished_operations : HealthReason

abbrev pub reason_if : Bool → HealthReason → List HealthReason → List HealthReason
reason_if test reason rest = if test then reason ∷ rest else rest

abbrev pub is_there : Option ℕ → Bool
is_there none = false
is_there (some n) = true

-- `status` is `ready` where `reasons` is empty; `canRecommend` says the same
pub record Health : Type 0 where
  pub ready : Bool
  pub reasons : List HealthReason

abbrev no_reason : List HealthReason → Bool
no_reason [] = true
no_reason _ = false

-- `health`: `audit_valid` is whether `verify` passes, true without an audit, and `pending` is
-- `pending_count`, 0 without operations.
unfoldable pub health : Scan → Bool → ℕ → Health
health tx audit_valid pending =
    let reasons =
      reason_if (not (tx.incomplete == 0) || not (tx.unsafe == 0))
        incomplete_or_unsafe_root_transaction
        (reason_if (is_there (get "rollbackUnverified" tx.states)) rollback_unverified (
          reason_if (not audit_valid) audit_chain_invalid
            (reason_if (not (pending == 0)) unfinished_operations []))) in
    record { ready = no_reason reasons; reasons = reasons }
