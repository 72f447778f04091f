-- ===== src/Runtime/Decisions.antt =====
-- `register` and `commit_root_result`, as `transact` runs them.
use rill_xray_agent.Prelude.{ℕ, ◌==◌, String, Bool, ◌&&◌, Option, none, some, str_eq, if◌then◌else◌}
use rill_xray_agent.Prelude.Dict.{Dict, get, put}
use rill_xray_agent.Prelude.Result.{Result, ok, err}
use rill_xray_agent.Ledger.Files.{ClosedLedger, corrupt, found, get_hash}

pub record Identity : Type 0 where
  pub capability : String
  pub decision_id : String
  pub model_generation : ℕ
  pub created_at_epoch_seconds : ℕ

-- `e.get('identity') == ident`
unfoldable pub same_identity : Identity → Identity → Bool
same_identity a b =
    str_eq a.capability b.capability
    && str_eq a.decision_id b.decision_id
    && (a.model_generation == b.model_generation)
    && (a.created_at_epoch_seconds == b.created_at_epoch_seconds)

-- an entry of `pending` or `completed`; `R` is the type of results, which are objects with fields
pub record Entry (R : Type 0) : Type 0 where
  pub identity : Identity
  pub root_result : Option R
  pub registered_at_epoch_seconds : ℕ

-- the state file's two dictionaries, which `transact` copies before a call
pub record RuntimeState (R : Type 0) : Type 0 where
  pub pending : Dict (Entry R)
  pub completed : Dict (Entry R)

-- what is taken from `digest`
pub record Digests (R : Type 0) : Type 0 where
  pub of_id : String → String
  pub of_identity : Identity → String
  pub of_result : R → String

pub data Status : Type 0 where
  registered idempotent committed : Status

pub data StateError : Type 0 where
  identity_conflict ledger_corrupt unknown_pending conflicting_result : StateError

module _ {R : Type 0} (digests : Digests R) where
  abbrev pub Reply : Type 0
  Reply = Result StateError (Status × RuntimeState R)

  -- `s['pending'].get(id) or s['completed'].get(id)`
  unfoldable pub entry_of : RuntimeState R → String → Option (Entry R)
  entry_of s id = elim (get id s.pending) [ some e ↦ some e | none ↦ get id s.completed ]

  -- `register`
  unfoldable pub register : ClosedLedger → RuntimeState R → Identity → ℕ → Reply
  register ledger s ident now = elim (entry_of s ident.decision_id) [
    | some e ↦ if same_identity e.identity ident then ok (idempotent, s) else err identity_conflict
    | none ↦ elim (get_hash ledger (digests.of_id ident.decision_id)) [
      | some corrupt ↦ err ledger_corrupt
      | some (found t) ↦
          if str_eq t.identity_hash (digests.of_identity ident)
          then ok (idempotent, s)
          else err identity_conflict
      | none ↦ ok (
        registered,
        record s {
          pending =
              put ident.decision_id
                (record { identity = ident; root_result = none; registered_at_epoch_seconds = now })
                s.pending;
        },
      )
    ]
  ]

  -- `commit_root_result`
  unfoldable pub commit_root_result : RuntimeState R → String → R → Reply
  commit_root_result s did result = elim (get did s.pending) [
    | none ↦ err unknown_pending
    | some p ↦ elim p.root_result [
      | some r ↦
          if str_eq (digests.of_result r) (digests.of_result result)
          then ok (idempotent, s)
          else err conflicting_result
      | none ↦ ok (
        committed,
        record s { pending = put did (record p { root_result = some result }) s.pending },
      )
    ]
  ]

  -- the file after `transact`: a call that raises leaves it
  abbrev pub saved : RuntimeState R → Reply → RuntimeState R
  saved s (ok (_, q)) = q
  saved s (err _) = s
