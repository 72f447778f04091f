-- ===== src/Ledger/Files.antt =====
-- The files of the ledger, and the operations on them.
use rill_xray_agent.Prelude.{
  ℕ, zero, suc, ◌+◌, ◌==◌, String, Bool, true, false, not, ◌&&◌, Option, none, some, [], ◌∷◌,
  length, leb, ltb, str_eq, if◌then◌else◌,
}
use rill_xray_agent.Prelude.Dict.{Dict, get, put}
use rill_xray_agent.Prelude.Result.{Result, ok, err}

-- `tombstone`; the two last fields are there only if they were given
pub record Tombstone : Type 0 where
  pub decision_id_hash : String
  pub identity_hash : String
  pub payload_hash : String
  pub closed_at_epoch_seconds : ℕ
  pub capability : Option String
  pub model_generation : Option ℕ

-- What stands under a name: a symbolic link, a file that is no JSON object of schema version 1, or one
-- that is, with the fields that `put_hashed` writes.
pub data TombstoneFile : Type 0 where
  link damaged : TombstoneFile
  stored : Tombstone → TombstoneFile

-- `root` maps the hash in a file's name to the file. The locks and the replay window are not in it:
-- no operation reads the window. `io_error` is the fault RILL_LEDGER_IO_ERROR.
pub record ClosedLedger : Type 0 where
  pub root : Dict TombstoneFile
  pub max_entries : Option ℕ
  pub max_bytes : Option ℕ
  pub io_error : Bool

pub data Found : Type 0 where
  corrupt : Found
  found : Tombstone → Found

-- `get_hash`
unfoldable pub get_hash : ClosedLedger → String → Option Found
get_hash l h = elim (get h l.root) [
  | none ↦ none
  | some link ↦ none
  | some damaged ↦ some corrupt
  | some (stored t) ↦ some (if str_eq t.decision_id_hash h then found t else corrupt)
]

-- `_bytes`, with the size of each file
unfoldable pub bytes : (TombstoneFile → ℕ) → Dict TombstoneFile → ℕ
bytes size [] = 0
bytes size ((_, f) ∷ d) = size f + bytes size d

-- `self.max_entries and self.count() >= self.max_entries`: 0 is no limit
abbrev pub is_full : Option ℕ → ℕ → Bool
is_full none n = false
is_full (some zero) n = false
is_full (some (suc m)) n = leb (suc m) n

-- `self.max_bytes and self._bytes() + 256 > self.max_bytes`
abbrev pub is_too_large : Option ℕ → ℕ → Bool
is_too_large none n = false
is_too_large (some zero) n = false
is_too_large (some (suc m)) n = ltb (suc m) (n + 256)

-- a field of the old tombstone that is there and is not what is given
abbrev pub text_differs : Option String → Option String → Bool
text_differs none _ = false
text_differs (some a) none = true
text_differs (some a) (some b) = not (str_eq a b)

abbrev pub number_differs : Option ℕ → Option ℕ → Bool
number_differs none _ = false
number_differs (some a) none = true
number_differs (some a) (some b) = not (a == b)

-- whether `put_hashed` takes the old tombstone for the new one
unfoldable pub is_same : Tombstone → Tombstone → Bool
is_same old new =
    str_eq old.decision_id_hash new.decision_id_hash
    && str_eq old.identity_hash new.identity_hash
    && str_eq old.payload_hash new.payload_hash
    && not (text_differs old.capability new.capability)
    && not (number_differs old.model_generation new.model_generation)

-- `LedgerFullError`, by what raised it, and the ValueError of the atomic write at a symbolic link
pub data LedgerFull : Type 0 where
  io_fault conflict corrupt_entry at_max_entries at_max_bytes symlink_target : LedgerFull

-- `path.is_symlink()`
abbrev pub is_link : Option TombstoneFile → Bool
is_link (some link) = true
is_link _ = false

-- the write, if there is room and no link stands at its path
unfoldable pub append :
    (TombstoneFile → ℕ) → ClosedLedger → Tombstone → Result LedgerFull ClosedLedger
append size l t =
    if is_full l.max_entries (length l.root)
    then err at_max_entries
    else if is_too_large l.max_bytes (bytes size l.root)
    then err at_max_bytes
    else if is_link (get t.decision_id_hash l.root)
    then err symlink_target
    else ok (record l { root = put t.decision_id_hash (stored t) l.root })

-- `put_hashed`, of the tombstone that it makes of its arguments
unfoldable pub put_hashed :
    (TombstoneFile → ℕ) → ClosedLedger → Tombstone → Result LedgerFull ClosedLedger
put_hashed size l t = if l.io_error then err io_fault else elim (get t.decision_id_hash l.root) [
  | some (stored old) ↦ if is_same old t then ok l else err conflict
  | some damaged ↦ err corrupt_entry
  | some link ↦ append size l t
  | none ↦ append size l t
]
