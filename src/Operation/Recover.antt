-- ===== src/Operation/Recover.antt =====
-- `_recover_one` of `OperationLog`, on the closed ledger and the audit log. A ledger is configured.
use rill_xray_agent.Prelude.{
  ℕ, String, Bool, true, false, not, ◌&&◌, Option, none, some, List, [], ◌∷◌, str_eq, if◌then◌else◌,
}
use rill_xray_agent.Prelude.Result.{ok, err}
use rill_xray_agent.Ledger.Files.{
  Tombstone, TombstoneFile, ClosedLedger, Found, found, get_hash, put_hashed,
}
use rill_xray_agent.Audit.Log as Log
use rill_xray_agent.Audit.Log.{
  Event, AuditLog, Audited, Limits, after_line, lines, contains, drop_stale, dismiss_pending,
  commit_until,
}

-- The intent's file. Each mutation is of the type putClosedDecision with its three hashes, as
-- `_validate_ledger_mutations` asks before the intent is written.
pub record Intent : Type 0 where
  pub pre_state_sha256 : String
  pub post_state_sha256 : String
  pub mutations : List Tombstone
  pub event : Option Event

-- What the recovery finds and leaves: the hash of the state file, the ledger, the audit if there is
-- one, and whether the terminal file and the intent are there.
pub record Site : Type 0 where
  pub state_sha256 : String
  pub ledger : ClosedLedger
  pub audit : Option AuditLog
  pub terminal : Bool
  pub intent : Bool

-- What the recovery runs with: the size of a tombstone's file, that of an event's line, the limits of
-- the audit, and the faults RILL_AUDIT_IO_ERROR and RILL_AUDIT_FAIL_AFTER_EVENT.
pub record Setting : Type 0 where
  pub size : TombstoneFile → ℕ
  pub line_len : Event → ℕ
  pub limits : Limits
  pub io_error : Bool
  pub fail_after_event : Bool

-- the list of the report that the operation comes into; `unresolved` is also an exception's
pub data Outcome : Type 0 where
  recovered cancelled unresolved : Outcome

-- `event and self.audit and self.audit.contains(…)`
abbrev pub audit_written : Option Event → Option AuditLog → Bool
audit_written (some e) (some l) = contains e.event_hash (lines l.segments)
audit_written _ _ = false

-- whether a call came through, and what it leaves, also by an exception
abbrev pub came_through : AuditLog → Audited AuditLog → Bool × AuditLog
came_through stopped (ok m) = (true, m)
came_through stopped (err _) = (false, stopped)

abbrev pub interrupted : AuditLog → Audited AuditLog → Bool × AuditLog
interrupted stopped (ok m) = (false, m)
interrupted stopped (err _) = (false, stopped)

-- `self.audit.commit_event(event)`; the intent of another event is removed before the line is written
unfoldable pub commit_event : Setting → Option Event → AuditLog → Bool × AuditLog
commit_event o none l = (false, l)
commit_event o (some e) l =
    let stopped = drop_stale o.line_len e l in
    if o.io_error
    then (false, l)
    else if o.fail_after_event
    then interrupted stopped (commit_until o.line_len after_line o.limits e l)
    else came_through stopped (Log.commit_event o.line_len o.limits e l)

abbrev pub with_audit : Bool × AuditLog → Bool × Option AuditLog
with_audit (came, l) = (came, some l)

-- `if event and self.audit and not audit_written: self.audit.commit_event(event)`
unfoldable pub commit_missing : Setting → Option Event → Option AuditLog → Bool × Option AuditLog
commit_missing o (some e) (some l) =
    if contains e.event_hash (lines l.segments)
    then (true, some l)
    else with_audit (commit_event o (some e) l)
commit_missing o _ audit = (true, audit)

-- the same without the test of the event, which raises on an operation that has none
unfoldable pub commit_required : Setting → Option Event → Option AuditLog → Bool × Option AuditLog
unfolding commit_missing
commit_required o none (some l) = with_audit (commit_event o none l)
commit_required o event audit = commit_missing o event audit

-- `self.audit.dismiss_pending(…)`
unfoldable pub dismiss : Setting → Option Event → Option AuditLog → Option AuditLog
dismiss o event none = none
dismiss o none (some l) = some (dismiss_pending o.line_len none l).0
dismiss o (some e) (some l) = some (dismiss_pending o.line_len (some e.event_hash) l).0

-- `_ledger_applied`
abbrev pub is_applied : Option Found → Tombstone → Bool
is_applied (some (found t)) m =
    str_eq t.identity_hash m.identity_hash && str_eq t.payload_hash m.payload_hash
is_applied _ m = false

unfoldable pub ledger_applied : ClosedLedger → List Tombstone → Bool
ledger_applied l [] = true
ledger_applied l (m ∷ ms) = is_applied (get_hash l m.decision_id_hash) m && ledger_applied l ms

-- `_heal_ledger`: whether it came through, and the ledger
unfoldable pub heal_ledger :
    (TombstoneFile → ℕ) → ClosedLedger → List Tombstone → Bool × ClosedLedger
heal_ledger size l [] = (true, l)
heal_ledger size l (m ∷ ms) = elim (put_hashed size l m) [
  | err _ ↦ (false, l)
  | ok q ↦ heal_ledger size q ms
]

abbrev pub is_empty_list : List Tombstone → Bool
is_empty_list [] = true
is_empty_list _ = false

-- the terminal file is written and the intent removed, if the event was committed
unfoldable pub finish : Bool × Option AuditLog → Site → Outcome × Site
finish (true, audit) s = (recovered, record s { audit = audit; terminal = true; intent = false })
finish (false, audit) s = (unresolved, record s { audit = audit })

-- what follows the healing of the ledger; an exception leaves what was done
unfoldable pub finish_healed : Bool × ClosedLedger → Bool × Option AuditLog → Site → Outcome × Site
unfolding finish
finish_healed (true, ledger) committed s = finish committed (record s { ledger = ledger })
finish_healed (false, ledger) committed s = (unresolved, record s { ledger = ledger })

unfoldable pub heal_and_finish : Setting → Intent → Site → Outcome × Site
heal_and_finish o i s =
    finish_healed (heal_ledger o.size s.ledger i.mutations) (commit_missing o i.event s.audit) s

-- `atomic_write_json(state_path, intent['postState'])`
abbrev pub with_post_state : Intent → Site → Site
with_post_state i s = record s { state_sha256 = i.post_state_sha256 }

-- the intent is removed, and with it the reservation of its event
unfoldable pub cancel : Setting → Intent → Site → Outcome × Site
cancel o i s = (cancelled, record s { audit = dismiss o i.event s.audit; intent = false })

-- `_recover_one`; the write of the state where it is not there is one for each branch
unfoldable pub recover_one : Setting → Intent → Site → Outcome × Site
recover_one o i s =
    if s.terminal
    then heal_and_finish o i (with_post_state i s)
    else if not (is_empty_list i.mutations) && ledger_applied s.ledger i.mutations
    then finish (commit_missing o i.event s.audit) (with_post_state i s)
    else if str_eq s.state_sha256 i.post_state_sha256
    then (if is_empty_list i.mutations
        then finish (commit_required o i.event s.audit) s
        else heal_and_finish o i s)
    else if str_eq s.state_sha256 i.pre_state_sha256
    then (if is_empty_list i.mutations && audit_written i.event s.audit
        then finish (true, s.audit) (with_post_state i s)
        else cancel o i s)
    else (unresolved, s)
