-- ===== src/Audit/Log.antt =====
-- `AuditLog`: the segments, the head and the intent, and the methods on them.
use rill_xray_agent.Prelude.{
  ℕ, suc, ◌+◌, ltb, leb, ◌==◌, String, Bool, true, false, ◌&&◌, ◌||◌, Option, none, some, List, [],
  ◌∷◌, ◌++◌, str_eq, if◌then◌else◌,
}
use rill_xray_agent.Prelude.Result.{Result, ok, err, ◌>>=◌}
use rill_xray_agent.Json.{Json, obj, end}
use rill_xray_agent.Json.Edit.{truthy}
use rill_xray_agent.Audit.Redact.{redact}

-- an event without its hash
pub record Body : Type 0 where
  pub sequence : ℕ
  pub event_type : String
  pub timestamp_epoch_seconds : ℕ
  pub actor_type : String
  pub actor_id : String
  pub details : Json
  pub previous_event_hash : String

pub record Event : Type 0 where
  pub body : Body
  pub event_hash : String

-- `head.json`, and what `verify` returns
pub record Head : Type 0 where
  pub events : ℕ
  pub head_hash : String

-- `AuditError`, by its message
pub data AuditError : Type 0 where
  chain_invalid head_mismatch head_missing capacity_exhausted : AuditError

abbrev pub Audited : Type 0 → Type 0
Audited A = Result AuditError A

-- The files of the log; a segment is the list of its lines.
pub record AuditLog : Type 0 where
  pub segments : List (List Event)
  pub head : Option Head
  pub intent : Option Event

-- `segment_bytes` and `total_bytes`
pub record Limits : Type 0 where
  pub segment_bytes : ℕ
  pub total_bytes : ℕ

-- how far `commit_event` has come with its three durable writes
pub data Stage : Type 0 where
  before_line after_line after_head finished : Stage

abbrev pub genesis : String
genesis = "0000000000000000000000000000000000000000000000000000000000000000"

-- the lines of all segments, in order
abbrev pub lines : List (List Event) → List Event
lines [] = []
lines (s ∷ ss) = s ++ lines ss

-- `contains`
unfoldable pub contains : String → List Event → Bool
contains hash [] = false
contains hash (e ∷ es) = str_eq e.event_hash hash || contains hash es

-- `e` follows the events up to a head
abbrev pub follows : (Body → String) → Event → Head → Bool
follows digest e at =
    e.body.sequence == suc at.events
    && str_eq e.body.previous_event_hash at.head_hash
    && str_eq (digest e.body) e.event_hash

abbrev pub head_of : Event → Head
head_of e = record { events = e.body.sequence; head_hash = e.event_hash }

abbrev pub start : Head
start = record { events = 0; head_hash = genesis }

abbrev pub same_head : Head → Head → Bool
same_head a b = a.events == b.events && str_eq a.head_hash b.head_hash

module _ (digest : Body → String) where
  -- the loop of `verify`
  unfoldable pub walk : Head → List Event → Audited Head
  walk at [] = ok at
  walk at (e ∷ es) =
      let rest = walk (record { events = suc at.events; head_hash = e.event_hash }) es in
      if follows digest e at then rest else err chain_invalid

  abbrev pub check_head : Option Head → Head → Audited Head
  check_head (some h) at = if same_head h at then ok at else err head_mismatch
  check_head none at = if at.events == 0 then ok at else err head_missing

  unfoldable pub verify : AuditLog → Audited Head
  verify l = walk start (lines l.segments) >>= check_head l.head

-- `line_len` is the length of an event's line with its newline.
module _ (line_len : Event → ℕ) where
  -- `p.stat().st_size`
  abbrev pub size : List Event → ℕ
  size [] = 0
  size (e ∷ es) = line_len e + size es

  -- the sum over all segments
  abbrev pub total : List (List Event) → ℕ
  total [] = 0
  total (s ∷ ss) = size s + total ss

  -- The line goes to the last segment, or to a new one where it does not fit.
  unfoldable pub place : ℕ → Event → List (List Event) → List (List Event)
  place limit e [] = (e ∷ []) ∷ []
  place limit e (s ∷ []) =
      if ltb limit (size s + line_len e) then s ∷ (e ∷ []) ∷ [] else (s ++ (e ∷ [])) ∷ []
  place limit e (s ∷ t ∷ ss) = s ∷ place limit e (t ∷ ss)

  -- `sum(…) + line_len > self.total_bytes`
  abbrev pub has_room : Limits → Event → List (List Event) → Bool
  has_room c e ss = leb (total ss + line_len e) c.total_bytes

  -- `_append_segment`
  unfoldable pub append_segment : Limits → Event → AuditLog → Audited AuditLog
  append_segment c e l =
      if has_room c e l.segments
      then ok (record l { segments = place c.segment_bytes e l.segments })
      else err capacity_exhausted

  -- `if not self.contains(e['eventHash']): self._append_segment(e)`
  unfoldable pub ensure_line : Limits → Event → AuditLog → Audited AuditLog
  ensure_line c e l =
      if contains e.event_hash (lines l.segments) then ok l else append_segment c e l

  unfoldable pub write_head : Event → AuditLog → AuditLog
  write_head e l = record l { head = some (head_of e) }

  unfoldable pub drop_intent : AuditLog → AuditLog
  drop_intent l = record l { intent = none }

  module _ (digest : Body → String) where
    abbrev pub verified : AuditLog → Audited (AuditLog × Head)
    verified l = verify digest l >>= λ at. ok (l, at)

    unfoldable pub reconcile : Limits → AuditLog → Audited (AuditLog × Head)
    reconcile c l = elim l.intent [
      | none ↦ verified l
      | some e ↦ ensure_line c e l >>= λ m. verified (drop_intent (write_head e m))
    ]

    -- `_achain_head`
    unfoldable pub chain_head : Limits → AuditLog → Audited (AuditLog × Head)
    chain_head c l = elim l.intent [
      | some _ ↦ reconcile c l
      | none ↦ elim l.head [ some _ ↦ verified l | none ↦ ok (l, start) ]
    ]

    -- the event that `build_event` makes after a head
    abbrev pub event_after : Head → String → ℕ → String → String → Json → Event
    event_after at kind now actor_type actor_id details =
        let body : Body = record {
          sequence = suc at.events;
          event_type = kind;
          timestamp_epoch_seconds = now;
          actor_type = actor_type;
          actor_id = actor_id;
          details = details;
          previous_event_hash = at.head_hash;
        } in
        record { body = body; event_hash = digest body }

    -- `details or {}`
    abbrev or_empty : Json → Json
    or_empty details = if truthy details then details else obj end

    -- `build_event`; `lower` is `str.lower`
    unfoldable pub build_event :
        (List ℕ → List ℕ)
        → Limits
        → String
        → ℕ
        → String
        → String
        → Json
        → AuditLog
        → Audited (AuditLog × Event)
    build_event lower c kind now actor_type actor_id details l = do
      found ← chain_head c l
      ok (
        found.0,
        event_after found.1 kind now actor_type actor_id (redact lower (or_empty details) ""),
      )

  -- `reserve` of an event that is built
  unfoldable pub reserve : Limits → Event → AuditLog → Audited AuditLog
  reserve c e l =
      if has_room c e l.segments then ok (record l { intent = some e }) else err capacity_exhausted

  abbrev pub is_pending : Event → Option Event → Bool
  is_pending e none = false
  is_pending e (some i) = str_eq i.event_hash e.event_hash

  -- `dismiss_pending(event_hash)`: whether an intent was removed
  unfoldable pub dismiss_pending : Option String → AuditLog → AuditLog × Bool
  dismiss_pending hash l = elim l.intent [
    | none ↦ (l, false)
    | some i ↦ elim hash [
      | none ↦ (drop_intent l, true)
      | some h ↦ if str_eq i.event_hash h then (drop_intent l, true) else (l, false)
    ]
  ]

  -- the intent of another event is removed
  unfoldable pub drop_stale : Event → AuditLog → AuditLog
  drop_stale e l = if is_pending e l.intent then l else drop_intent l

  abbrev pub written : Stage → Limits → Event → AuditLog → Audited AuditLog
  written before_line c e l = ok l
  written after_line c e l = ensure_line c e l
  written after_head c e l = ensure_line c e l >>= λ m. ok (write_head e m)
  written finished c e l = ensure_line c e l >>= λ m. ok (drop_intent (write_head e m))

  -- What `commit_event` leaves where the process stops at a stage.
  unfoldable pub commit_until : Stage → Limits → Event → AuditLog → Audited AuditLog
  commit_until s c e l = written s c e (drop_stale e l)

  unfoldable pub commit_event : Limits → Event → AuditLog → Audited AuditLog
  commit_event c e l = commit_until finished c e l
