-- ===== src/Operation/Recorded.antt =====
-- What the commit of an operation's event leaves in the audit.
use rill_xray_agent.Prelude.{
  ℕ, ◌≡◌, refl, sym, ap, ◌∙◌, Bool, true, false, Option, none, some, if◌then◌else◌,
}
use rill_xray_agent.Prelude.Result.{ok, err, bind-ok, ok-injective, if-ok}
use rill_xray_agent.Audit.Log as Log
use rill_xray_agent.Audit.Log.{
  AuditError, Event, AuditLog, Audited, Limits, finished, lines, contains, place, has_room,
  capacity_exhausted, append_segment, ensure_line, write_head, drop_intent, drop_stale,
  commit_until,
}
use rill_xray_agent.Audit.Chain.{lines-place}
use rill_xray_agent.Audit.Crash.{contains-last}
use rill_xray_agent.Operation.Recover.{
  Setting, came_through, interrupted, with_audit, commit_event, commit_missing, commit_required,
}

-- the event is in the audit, where there are both
abbrev pub IsRecorded : Option Event → Option AuditLog → Type 0
IsRecorded (some e) (some l) = contains e.event_hash (lines l.segments) ≡ true
IsRecorded _ _ = Unit

module _ (line_len : Event → ℕ) (c : Limits) (e : Event) where
  append_segment-contains :
      (l m : AuditLog)
      → append_segment line_len c e l ≡ ok m
      → contains e.event_hash (lines m.segments) ≡ true
  unfolding append_segment
  append_segment-contains l m h =
      let room =
        if-ok (has_room line_len c e l.segments)
          (record l { segments = place line_len c.segment_bytes e l.segments }) m capacity_exhausted
          h in
      ap (λ x. contains e.event_hash (lines x.segments)) (sym room.1)
      ∙ ap (contains e.event_hash) (lines-place line_len c.segment_bytes e l.segments)
      ∙ contains-last e.event_hash (lines l.segments) e refl

  ensure_line-contains :
      (l m : AuditLog)
      → ensure_line line_len c e l ≡ ok m
      → contains e.event_hash (lines m.segments) ≡ true
  unfolding ensure_line
  ensure_line-contains l m h = by_test (contains e.event_hash (lines l.segments)) refl h
    where
      by_test :
          (t : Bool)
          → contains e.event_hash (lines l.segments) ≡ t
          → (if t then ok l else append_segment line_len c e l) ≡ ok m
          → contains e.event_hash (lines m.segments) ≡ true
      by_test true there g =
          ap (λ x. contains e.event_hash (lines x.segments)) (sym (ok-injective g)) ∙ there
      by_test false there g = append_segment-contains l m g

  -- A commit that comes through leaves the event in the log.
  commit-contains :
      (l m : AuditLog)
      → Log.commit_event line_len c e l ≡ ok m
      → contains e.event_hash (lines m.segments) ≡ true
  unfolding Log.commit_event commit_until write_head drop_intent
  commit-contains l m h =
      let line = bind-ok (ensure_line line_len c e (drop_stale line_len e l)) _ m h in
      ap (λ x. contains e.event_hash (lines x.segments)) (sym (ok-injective line.2))
      ∙ ensure_line-contains (drop_stale line_len e l) line.0 line.1

-- The event is recorded wherever its commit came through.
abbrev pub Recorded : Option Event → Bool × Option AuditLog → Type 0
Recorded event (came, audit) = came ≡ true → IsRecorded event audit

came_through-Recorded :
    (o : Setting) (e : Event) (l stopped : AuditLog) (r : Audited AuditLog)
    → Log.commit_event o.line_len o.limits e l ≡ r
    → Recorded (some e) (with_audit (came_through stopped r))
came_through-Recorded o e l stopped (ok m) h came = commit-contains o.line_len o.limits e l m h
came_through-Recorded o e l stopped (err x) h came = cc

interrupted-Recorded :
    (e : Event) (stopped : AuditLog) (r : Audited AuditLog)
    → Recorded (some e) (with_audit (interrupted stopped r))
interrupted-Recorded e stopped (ok m) came = cc
interrupted-Recorded e stopped (err x) came = cc

-- either branch of a test
pub if-either {ℓ κ} :
    {A : Type ℓ} (P : A → Type κ) (t : Bool) (x y : A)
    → (t ≡ true → P x)
    → (t ≡ false → P y)
    → P (if t then x else y)
if-either P true x y p q = p refl
if-either P false x y p q = q refl

commit_event-Recorded :
    (o : Setting) (e : Event) (l : AuditLog)
    → Recorded (some e) (with_audit (commit_event o (some e) l))
unfolding commit_event
commit_event-Recorded o e l =
    if-either (λ x. Recorded (some e) (with_audit x)) o.io_error _ _ (λ t came. cc)
      λ t.
        if-either (λ x. Recorded (some e) (with_audit x)) o.fail_after_event _ _
          (λ u. interrupted-Recorded e _ _) λ u. came_through-Recorded o e l _ _ refl

pub commit_missing-Recorded :
    (o : Setting) (event : Option Event) (audit : Option AuditLog)
    → Recorded event (commit_missing o event audit)
unfolding commit_missing
commit_missing-Recorded o none audit = λ came. tt
commit_missing-Recorded o (some e) none = λ came. tt
commit_missing-Recorded o (some e) (some l) =
    if-either (Recorded (some e)) (contains e.event_hash (lines l.segments)) _ _
      (λ there came. there) λ new. commit_event-Recorded o e l

pub commit_required-Recorded :
    (o : Setting) (event : Option Event) (audit : Option AuditLog)
    → Recorded event (commit_required o event audit)
unfolding commit_required
commit_required-Recorded o none none = commit_missing-Recorded o none none
commit_required-Recorded o none (some l) = λ came. tt
commit_required-Recorded o (some e) audit = commit_missing-Recorded o (some e) audit
