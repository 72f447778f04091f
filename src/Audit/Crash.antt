-- ===== src/Audit/Crash.antt =====
-- An append that is cut short anywhere, and the `reconcile` after it.
use rill_xray_agent.Prelude.{
  ℕ, String, ◌≡◌, refl, ap, ◌∙◌, true, false, Option, none, some, List, [], ◌∷◌, ◌++◌, arith,
  eq_iff, eq_refl, if◌then◌else◌,
}
use rill_xray_agent.Prelude.Result.{ok, err, ◌>>=◌}
use rill_xray_agent.Audit.Log.{
  Body, Event, Head, head_mismatch, AuditLog, Limits, Stage, before_line, after_line, after_head,
  finished, lines, contains, follows, head_of, start, same_head, walk, check_head, verify, place,
  has_room, append_segment, ensure_line, write_head, drop_intent, drop_stale, verified, reconcile,
  reserve, written, commit_until, commit_event,
}
use rill_xray_agent.Audit.Chain.{verify-parts, walk-append, lines-place}

pub contains-last :
    (hash : String) (es : List Event) (e : Event)
    → e.event_hash ≡ hash
    → contains hash (es ++ (e ∷ [])) ≡ true
unfolding contains
contains-last hash [] e h = ground (arith, eq_iff e.event_hash hash)
contains-last hash (x ∷ es) e h = ground (arith, contains-last hash es e h)

same_head_refl : (h : Head) → same_head h h ≡ true
same_head_refl h = ground (arith, eq_refl h.head_hash)

module _ (line_len : Event → ℕ) (digest : Body → String) (c : Limits) (l : AuditLog) (h : Head)
    (e : Event) where
  -- the log with the event
  abbrev pub appended : AuditLog
  appended = record {
    segments = place line_len c.segment_bytes e l.segments;
    head = some (head_of e);
    intent = none;
  }

  -- the log with the intent, and the line
  abbrev begun : AuditLog
  begun = record l { intent = some e }

  abbrev lined : AuditLog
  lined = record begun { segments = place line_len c.segment_bytes e l.segments }

  drop_stale-begun : drop_stale line_len e begun ≡ begun
  unfolding drop_stale
  drop_stale-begun = ground (arith, eq_refl e.event_hash)

  module _ (valid : verify digest l ≡ ok h) (next : follows digest e h ≡ true)
      (fresh : contains e.event_hash (lines l.segments) ≡ false)
      (room : has_room line_len c e l.segments ≡ true) where
    verify-appended : verify digest appended ≡ ok (head_of e)
    unfolding verify
    verify-appended =
        ap (λ es. walk digest start es >>= check_head digest (some (head_of e)))
          (lines-place line_len c.segment_bytes e l.segments)
        ∙ ap (λ r. r >>= check_head digest (some (head_of e)))
            (walk-append digest start h (lines l.segments) e (verify-parts digest l h valid).0 next)
        ∙ ap (λ b. if b then ok (head_of e) else err head_mismatch) (same_head_refl (head_of e))

    ensure_line-begun : ensure_line line_len c e begun ≡ ok lined
    unfolding ensure_line append_segment
    ensure_line-begun = rw (fresh, room) refl

    ensure_line-lined :
        (o : Option Head)
        → ensure_line line_len c e (record lined { head = o }) ≡ ok (record lined { head = o })
    unfolding ensure_line
    ensure_line-lined o =
        ap
          (λ b.
            if b
            then ok (record lined { head = o })
            else append_segment line_len c e (record lined { head = o }))
          (ap (contains e.event_hash) (lines-place line_len c.segment_bytes e l.segments)
            ∙ contains-last e.event_hash (lines l.segments) e refl)

    verified-appended : verified line_len digest appended ≡ ok (appended, head_of e)
    verified-appended = ap (λ r. r >>= λ at. ok (appended, at)) verify-appended

    reconcile-begun : reconcile line_len digest c begun ≡ ok (appended, head_of e)
    unfolding reconcile write_head drop_intent
    reconcile-begun =
        ap
          (λ r.
            r >>= λ m. verified line_len digest (drop_intent line_len (write_head line_len e m)))
          ensure_line-begun
        ∙ verified-appended

    reconcile-lined :
        (o : Option Head)
        → reconcile line_len digest c (record lined { head = o }) ≡ ok (appended, head_of e)
    unfolding reconcile write_head drop_intent
    reconcile-lined o =
        ap
          (λ r.
            r >>= λ m. verified line_len digest (drop_intent line_len (write_head line_len e m)))
          (ensure_line-lined o)
        ∙ verified-appended

    reconcile-appended : reconcile line_len digest c appended ≡ ok (appended, head_of e)
    unfolding reconcile
    reconcile-appended = verified-appended

    written-recovers :
        (s : Stage)
        → (m : AuditLog) × (written line_len s c e begun ≡ ok m)
          × (reconcile line_len digest c m ≡ ok (appended, head_of e))
    unfolding write_head drop_intent
    written-recovers before_line = (begun, refl, reconcile-begun)
    written-recovers after_line = (lined, ensure_line-begun, reconcile-lined l.head)
    written-recovers after_head = (
      record lined { head = some (head_of e) },
      ap (λ r. r >>= λ m. ok (write_head line_len e m)) ensure_line-begun,
      reconcile-lined (some (head_of e)),
    )
    written-recovers finished = (
      appended,
      ap (λ r. r >>= λ m. ok (drop_intent line_len (write_head line_len e m))) ensure_line-begun,
      reconcile-appended,
    )

    -- Cut `commit_event` short at any stage after the event was reserved, on a verified log where the
    -- event follows the head, there is room and no event has its hash: `reconcile` then
    -- gives the log and the head that an append without interruption gives.
    pub commit_until-recovers :
        (s : Stage)
        → (m : AuditLog) × (reserve line_len c e l ≡ ok begun)
          × (commit_until line_len s c e begun ≡ ok m)
          × (reconcile line_len digest c m ≡ ok (appended, head_of e))
          × (commit_event line_len c e begun ≡ ok appended)
    unfolding commit_until commit_event reserve written-recovers
    commit_until-recovers s =
        let found = written-recovers s in
        let done = written-recovers finished in
        (
          found.0,
          rw (room) refl,
          ap (written line_len s c e) drop_stale-begun ∙ found.1,
          found.2,
          ap (written line_len finished c e) drop_stale-begun ∙ done.1,
        )
