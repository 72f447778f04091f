-- ===== src/Audit/Capacity.antt =====
-- The size of the log, and that nothing of it is rewritten.
use mathlib.Core.Path.{subst}
use rill_xray_agent.Prelude.{
  ℕ, ◌+◌, ◌≤◌, ◌≡◌, refl, ap, sym, ◌∙◌, ◌⊎◌, inl, inr, Bool, true, false, none, List, [], ◌∷◌, ◌++◌,
  arith, ltb, leb→le, if◌then◌else◌,
}
use rill_xray_agent.Prelude.Result.{ok, bind-ok, if-ok, ok-injective}
use rill_xray_agent.Audit.Log.{
  Event, capacity_exhausted, AuditLog, Limits, Stage, before_line, after_line, after_head, finished,
  lines, contains, size, total, place, has_room, append_segment, ensure_line, write_head,
  drop_intent, drop_stale, is_pending, written, commit_until,
}
use rill_xray_agent.Audit.Chain.{lines-place}

module _ (line_len : Event → ℕ) where
  size-append :
      (s : List Event) (e : Event) → size line_len (s ++ (e ∷ [])) ≡ size line_len s + line_len e
  size-append [] e = omega arith
  size-append (x ∷ s) e = omega (arith, size-append s e)

  total_if :
      (t : Bool) (s : List Event) (e : Event)
      → total line_len (if t then s ∷ (e ∷ []) ∷ [] else (s ++ (e ∷ [])) ∷ [])
        ≡ size line_len s + line_len e
  total_if true s e = omega arith
  total_if false s e = omega (arith, size-append s e)

  total-place :
      (limit : ℕ) (e : Event) (ss : List (List Event))
      → total line_len (place line_len limit e ss) ≡ total line_len ss + line_len e
  unfolding place
  total-place limit e [] = omega arith
  total-place limit e (s ∷ []) =
      omega (arith, total_if (ltb limit (size line_len s + line_len e)) s e)
  total-place limit e (s ∷ t ∷ ss) = omega (arith, total-place limit e (t ∷ ss))

  -- Within the limit the log is as before, or it has one more line at its end.
  abbrev pub Grown : Limits → Event → List (List Event) → List (List Event) → Type 0
  Grown c e old new =
      ((lines new ≡ lines old) ⊎ (lines new ≡ lines old ++ (e ∷ [])))
      × (total line_len new ≤ c.total_bytes)

  append_segment-Grown :
      (c : Limits) (e : Event) (l m : AuditLog)
      → append_segment line_len c e l ≡ ok m
      → Grown c e l.segments m.segments
  unfolding append_segment
  append_segment-Grown c e l m h =
      let test =
        if-ok (has_room line_len c e l.segments)
          (record l { segments = place line_len c.segment_bytes e l.segments }) m capacity_exhausted
          h in
      (
        inr (
            ap (λ x. lines x.segments) (sym test.1)
            ∙ lines-place line_len c.segment_bytes e l.segments),
        omega (
          arith,
          ap (λ x. total line_len x.segments) test.1,
          total-place c.segment_bytes e l.segments,
          leb→le (total line_len l.segments + line_len e) c.total_bytes test.0,
        ),
      )

  ensure_line-Grown :
      (c : Limits) (e : Event) (l m : AuditLog)
      → total line_len l.segments ≤ c.total_bytes
      → ensure_line line_len c e l ≡ ok m
      → Grown c e l.segments m.segments
  unfolding ensure_line
  ensure_line-Grown c e l m small h = by_test (contains e.event_hash (lines l.segments)) h
    where
      by_test :
          (t : Bool)
          → (if t then ok l else append_segment line_len c e l) ≡ ok m
          → Grown c e l.segments m.segments
      by_test true g = (
        inl (ap (λ x. lines x.segments) (sym (ok-injective g))),
        omega (arith, small, ap (λ x. total line_len x.segments) (ok-injective g)),
      )
      by_test false g = append_segment-Grown c e l m g

  drop_stale-segments : (e : Event) (l : AuditLog) → (drop_stale line_len e l).segments ≡ l.segments
  unfolding drop_stale drop_intent
  drop_stale-segments e l = by_test (is_pending line_len e l.intent)
    where
      by_test : (t : Bool) → (if t then l else record l { intent = none }).segments ≡ l.segments
      by_test true = refl
      by_test false = refl

  written-Grown :
      (s : Stage) (c : Limits) (e : Event) (l m : AuditLog)
      → total line_len l.segments ≤ c.total_bytes
      → written line_len s c e l ≡ ok m
      → Grown c e l.segments m.segments
  unfolding write_head drop_intent
  written-Grown before_line c e l m small h =
      let same = ok-injective h in
      (
        inl (ap (λ x. lines x.segments) (sym same)),
        omega (arith, small, ap (λ x. total line_len x.segments) same),
      )
  written-Grown after_line c e l m small h = ensure_line-Grown c e l m small h
  written-Grown after_head c e l m small h =
      let line = bind-ok (ensure_line line_len c e l) _ m h in
      subst (λ x. Grown c e l.segments x.segments) (ok-injective line.2)
        (ensure_line-Grown c e l line.0 small line.1)
  written-Grown finished c e l m small h =
      let line = bind-ok (ensure_line line_len c e l) _ m h in
      subst (λ x. Grown c e l.segments x.segments) (ok-injective line.2)
        (ensure_line-Grown c e l line.0 small line.1)

  -- A log within its total size stays within it when an event is committed, wherever the process stops,
  -- and no line of it is changed or removed: at most the event is added at the end.
  pub commit_until-Grown :
      (s : Stage) (c : Limits) (e : Event) (l m : AuditLog)
      → total line_len l.segments ≤ c.total_bytes
      → commit_until line_len s c e l ≡ ok m
      → Grown c e l.segments m.segments
  unfolding commit_until
  commit_until-Grown s c e l m small h =
      let same = drop_stale-segments e l in
      subst (λ x. Grown c e x m.segments) same
        (written-Grown s c e (drop_stale line_len e l) m
          (omega (arith, small, ap (total line_len) same)) h)
