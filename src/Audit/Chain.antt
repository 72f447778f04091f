-- ===== src/Audit/Chain.antt =====
-- What a verified chain says of its events.
use mathlib.Core.List.{append-nil, append_assoc}
use rill_xray_agent.Prelude.{
  ℕ, suc, ◌+◌, ◌==◌, String, ◌≡◌, refl, ap, sym, ◌∙◌, Bool, true, false, Option, none, some, List,
  [], ◌∷◌, ◌++◌, All, arith, eq_iff, ltb, length, if◌then◌else◌,
}
use rill_xray_agent.Prelude.Result.{ok, err, bind-ok, if-ok, if-passes, ok-injective}
use rill_xray_agent.Audit.Log.{
  Body, Event, Head, AuditError, AuditLog, lines, follows, head_of, start, same_head, walk,
  check_head, verify, place, size, chain_invalid, head_missing, head_mismatch,
}

if-true : {A : Type 0} (t : Bool) (x y : A) → t ≡ true → (if t then x else y) ≡ x
if-true t x y h = ground arith

event_path : (x y : Event) → x.body ≡ y.body → x.event_hash ≡ y.event_hash → x ≡ y
event_path x y b h i = record { body = b i; event_hash = h i }

if-ok-same : (t : Bool) (a b : Head) (e : AuditError) → (if t then ok a else err e) ≡ ok b → a ≡ b
if-ok-same t a b e h = (if-ok t a b e h).1

module _ (digest : Body → String) where
  pub follows-parts :
      (e : Event) (at : Head)
      → follows digest e at ≡ true
      → (e.body.sequence ≡ suc at.events)
        × (e.body.previous_event_hash ≡ at.head_hash)
        × (digest e.body ≡ e.event_hash)
  follows-parts e at h = (
    ground arith,
    ground (arith, eq_iff e.body.previous_event_hash at.head_hash),
    ground (arith, eq_iff (digest e.body) e.event_hash),
  )

  pub walk-parts :
      (at h : Head) (e : Event) (es : List Event)
      → walk digest at (e ∷ es) ≡ ok h
      → (follows digest e at ≡ true)
        × (walk digest (record { events = suc at.events; head_hash = e.event_hash }) es ≡ ok h)
  unfolding walk
  walk-parts at h e es w =
      if-passes (follows digest e at)
        (walk digest (record { events = suc at.events; head_hash = e.event_hash }) es) chain_invalid
        h w

  -- An event that follows a chain makes it longer.
  pub walk-append :
      (at h : Head) (es : List Event) (e : Event)
      → walk digest at es ≡ ok h
      → follows digest e h ≡ true
      → walk digest at (es ++ (e ∷ [])) ≡ ok (head_of e)
  unfolding walk
  walk-append at h [] e w f =
      let same = ok-injective w in
      let parts = follows-parts e h f in
      if-true (follows digest e at) _ _ (ap (follows digest e) same ∙ f)
      ∙ ap ok (λ i. record {
        events = (ap (λ a. suc a.events) same ∙ sym parts.0) i;
        head_hash = e.event_hash;
      })
  walk-append at h (x ∷ es) e w f =
      let parts = walk-parts at h x es w in
      if-true (follows digest x at) _ _ parts.0
      ∙ walk-append (record { events = suc at.events; head_hash = x.event_hash }) h es e parts.1 f

  -- the events are counted
  pub walk-length :
      (at h : Head) (es : List Event) → walk digest at es ≡ ok h → h.events ≡ at.events + length es
  unfolding walk
  walk-length at h [] w = omega (arith, ap (λ a. a.events) (ok-injective w))
  walk-length at h (x ∷ es) w = omega (
    arith,
    walk-length (record { events = suc at.events; head_hash = x.event_hash }) h es
        (walk-parts at h x es w).1,
  )

  without_first :
      (y : Event) (ys xs : List Event)
      → All (λ x. All (λ z. digest x.body ≡ digest z.body → x.body ≡ z.body) (y ∷ ys)) xs
      → All (λ x. All (λ z. digest x.body ≡ digest z.body → x.body ≡ z.body) ys) xs
  without_first y ys [] free = tt
  without_first y ys (x ∷ xs) free = (free.0.1, without_first y ys xs free.1)

  -- Two chains of one length with the same last hash have the same events.
  pub walk_unique :
      (a b h : Head) (xs ys : List Event)
      → walk digest a xs ≡ ok h
      → walk digest b ys ≡ ok h
      → length xs ≡ length ys
      → All (λ x. All (λ y. digest x.body ≡ digest y.body → x.body ≡ y.body) ys) xs
      → (xs ≡ ys) × (a.head_hash ≡ b.head_hash)
  unfolding walk
  walk_unique a b h [] [] v w n free =
      (refl, ap (λ x. x.head_hash) (ok-injective v ∙ sym (ok-injective w)))
  walk_unique a b h [] (y ∷ ys) v w n free = absurd (omega (arith, n))
  walk_unique a b h (x ∷ xs) [] v w n free = absurd (omega (arith, n))
  walk_unique a b h (x ∷ xs) (y ∷ ys) v w n free =
      let first = walk-parts a h x xs v in
      let second = walk-parts b h y ys w in
      let rest =
        walk_unique (record { events = suc a.events; head_hash = x.event_hash })
          (record { events = suc b.events; head_hash = y.event_hash }) h xs ys first.1 second.1
          (omega (arith, n)) (without_first y ys xs free.1) in
      let own = follows-parts x a first.0 in
      let other = follows-parts y b second.0 in
      let body = free.0.0 (own.2 ∙ rest.1 ∙ sym other.2) in
      (
        λ i. event_path x y body rest.1 i ∷ rest.0 i,
        sym own.1 ∙ ap (λ c. c.previous_event_hash) body ∙ other.1,
      )

  check_head-same : (o : Option Head) (at h : Head) → check_head digest o at ≡ ok h → at ≡ h
  check_head-same none at h c = if-ok-same (at.events == 0) at h head_missing c
  check_head-same (some o) at h c = if-ok-same (same_head o at) at h head_mismatch c

  -- the parts of a verified log
  pub verify-parts :
      (l : AuditLog) (h : Head)
      → verify digest l ≡ ok h
      → (walk digest start (lines l.segments) ≡ ok h) × (check_head digest l.head h ≡ ok h)
  unfolding verify
  verify-parts l h v =
      let walked = bind-ok (walk digest start (lines l.segments)) _ h v in
      let same = check_head-same l.head walked.0 h walked.2 in
      (walked.1 ∙ ap ok same, ap (check_head digest l.head) (sym same) ∙ walked.2)

  -- The head of a verified log determines its events, as far as SHA-256 has no collision among them: no
  -- event can be changed, dropped, added or moved in such a log without another head.
  pub verify_unique :
      (l m : AuditLog) (h : Head)
      → verify digest l ≡ ok h
      → verify digest m ≡ ok h
      → All
          (λ x. All (λ y. digest x.body ≡ digest y.body → x.body ≡ y.body) (lines m.segments))
          (lines l.segments)
      → lines l.segments ≡ lines m.segments
  verify_unique l m h v w free =
      let one = (verify-parts l h v).0 in
      let two = (verify-parts m h w).0 in
      (walk_unique start start h (lines l.segments) (lines m.segments) one two
        (omega (
          arith,
          walk-length start h (lines l.segments) one,
          walk-length start h (lines m.segments) two,
        ))
        free).0

lines_if :
    (t : Bool) (s : List Event) (e : Event)
    → lines (if t then s ∷ (e ∷ []) ∷ [] else (s ++ (e ∷ [])) ∷ []) ≡ s ++ (e ∷ [])
lines_if true s e = refl
lines_if false s e = append-nil (s ++ (e ∷ []))

-- Wherever a line is put, the events are those of before and the new one.
pub lines-place :
    (line_len : Event → ℕ) (limit : ℕ) (e : Event) (ss : List (List Event))
    → lines (place line_len limit e ss) ≡ lines ss ++ (e ∷ [])
unfolding place
lines-place line_len limit e [] = refl
lines-place line_len limit e (s ∷ []) =
    lines_if (ltb limit (size line_len s + line_len e)) s e ∙ sym (append_assoc s [] (e ∷ []))
lines-place line_len limit e (s ∷ t ∷ ss) =
    ap (λ es. s ++ es) (lines-place line_len limit e (t ∷ ss))
    ∙ sym (append_assoc s (lines (t ∷ ss)) (e ∷ []))
