-- ===== src/Audit/Examples.antt =====
-- The theorems on the audit chain at a log of one event, and tests.
use rill_xray_agent.Prelude.{ℕ, String, ◌≡◌, refl, ◌⊎◌, false, none, some, List, [], ◌∷◌, arith}
use rill_xray_agent.Prelude.Result.{ok}
use rill_xray_agent.Json.{Json, null, str, obj, field, end}
use rill_xray_agent.Audit.Redact.{mark, is_sensitive, redact, redact_value, IsClean, redact-IsClean}
use rill_xray_agent.Audit.Log as Log
use rill_xray_agent.Audit.Log.{
  Body, Event, Head, AuditError, AuditLog, Limits, Stage, after_line, finished, lines, contains,
  total, has_room, follows, head_of, start, verify, reconcile, event_after, reserve, commit_until,
  commit_event,
}
use rill_xray_agent.Audit.Chain.{verify_unique}
use rill_xray_agent.Audit.Crash.{appended, commit_until-recovers}
use rill_xray_agent.Audit.Capacity.{Grown, commit_until-Grown}

-- a digest that tells the events of the tests apart
abbrev digest : Body → String
digest b = b.event_type

abbrev line_len : Event → ℕ
line_len _ = 100

abbrev limits : Limits
limits = record { segment_bytes = 150; total_bytes = 1000 }

abbrev first : Event
first = event_after line_len digest start "started" 10 "system" "runtime" null

abbrev log : AuditLog
log = record { segments = (first ∷ []) ∷ []; head = some (head_of first); intent = none }

abbrev second : Event
second = event_after line_len digest (head_of first) "applied" 20 "system" "runtime" null

-- the same event, in another segment
abbrev reheaded : AuditLog
reheaded = record log { segments = [] ∷ (first ∷ []) ∷ [] }

also_valid : verify digest reheaded ≡ ok (head_of first)
unfolding verify Log.walk
also_valid = refl

valid : verify digest log ≡ ok (head_of first)
unfolding verify Log.walk
valid = refl

fresh : contains "applied" (lines log.segments) ≡ false
unfolding contains
fresh = refl

verify_unique_example : lines log.segments ≡ lines reheaded.segments
verify_unique_example =
    verify_unique digest log reheaded (head_of first) valid also_valid ((λ _. refl, tt), tt)

commit_until-recovers_example :
    (m : AuditLog) × (reserve line_len limits second log ≡ ok (record log { intent = some second }))
    × (commit_until line_len after_line limits second (record log { intent = some second }) ≡ ok m)
    × (reconcile line_len digest limits m
        ≡ ok (appended line_len digest limits log (head_of first) second, head_of second))
    × (commit_event line_len limits second (record log { intent = some second })
        ≡ ok (appended line_len digest limits log (head_of first) second))
commit_until-recovers_example =
    commit_until-recovers line_len digest limits log (head_of first) second valid refl fresh refl
      after_line

committed :
    commit_until line_len finished limits second log
    ≡ ok (record {
      segments = (first ∷ []) ∷ (second ∷ []) ∷ [];
      head = some (head_of second);
      intent = none;
    })
unfolding commit_until Log.ensure_line Log.append_segment Log.drop_stale Log.drop_intent
    Log.write_head contains Log.place
committed = refl

commit_until-Grown_example :
    Grown line_len limits second log.segments ((first ∷ []) ∷ (second ∷ []) ∷ [])
commit_until-Grown_example =
    commit_until-Grown line_len finished limits second log _ (omega arith) committed

abbrev details : Json
details = obj (field "user" (str "x") (field "apiToken" (str "y") end))

-- letters are left as they are
abbrev no_lower : List ℕ → List ℕ
no_lower cs = cs

mark_shown : is_sensitive no_lower mark ≡ false
unfolding is_sensitive
mark_shown = refl

redact-IsClean_example :
    IsClean no_lower (redact no_lower details "details")
    × ((is_sensitive no_lower "details" ≡ false) ⊎ (redact no_lower details "details" ≡ str mark))
redact-IsClean_example = redact-IsClean no_lower mark_shown details "details"

redacted :
    redact no_lower (obj (field "user" (str "my secret") (field "token" (str "y") end))) ""
    ≡ obj (field "user" (str mark) (field "token" (str mark) end))
unfolding redact redact_value is_sensitive
redacted = refl
