-- ===== src/Observer/Transition.antt =====
-- `load_checkpoint`, `recover_pending_transition` and `commit_transition`.
use rill_xray_agent.Prelude.{
  ℕ, zero, suc, ◌==◌, String, Bool, true, false, not, ◌&&◌, ◌||◌, Option, none, some, List, [], ◌∷◌,
  ◌++◌, str_eq, all, if◌then◌else◌,
}
use rill_xray_agent.Prelude.Int.{pos}
use rill_xray_agent.Prelude.Result.{Result, ok, err, guard, or_raise, ◌>>=◌, ◌>>◌}
use rill_xray_agent.Prelude.Text.{codes}
use rill_xray_agent.Json.{Json, num, str, arr, obj, Items, nil, cons, Fields, end, field, obj_of}
use rill_xray_agent.Json.Edit.{value}
use rill_xray_agent.RouteContract.Names.{sha_re}

-- an event with its `transitionId`; an event of another source has none
abbrev pub Entry : Type 0
Entry = Option String × Fields

pub record Checkpoint : Type 0 where
  pub previous_state_digest : String
  pub current_state_digest : String
  pub event_transition_ids : List String
  pub current_observation : Fields

-- `untrusted` is a link, no regular file or no JSON.
pub data CheckpointFile : Type 0 where
  absent untrusted : CheckpointFile
  holds : Json → CheckpointFile

-- what the observer keeps on disk
pub record World : Type 0 where
  pub journal : List Entry
  pub observation : Option Fields
  pub checkpoint : CheckpointFile

-- `ObserverTransitionError`, by its message
pub data TransitionError : Type 0 where
  not_trusted not_an_object unsupported_schema invalid_previous invalid_current : TransitionError
  invalid_observation invalid_ids duplicate_ids inconsistent event_missing : TransitionError
  anchor_mismatch ids_mismatch not_converged conflicting : TransitionError

abbrev pub Committed : Type 0 → Type 0
Committed A = Result TransitionError A

-- one durable write
pub data Step : Type 0 where
  write_checkpoint : Checkpoint → Step
  append_event : Entry → Step
  write_observation : Fields → Step
  clear_checkpoint : Step

-- `_write_checkpoint`
abbrev pub texts : List String → Items
texts [] = nil
texts (s ∷ ss) = cons (str s) (texts ss)

unfoldable pub checkpoint_json : Checkpoint → Json
checkpoint_json c = obj (
    field "schemaVersion" (num (pos 2)) (
      field "previousStateDigest" (str c.previous_state_digest) (
        field "currentStateDigest" (str c.current_state_digest) (
          field "eventTransitionIds" (arr (texts c.event_transition_ids))
            (field "currentObservation" (obj c.current_observation) end)))))

unfoldable pub perform : Step → World → World
perform (write_checkpoint c) w = record w { checkpoint = holds (checkpoint_json c) }
perform (append_event e) w = record w { journal = w.journal ++ (e ∷ []) }
perform (write_observation o) w = record w { observation = some o }
perform clear_checkpoint w = record w { checkpoint = absent }

-- a process that is killed after `n` writes
abbrev pub run : ℕ → List Step → World → World
run zero steps w = w
run (suc n) [] w = w
run (suc n) (s ∷ steps) w = run n steps (perform s w)

abbrev pub run_all : List Step → World → World
run_all [] w = w
run_all (s ∷ steps) w = run_all steps (perform s w)

-- `_HEX64.match`
abbrev pub is_hex : String → Bool
is_hex s = sha_re (codes s)

-- `_valid_digest`
abbrev valid_digest : Bool → Json → Option String
valid_digest allow_empty (str s) = if (allow_empty && str_eq s "") || is_hex s then some s else none
valid_digest allow_empty _ = none

unfoldable pub digests_of : Items → Option (List String)
digests_of nil = some []
digests_of (cons (str s) xs) =
    let rest = digests_of xs in
    if is_hex s then elim rest [ some ss ↦ some (s ∷ ss) | none ↦ none ] else none
digests_of (cons _ xs) = none

abbrev ids_of : Json → Option (List String)
ids_of (arr (cons x xs)) = digests_of (cons x xs)
ids_of _ = none

abbrev pub is_member : String → List String → Bool
is_member s [] = false
is_member s (t ∷ ts) = str_eq s t || is_member s ts

-- `len(set(ids)) == len(ids)`
unfoldable pub are_distinct : List String → Bool
are_distinct [] = true
are_distinct (s ∷ ss) = not (is_member s ss) && are_distinct ss

abbrev is_version_two : Json → Bool
is_version_two (num (pos n)) = n == 2
is_version_two _ = false

unfoldable pub parse_checkpoint : Json → Committed Checkpoint
parse_checkpoint v = do
  data_ ← or_raise (obj_of v) not_an_object
  guard (is_version_two (value "schemaVersion" data_)) unsupported_schema
  previous ← or_raise (valid_digest true (value "previousStateDigest" data_)) invalid_previous
  current ← or_raise (valid_digest false (value "currentStateDigest" data_)) invalid_current
  observation ← or_raise (obj_of (value "currentObservation" data_)) invalid_observation
  ids ← or_raise (ids_of (value "eventTransitionIds" data_)) invalid_ids
  guard (are_distinct ids) duplicate_ids
  ok (record {
    previous_state_digest = previous;
    current_state_digest = current;
    event_transition_ids = ids;
    current_observation = observation;
  })

unfoldable pub load_checkpoint : CheckpointFile → Committed (Option Checkpoint)
load_checkpoint absent = ok none
load_checkpoint untrusted = err not_trusted
load_checkpoint (holds v) = parse_checkpoint v >>= λ c. ok (some c)

abbrev carries : String → Entry → Bool
carries tid (some t, _) = str_eq t tid
carries tid (none, _) = false

-- `journal.has_transition`
unfoldable pub has_transition : String → List Entry → Bool
has_transition tid [] = false
has_transition tid (e ∷ es) = carries tid e || has_transition tid es

abbrev pub same_texts : List String → List String → Bool
same_texts [] [] = true
same_texts (s ∷ ss) (t ∷ ts) = str_eq s t && same_texts ss ts
same_texts _ _ = false

-- `_inject`
abbrev pub inject : Fields × String → Entry
inject (e, tid) = (some tid, e)

abbrev pub ids : List (Fields × String) → List String
ids [] = []
ids ((_, tid) ∷ ps) = tid ∷ ids ps

-- the appends of a loop that skips what the journal has
unfoldable pub missing : List Entry → List (Fields × String) → List Step
missing journal [] = []
missing journal (p ∷ ps) =
    let skipped = missing journal ps in
    let rest = missing (journal ++ (inject p ∷ [])) ps in
    if has_transition p.1 journal then skipped else append_event (inject p) ∷ rest

abbrev pub appends : List (Fields × String) → List Step
appends [] = []
appends (p ∷ ps) = append_event (inject p) ∷ appends ps

abbrev pub replace : Fields → List Step
replace current = write_observation current ∷ clear_checkpoint ∷ []

-- What the observer asks of events.py: the fingerprint of an observation, the events between two of
-- them and an event's id.
pub record Events : Type 0 where
  pub fingerprint : Fields → String
  pub derive_events : Option Fields → Fields → List Fields
  pub transition_event_id : String → String → Fields → String

module _ (ev : Events) where
  -- `observation_state_fingerprint`
  abbrev pub state_digest : Option Fields → String
  state_digest none = ""
  state_digest (some o) = ev.fingerprint o

  -- `observation_state_fingerprint(disk) if disk else ''`
  abbrev pub disk_digest : Option Fields → String
  disk_digest none = ""
  disk_digest (some end) = ""
  disk_digest (some (field k v fs)) = ev.fingerprint (field k v fs)

  abbrev with_ids : String → String → List Fields → List (Fields × String)
  with_ids old new [] = []
  with_ids old new (e ∷ es) = (e, ev.transition_event_id old new e) ∷ with_ids old new es

  -- the events of a transition, each with its id
  unfoldable pub planned : String → Option Fields → Fields → List (Fields × String)
  planned old previous current =
      with_ids old (ev.fingerprint current) (ev.derive_events previous current)

  abbrev complete :
      Checkpoint → World → List (Fields × String) → Committed (List Step × Option Fields)
  complete c w events =
      if same_texts (ids events) c.event_transition_ids
      then ok
          (missing w.journal events ++ replace c.current_observation, some c.current_observation)
      else err ids_mismatch

  unfoldable pub recover_from : Checkpoint → World → Committed (List Step × Option Fields)
  recover_from c w =
      if not (str_eq (ev.fingerprint c.current_observation) c.current_state_digest)
      then err inconsistent
      else if str_eq (disk_digest w.observation) c.current_state_digest
      then (if all (λ tid. has_transition tid w.journal) c.event_transition_ids
          then ok (clear_checkpoint ∷ [], w.observation)
          else err event_missing)
      else if not (str_eq (disk_digest w.observation) c.previous_state_digest)
      then err anchor_mismatch
      else complete c w (planned (disk_digest w.observation) w.observation c.current_observation)

  -- `recover_pending_transition`: its writes and what it returns
  unfoldable pub recover_pending_transition : World → Committed (List Step × Option Fields)
  recover_pending_transition w = load_checkpoint w.checkpoint >>= λ found. elim found [
    | none ↦ ok ([], none)
    | some c ↦ recover_from c w
  ]

  abbrev pub checkpoint_of : Option Fields → Fields → Checkpoint
  checkpoint_of previous current = record {
    previous_state_digest = state_digest previous;
    current_state_digest = ev.fingerprint current;
    event_transition_ids = ids (planned (state_digest previous) previous current);
    current_observation = current;
  }

  abbrev is_same : Checkpoint → Checkpoint → Bool
  is_same c d =
      str_eq c.previous_state_digest d.previous_state_digest
      && str_eq c.current_state_digest d.current_state_digest
      && str_eq (ev.fingerprint c.current_observation) d.current_state_digest
      && same_texts c.event_transition_ids d.event_transition_ids

  abbrev pub commit_with :
      Option Fields
      → Fields
      → World
      → List (Fields × String)
      → Option Checkpoint
      → Committed (List Step)
  commit_with previous current w [] none = ok (replace current)
  commit_with previous current w [] (some c) =
      if str_eq (disk_digest w.observation) c.current_state_digest
      then ok (replace current)
      else err not_converged
  commit_with previous current w (p ∷ ps) (some c) =
      if is_same c (checkpoint_of previous current)
      then ok (missing w.journal (p ∷ ps) ++ replace current)
      else err conflicting
  commit_with previous current w (p ∷ ps) none =
      ok (write_checkpoint (checkpoint_of previous current) ∷ appends (p ∷ ps) ++ replace current)

  -- `commit_transition`: its writes
  unfoldable pub commit_transition : Option Fields → Fields → World → Committed (List Step)
  commit_transition previous current w = load_checkpoint w.checkpoint >>= λ found.
      commit_with previous current w (planned (state_digest previous) previous current) found
