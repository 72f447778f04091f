-- ===== src/Observer/Load.antt =====
-- What `load_checkpoint` reads of a checkpoint that was written.
use rill_xray_agent.Prelude.{
  String, ◌≡◌, refl, true, ◌||◌, some, List, [], ◌∷◌, all, str_eq, &&-left, &&-right,
}
use rill_xray_agent.Prelude.Result.{ok}
use rill_xray_agent.Json.Edit.{value}
use rill_xray_agent.Observer.Transition.{
  Checkpoint, checkpoint_json, texts, is_hex, digests_of, are_distinct, parse_checkpoint,
  load_checkpoint, holds,
}

-- The digests of a checkpoint are as SHA-256 gives them, and there is at least one event.
pub record IsWellFormed (c : Checkpoint) : Type 0 where
  pub old_digest : (str_eq c.previous_state_digest "" || is_hex c.previous_state_digest) ≡ true
  pub new_digest : is_hex c.current_state_digest ≡ true
  pub first : String
  pub others : List String
  pub ids_are : c.event_transition_ids ≡ first ∷ others
  pub id_digests : all is_hex (first ∷ others) ≡ true
  pub distinct : are_distinct (first ∷ others) ≡ true

digests_of-texts : (ss : List String) → all is_hex ss ≡ true → digests_of (texts ss) ≡ some ss
unfolding digests_of
digests_of-texts [] h = refl
digests_of-texts (s ∷ ss) h =
    rw
      (
        &&-left (is_hex s) (all is_hex ss) h,
        digests_of-texts ss (&&-right (is_hex s) (all is_hex ss) h),
      )
      refl

pub load_checkpoint-written :
    (c : Checkpoint) → IsWellFormed c → load_checkpoint (holds (checkpoint_json c)) ≡ ok (some c)
unfolding load_checkpoint parse_checkpoint checkpoint_json value
load_checkpoint-written c w =
    let i = w.ids_are in
    let o = w.old_digest in
    let n = w.new_digest in
    let d = w.distinct in
    let t = digests_of-texts (w.first ∷ w.others) w.id_digests in rw (i, o, n, t, d) refl
