-- ===== src/Observer/Repeated.antt =====
-- A transition that happens again, with the events of the first time still in the journal.
use mathlib.Core.List.{append-nil}
use rill_xray_agent.Prelude.{
  String, ◌≡◌, refl, ap, sym, ◌∙◌, false, Option, List, [], ◌++◌, map, All, eq_refl, str_eq,
}
use rill_xray_agent.Json.{Fields}
use rill_xray_agent.Observer.Transition.{
  Events, Entry, perform, ids, missing, state_digest, disk_digest, recover_from,
  recover_pending_transition, commit_transition, checkpoint_of, inject,
}
use rill_xray_agent.Observer.Replay.{IsIn, missing-past}
use rill_xray_agent.Observer.Load.{IsWellFormed, load_checkpoint-written}
use rill_xray_agent.Observer.Once.{events, pending_at, settled_at, same_texts_refl, run_all-appends}
use rill_xray_agent.Observer.Commit.{
  after_all, committed, committed_all, quiet, commit_transition-plan,
}

nothing_left : (j : List Entry) (ps : List (Fields × String)) → All (IsIn j) ps → missing j ps ≡ []
unfolding missing
nothing_left j ps h = ap (missing j) (sym (append-nil ps)) ∙ missing-past j ps [] h

module _ (ev : Events) where
  whole :
      (previous : Option Fields) (current : Fields) (start : List Entry)
      → IsWellFormed (checkpoint_of ev previous current)
      → (let w = quiet ev previous current start in
          committed_all (commit_transition ev previous current w) w)
        ≡ settled_at ev previous current (start ++ map inject (events ev previous current))
  unfolding perform
  whole previous current start well =
      let w = quiet ev previous current start in
      ap (λ c. committed_all c w) (commit_transition-plan ev previous current start well)
      ∙ run_all-appends ev previous current (events ev previous current) start

  -- the disk after the first write of the commit
  first_write :
      (previous : Option Fields) (current : Fields) (start : List Entry)
      → IsWellFormed (checkpoint_of ev previous current)
      → (let w = quiet ev previous current start in
          committed 1 (commit_transition ev previous current w) w)
        ≡ pending_at ev previous current start
  unfolding perform
  first_write previous current start well =
      let w = quiet ev previous current start in
      ap (λ c. committed 1 c w) (commit_transition-plan ev previous current start well)

  lost :
      (previous : Option Fields) (current : Fields) (start : List Entry)
      → IsWellFormed (checkpoint_of ev previous current)
      → disk_digest ev previous ≡ state_digest ev previous
      → str_eq (state_digest ev previous) (ev.fingerprint current) ≡ false
      → All (IsIn start) (events ev previous current)
      → (let w = pending_at ev previous current start in
          after_all (recover_pending_transition ev w) w ≡ settled_at ev previous current start)
  unfolding recover_pending_transition recover_from perform
  lost previous current start well same_disk moved known =
      rw (load_checkpoint-written (checkpoint_of ev previous current) well) rw
        (
          eq_refl (ev.fingerprint current),
          same_disk,
          moved,
          eq_refl (state_digest ev previous),
          same_texts_refl (ids (events ev previous current)),
          nothing_left start (events ev previous current) known,
        )
        refl

  -- Where the journal still has each id of a transition, from the time before, `commit_transition`
  -- without interruption records its events again; but where it is killed after its checkpoint, the
  -- recovery leaves the journal as it was, replaces the observation and removes the checkpoint. The
  -- checkpoint is well formed, the disk holds the previous observation, and the fingerprints of both
  -- observations differ.
  pub recover_pending_transition-skips :
      (previous : Option Fields) (current : Fields) (start : List Entry)
      → IsWellFormed (checkpoint_of ev previous current)
      → disk_digest ev previous ≡ state_digest ev previous
      → str_eq (state_digest ev previous) (ev.fingerprint current) ≡ false
      → All (IsIn start) (events ev previous current)
      → (let before = quiet ev previous current start in
          let commit = commit_transition ev previous current before in
          let killed = committed 1 commit before in
          (committed_all commit before
            ≡ settled_at ev previous current (start ++ map inject (events ev previous current)))
          × (after_all (recover_pending_transition ev killed) killed
              ≡ settled_at ev previous current start))
  recover_pending_transition-skips previous current start well same_disk moved known = (
    whole previous current start well,
    ap (λ w. after_all (recover_pending_transition ev w) w)
          (first_write previous current start well)
        ∙ lost previous current start well same_disk moved known,
  )
