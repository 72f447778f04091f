-- ===== src/Observer/Once.antt =====
-- A transition that is cut short anywhere, and the recoveries after it.
use mathlib.Core.Path.{subst, subst⁻¹}
use mathlib.Core.List.{append-nil, append_assoc}
use rill_xray_agent.Prelude.{
  ℕ, zero, suc, String, ◌≡◌, refl, ap, sym, ◌∙◌, true, false, Option, none, some, List, [], ◌∷◌,
  ◌++◌, map, All, all, arith, str_eq, eq_refl,
}
use rill_xray_agent.Prelude.Result.{ok}
use rill_xray_agent.Json.{Fields}
use rill_xray_agent.Observer.Transition.{
  Events, Entry, World, Checkpoint, absent, holds, checkpoint_json, Step, clear_checkpoint, perform,
  run, run_all, has_transition, same_texts, inject, ids, missing, appends, replace, state_digest,
  disk_digest, planned, recover_from, recover_pending_transition, checkpoint_of, load_checkpoint,
  are_distinct,
}
use rill_xray_agent.Observer.Replay.{
  IsIn, IsNew, injected-IsIn, rest-IsNew, missing-past, missing-rest,
}
use rill_xray_agent.Observer.Load.{IsWellFormed, load_checkpoint-written}

pub same_texts_refl : (ss : List String) → same_texts ss ss ≡ true
same_texts_refl [] = refl
same_texts_refl (s ∷ ss) = ground (arith, eq_refl s, same_texts_refl ss)

known_ids :
    (j : List Entry) (ps : List (Fields × String))
    → All (IsIn j) ps
    → all (λ t. has_transition t j) (ids ps) ≡ true
known_ids j [] h = refl
known_ids j (p ∷ ps) h = ground (arith, h.0, known_ids j ps h.1)

run-nil : (n : ℕ) (w : World) → run n [] w ≡ w
run-nil zero w = refl
run-nil (suc n) w = refl

map-append :
    (xs ys : List (Fields × String)) → map inject (xs ++ ys) ≡ map inject xs ++ map inject ys
map-append [] ys = refl
map-append (x ∷ xs) ys = ap (λ zs. inject x ∷ zs) (map-append xs ys)

journal-append :
    (j : List Entry) (past : List (Fields × String)) (p : Fields × String)
    → j ++ map inject (past ++ (p ∷ [])) ≡ (j ++ map inject past) ++ (inject p ∷ [])
journal-append j past p =
    ap (λ xs. j ++ xs) (map-append past (p ∷ []))
    ∙ sym (append_assoc j (map inject past) (inject p ∷ []))

module _ (ev : Events) (previous : Option Fields) (current : Fields) where
  abbrev own : Checkpoint
  own = checkpoint_of ev previous current

  -- the events of the transition, with their ids
  abbrev pub events : List (Fields × String)
  events = planned ev (state_digest ev previous) previous current

  -- the disk with a journal, while the transition is pending, when the observation is replaced, and after
  abbrev pub pending_at : List Entry → World
  pending_at j = record {
    journal = j;
    observation = previous;
    checkpoint = holds (checkpoint_json own);
  }

  abbrev pub replaced_at : List Entry → World
  replaced_at j = record {
    journal = j;
    observation = some current;
    checkpoint = holds (checkpoint_json own);
  }

  abbrev pub settled_at : List Entry → World
  settled_at j = record { journal = j; observation = some current; checkpoint = absent }

  pub run_all-appends :
      (rest : List (Fields × String)) (j : List Entry)
      → run_all (appends rest ++ replace current) (pending_at j) ≡ settled_at (j ++ map inject rest)
  unfolding perform
  run_all-appends [] j = ap settled_at (sym (append-nil j))
  run_all-appends (p ∷ rest) j =
      run_all-appends rest (j ++ (inject p ∷ []))
      ∙ ap settled_at (append_assoc j (inject p ∷ []) (map inject rest))

  module _ (start : List Entry) where
    -- the states that the disk goes through
    pub data Phase (w : World) : Type 0 where
      pending :
          (past rest : List (Fields × String))
          → events ≡ past ++ rest
          → w ≡ pending_at (start ++ map inject past)
          → Phase w
      replaced : w ≡ replaced_at (start ++ map inject events) → Phase w
      settled : w ≡ settled_at (start ++ map inject events) → Phase w

    pub run-Phase :
        (n : ℕ) (past rest : List (Fields × String))
        → events ≡ past ++ rest
        → Phase (run n (appends rest ++ replace current) (pending_at (start ++ map inject past)))
    unfolding perform
    run-Phase zero past rest e = pending past rest e refl
    run-Phase (suc zero) past [] e =
        replaced (ap (λ ps. replaced_at (start ++ map inject ps)) (sym (e ∙ append-nil past)))
    run-Phase (suc (suc n)) past [] e =
        settled
          (run-nil n _ ∙ ap (λ ps. settled_at (start ++ map inject ps)) (sym (e ∙ append-nil past)))
    run-Phase (suc n) past (p ∷ rest) e =
        subst (λ j. Phase (run n (appends rest ++ replace current) (pending_at j)))
          (journal-append start past p)
          (run-Phase n (past ++ (p ∷ [])) rest (e ∙ sym (append_assoc past (p ∷ []) rest)))

    run-clear :
        (n : ℕ) → Phase (run n (clear_checkpoint ∷ []) (replaced_at (start ++ map inject events)))
    unfolding perform
    run-clear zero = replaced refl
    run-clear (suc n) = settled (run-nil n _)

    module _ (well : IsWellFormed own)
        (same_disk : disk_digest ev previous ≡ state_digest ev previous)
        (current_disk : disk_digest ev (some current) ≡ ev.fingerprint current)
        (moved : str_eq (state_digest ev previous) (ev.fingerprint current) ≡ false)
        (new : All (IsNew start) events) where
      distinct_events : are_distinct (ids events) ≡ true
      distinct_events = ap are_distinct well.ids_are ∙ well.distinct

      left :
          (past rest : List (Fields × String))
          → events ≡ past ++ rest
          → missing (start ++ map inject past) events ≡ appends rest
      left past rest e =
          let later =
            rest-IsNew start past rest (ap (λ ps. are_distinct (ids ps)) (sym e) ∙ distinct_events)
              (subst (All (IsNew start)) e new) in
          ap (missing (start ++ map inject past)) e
          ∙ missing-past (start ++ map inject past) past rest (injected-IsIn start past)
          ∙ missing-rest (start ++ map inject past) rest later.0 later.1

      recover-pending :
          (past rest : List (Fields × String))
          → events ≡ past ++ rest
          → recover_pending_transition ev (pending_at (start ++ map inject past))
            ≡ ok (appends rest ++ replace current, some current)
      unfolding recover_pending_transition recover_from
      recover-pending past rest e =
          rw (load_checkpoint-written own well) rw
            (
              eq_refl (ev.fingerprint current),
              same_disk,
              moved,
              eq_refl (state_digest ev previous),
              same_texts_refl (ids events),
            )
            (ap (λ steps. ok (steps ++ replace current, some current)) (left past rest e))

      recover-replaced :
          recover_pending_transition ev (replaced_at (start ++ map inject events))
          ≡ ok (clear_checkpoint ∷ [], some current)
      unfolding recover_pending_transition recover_from
      recover-replaced =
          rw
            (
              load_checkpoint-written own well,
              eq_refl (ev.fingerprint current),
              current_disk,
              eq_refl (ev.fingerprint current),
              known_ids (start ++ map inject events) events (injected-IsIn start events),
            )
            refl

      recover-settled :
          recover_pending_transition ev (settled_at (start ++ map inject events)) ≡ ok ([], none)
      unfolding recover_pending_transition load_checkpoint
      recover-settled = refl

      -- A recovery of a disk in a phase: it plans its writes, a part of them leaves a phase, and all of
      -- them settle the transition.
      abbrev pub Recovers : World → Type 0
      Recovers w =
          (plan : List Step) × (reply : Option Fields) × (recover_pending_transition ev w
            ≡ ok (plan, reply))
          × (run_all plan w ≡ settled_at (start ++ map inject events))
          × ((n : ℕ) → Phase (run n plan w))

      pending-Recovers :
          (past rest : List (Fields × String))
          → events ≡ past ++ rest
          → Recovers (pending_at (start ++ map inject past))
      pending-Recovers past rest e = (
        appends rest ++ replace current,
        some current,
        recover-pending past rest e,
        run_all-appends rest (start ++ map inject past)
            ∙ ap settled_at (
                append_assoc start (map inject past) (map inject rest)
                ∙ ap (λ xs. start ++ xs) (sym (map-append past rest) ∙ ap (map inject) (sym e))),
        λ n. run-Phase n past rest e,
      )

      replaced-Recovers : Recovers (replaced_at (start ++ map inject events))
      unfolding perform
      replaced-Recovers = (clear_checkpoint ∷ [], some current, recover-replaced, refl, run-clear)

      settled-Recovers : Recovers (settled_at (start ++ map inject events))
      settled-Recovers = ([], none, recover-settled, refl, λ n. settled (run-nil n _))

      pub Phase-Recovers : (w : World) → Phase w → Recovers w
      Phase-Recovers w (pending past rest e f) = subst⁻¹ Recovers f (pending-Recovers past rest e)
      Phase-Recovers w (replaced f) = subst⁻¹ Recovers f replaced-Recovers
      Phase-Recovers w (settled f) = subst⁻¹ Recovers f settled-Recovers
