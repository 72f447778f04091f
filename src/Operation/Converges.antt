-- ===== src/Operation/Converges.antt =====
-- What each outcome of a recovery leaves.
use rill_xray_agent.Prelude.{
  String, ◌≡◌, ◌≢◌, ◌⊎◌, inl, inr, refl, Bool, true, false, not, ◌&&◌, Option, none, some, List, [],
  ◌∷◌, All, arith, eq_iff, str_eq,
}
use rill_xray_agent.Ledger.Files.{Tombstone, ClosedLedger}
use rill_xray_agent.Audit.Log.{Event, AuditLog, drop_intent, dismiss_pending, lines}
use rill_xray_agent.Operation.Recover.{
  Intent, Site, Setting, Outcome, recovered, cancelled, unresolved, audit_written, ledger_applied,
  heal_ledger, commit_missing, commit_required, dismiss, is_empty_list, finish, finish_healed,
  heal_and_finish, with_post_state, cancel, recover_one,
}
use rill_xray_agent.Operation.Healed.{IsClosed, ledger_applied-IsClosed, heal_ledger-IsClosed}
use rill_xray_agent.Operation.Recorded.{
  IsRecorded, Recorded, if-either, commit_missing-Recorded, commit_required-Recorded,
}

-- the events of the audit, if there is one
abbrev pub events_of : Option AuditLog → Option (List Event)
events_of none = none
events_of (some l) = some (lines l.segments)

-- Why a recovery does not come through: `_heal_ledger` raises, `commit_event` raises, or the state is
-- neither that of before nor that of after.
abbrev pub IsObstructed : Setting → Intent → Site → Type 0
IsObstructed o i s =
    ((heal_ledger o.size s.ledger i.mutations).0 ≡ false)
    ⊎ ((commit_required o i.event s.audit).0 ≡ false)
    ⊎ ((s.terminal ≡ false)
        × (s.state_sha256 ≢ i.pre_state_sha256)
        × (s.state_sha256 ≢ i.post_state_sha256))

-- what the report promises of the site after the recovery
pub record IsReported (setting : Setting) (i : Intent) (before : Site) (o : Outcome) (after : Site)
    : Type 0 where
  pub if_recovered :
      o ≡ recovered
      → (after.state_sha256 ≡ i.post_state_sha256)
        × All (IsClosed after.ledger) i.mutations
        × IsRecorded i.event after.audit
        × (after.terminal ≡ true)
        × (after.intent ≡ false)
  pub if_cancelled :
      o ≡ cancelled
      → (after.state_sha256 ≡ i.pre_state_sha256)
        × (after.ledger ≡ before.ledger)
        × (events_of after.audit ≡ events_of before.audit)
        × (after.terminal ≡ false)
        × (after.intent ≡ false)
  pub if_unresolved :
      o ≡ unresolved → (after.intent ≡ before.intent) × IsObstructed setting i before

module _ (o : Setting) (i : Intent) (before : Site) where
  abbrev Reported : Outcome × Site → Type 0
  Reported r = IsReported o i before r.0 r.1

  finish-Reported :
      (s : Site) (r : Bool × Option AuditLog)
      → s.state_sha256 ≡ i.post_state_sha256
      → All (IsClosed s.ledger) i.mutations
      → s.intent ≡ before.intent
      → Recorded i.event r
      → (r.0 ≡ false → (commit_required o i.event before.audit).0 ≡ false)
      → Reported (finish r s)
  unfolding finish
  finish-Reported s (true, audit) state closed kept recorded why = record {
    if_recovered = λ h. (state, closed, recorded refl, refl, refl);
    if_cancelled = λ h. cc;
    if_unresolved = λ h. cc;
  }
  finish-Reported s (false, audit) state closed kept recorded why = record {
    if_recovered = λ h. cc;
    if_cancelled = λ h. cc;
    if_unresolved = λ h. (kept, inr (inl (why refl)));
  }

  finish_healed-Reported :
      (s : Site) (r : Bool × ClosedLedger) (c : Bool × Option AuditLog)
      → s.state_sha256 ≡ i.post_state_sha256
      → (r.0 ≡ true → All (IsClosed r.1) i.mutations)
      → s.intent ≡ before.intent
      → Recorded i.event c
      → (r.0 ≡ false → (heal_ledger o.size before.ledger i.mutations).0 ≡ false)
      → (c.0 ≡ false → (commit_required o i.event before.audit).0 ≡ false)
      → Reported (finish_healed r c s)
  unfolding finish_healed
  finish_healed-Reported s (true, ledger) c state closed kept recorded unhealed why =
      finish-Reported (record s { ledger = ledger }) c state (closed refl) kept recorded why
  finish_healed-Reported s (false, ledger) c state closed kept recorded unhealed why = record {
    if_recovered = λ h. cc;
    if_cancelled = λ h. cc;
    if_unresolved = λ h. (kept, inl (unhealed refl));
  }

  missing-required :
      (event : Option Event) (audit : Option AuditLog)
      → (commit_missing o event audit).0 ≡ false
      → (commit_required o event audit).0 ≡ false
  unfolding commit_required commit_missing
  missing-required none none h = h
  missing-required none (some l) h = cc
  missing-required (some e) audit h = h

  -- the site, with a state that is that of after
  heal_and_finish-Reported :
      (state : String)
      → state ≡ i.post_state_sha256
      → Reported (heal_and_finish o i (record before { state_sha256 = state }))
  unfolding heal_and_finish
  heal_and_finish-Reported state post =
      finish_healed-Reported (record before { state_sha256 = state })
        (heal_ledger o.size before.ledger i.mutations) (commit_missing o i.event before.audit) post
        (heal_ledger-IsClosed o.size i.mutations before.ledger) refl
        (commit_missing-Recorded o i.event before.audit) (λ h. h)
        (missing-required i.event before.audit)

  -- `dismiss_pending` does not touch the events
  dismiss-events :
      (event : Option Event) (audit : Option AuditLog)
      → events_of (dismiss o event audit) ≡ events_of audit
  unfolding dismiss dismiss_pending drop_intent
  dismiss-events event none = refl
  dismiss-events none (some l) = ground arith
  dismiss-events (some e) (some l) = ground arith

  empty-IsClosed :
      (l : ClosedLedger) (ms : List Tombstone) → is_empty_list ms ≡ true → All (IsClosed l) ms
  empty-IsClosed l [] h = tt
  empty-IsClosed l (m ∷ ms) h = cc

  written-IsRecorded :
      (event : Option Event) (audit : Option AuditLog)
      → audit_written event audit ≡ true
      → IsRecorded event audit
  written-IsRecorded none audit h = tt
  written-IsRecorded (some e) none h = tt
  written-IsRecorded (some e) (some l) h = h

  cancel-Reported :
      before.terminal ≡ false
      → before.state_sha256 ≡ i.pre_state_sha256
      → Reported (cancel o i before)
  unfolding cancel
  cancel-Reported not_done state = record {
    if_recovered = λ h. cc;
    if_cancelled = λ h. (state, refl, dismiss-events i.event before.audit, not_done, refl);
    if_unresolved = λ h. cc;
  }

differs : {a b : String} → str_eq a b ≡ false → a ≢ b
differs {a} {b} h e = ground (arith, eq_iff a b)

-- The report of `_recover_one` is true of every site. An operation that it calls recovered has its
-- state, each of its decisions in the ledger with its identity and its payload, its event in the audit
-- where there are both, its terminal file and no intent; one that it calls cancelled has the state from
-- before, an untouched ledger, the events of the audit from before, no terminal file and no intent; and
-- one that it leaves unresolved keeps its intent, which goes on to fence the state off, and is one where
-- the healing of the ledger or the commit of the event raises, or whose state is neither that of before
-- nor that of after.
pub recover_one-IsReported :
    (o : Setting) (i : Intent) (s : Site)
    → IsReported o i s (recover_one o i s).0 (recover_one o i s).1
unfolding recover_one
recover_one-IsReported o i s =
    if-either R s.terminal _ _ (λ t. heal_and_finish-Reported o i s i.post_state_sha256 refl)
      λ n.
        if-either R (not (is_empty_list i.mutations) && ledger_applied s.ledger i.mutations) _ _
          (λ t.
            finish-Reported o i s (with_post_state i s) _ refl
              (ledger_applied-IsClosed s.ledger i.mutations (ground arith)) refl
              (commit_missing-Recorded o i.event s.audit) (missing-required o i s i.event s.audit))
          λ t.
            if-either R (str_eq s.state_sha256 i.post_state_sha256) _ _
              (λ e.
                let post = (eq_iff s.state_sha256 i.post_state_sha256).0 e in
                if-either R (is_empty_list i.mutations) _ _
                  (λ b.
                    finish-Reported o i s s _ post (empty-IsClosed o i s s.ledger i.mutations b)
                      refl (commit_required-Recorded o i.event s.audit) (λ h. h))
                  λ b. heal_and_finish-Reported o i s s.state_sha256 post)
              λ e.
                if-either R (str_eq s.state_sha256 i.pre_state_sha256) _ _
                  (λ p.
                    if-either R (is_empty_list i.mutations && audit_written i.event s.audit) _ _
                      (λ b.
                        finish-Reported o i s (with_post_state i s) (true, s.audit) refl
                          (empty-IsClosed o i s s.ledger i.mutations (ground arith)) refl
                          (λ h. written-IsRecorded o i s i.event s.audit (ground arith)) (λ h. cc))
                      λ b. cancel-Reported o i s n ((eq_iff s.state_sha256 i.pre_state_sha256).0 p))
                  λ p. record {
                    if_recovered = λ h. cc;
                    if_cancelled = λ h. cc;
                    if_unresolved = λ h. (refl, inr (inr (n, differs p, differs e)));
                  }
  where
    R : Outcome × Site → Type 0
    R r = IsReported o i s r.0 r.1
