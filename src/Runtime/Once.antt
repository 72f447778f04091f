-- ===== src/Runtime/Once.antt =====
-- A decision's identity is decided once.
use mathlib.Core.Path.{subst⁻¹}
use rill_xray_agent.Prelude.{
  ℕ, String, ◌≡◌, refl, true, false, none, some, List, [], ◌∷◌, arith, str_eq, eq_iff, eq_refl,
  Option-cases, Bool-cases, inl, inr,
}
use rill_xray_agent.Prelude.Dict.{get, get-put}
use rill_xray_agent.Prelude.Result.{ok, err}
use rill_xray_agent.Ledger.Files.{ClosedLedger}
use rill_xray_agent.Runtime.Decisions.{
  Identity, same_identity, Entry, RuntimeState, Digests, registered, idempotent, identity_conflict,
  entry_of, register, commit_root_result, saved,
}

pub data Call (R : Type 0) : Type 0 where
  registers : ClosedLedger → Identity → ℕ → Call R
  commits : String → R → Call R

module _ {R : Type 0} (digests : Digests R) where
  unfoldable pub run : RuntimeState R → List (Call R) → RuntimeState R
  run s [] = s
  run s (registers ledger ident now ∷ cs) =
      run (saved digests s (register digests ledger s ident now)) cs
  run s (commits did result ∷ cs) =
      run (saved digests s (commit_root_result digests s did result)) cs

  -- the decision is pending with this identity, and with this result if it has one
  abbrev pub Pending : Identity → RuntimeState R → Type 0
  Pending ident s =
      (e : Entry R) × (get ident.decision_id s.pending ≡ some e) × (e.identity ≡ ident)

  register-Pending :
      (ledger : ClosedLedger) (s : RuntimeState R) (ident other : Identity) (now : ℕ)
      → Pending ident s
      → Pending ident (saved digests s (register digests ledger s other now))
  unfolding register entry_of
  register-Pending ledger s ident other now (e, there, own) = (
    e,
    ground (
      arith,
      get-put other.decision_id ident.decision_id
          (record { identity = other; root_result = none; registered_at_epoch_seconds = now })
          s.pending,
      eq_iff other.decision_id ident.decision_id,
    ),
    own,
  )

  commit-Pending :
      (s : RuntimeState R) (ident : Identity) (did : String) (result : R)
      → Pending ident s
      → Pending ident (saved digests s (commit_root_result digests s did result))
  unfolding commit_root_result
  commit-Pending s ident did result (e, there, own) = elim (Option-cases (get did s.pending)) [
    | inl gone ↦ (e, ground arith, own)
    | inr (p, found) ↦ elim (Option-cases p.root_result) [
      | inr (r, has) ↦ (e, ground arith, own)
      | inl fresh ↦ elim (Bool-cases (str_eq did ident.decision_id)) [
        | inl same ↦ (
          record p { root_result = some result },
          ground (
            arith,
            get-put did ident.decision_id (record p { root_result = some result }) s.pending,
          ),
          ground (arith, eq_iff did ident.decision_id),
        )
        | inr differs ↦ (
          e,
          ground (
            arith,
            get-put did ident.decision_id (record p { root_result = some result }) s.pending,
          ),
          own,
        )
      ]
    ]
  ]

  run-Pending :
      (s : RuntimeState R) (ident : Identity) (cs : List (Call R))
      → Pending ident s
      → Pending ident (run s cs)
  unfolding run
  run-Pending s ident [] h = h
  run-Pending s ident (registers ledger other now ∷ cs) h =
      run-Pending (saved digests s (register digests ledger s other now)) ident cs
        (register-Pending ledger s ident other now h)
  run-Pending s ident (commits did result ∷ cs) h =
      run-Pending (saved digests s (commit_root_result digests s did result)) ident cs
        (commit-Pending s ident did result h)

  register-makes :
      (ledger : ClosedLedger) (s q : RuntimeState R) (ident : Identity) (now : ℕ)
      → register digests ledger s ident now ≡ ok (registered, q)
      → Pending ident q
  unfolding register
  register-makes ledger s q ident now h = (
    record { identity = ident; root_result = none; registered_at_epoch_seconds = now },
    ground (
      arith,
      get-put ident.decision_id ident.decision_id
          (record { identity = ident; root_result = none; registered_at_epoch_seconds = now })
          s.pending,
      eq_refl ident.decision_id,
    ),
    refl,
  )

  -- the entry that a registration finds
  entry_of-pending :
      (s : RuntimeState R) (id : String) (e : Entry R)
      → get id s.pending ≡ some e
      → entry_of digests s id ≡ some e
  unfolding entry_of
  entry_of-pending s id e there = ground arith

  register-seen :
      (ledger : ClosedLedger) (s : RuntimeState R) (other : Identity) (now : ℕ) (e : Entry R)
      → entry_of digests s other.decision_id ≡ some e
      → same_identity e.identity other ≡ true
      → register digests ledger s other now ≡ ok (idempotent, s)
  unfolding register
  register-seen ledger s other now e there same = ground arith

  register-conflict :
      (ledger : ClosedLedger) (s : RuntimeState R) (other : Identity) (now : ℕ) (e : Entry R)
      → entry_of digests s other.decision_id ≡ some e
      → same_identity e.identity other ≡ false
      → register digests ledger s other now ≡ err identity_conflict
  unfolding register
  register-conflict ledger s other now e there differs = ground arith

  same_identity_refl : (i : Identity) → same_identity i i ≡ true
  unfolding same_identity
  same_identity_refl i = ground (arith, eq_refl i.capability, eq_refl i.decision_id)

  -- Once `register` has registered a decision, then after any sequence of registrations and results,
  -- whatever the ledger holds by then, the same identity registers again as idempotent and changes
  -- nothing, and a different identity under the same decision id is refused as a conflict.
  pub register-final :
      (ledger later : ClosedLedger) (s q : RuntimeState R) (ident other : Identity) (now now' : ℕ)
      (cs : List (Call R))
      → register digests ledger s ident now ≡ ok (registered, q)
      → other.decision_id ≡ ident.decision_id
      → same_identity ident other ≡ false
      → (register digests later (run q cs) ident now' ≡ ok (idempotent, run q cs))
        × (register digests later (run q cs) other now' ≡ err identity_conflict)
  register-final ledger later s q ident other now now' cs h same differs =
      let (e, there, own) = run-Pending q ident cs (register-makes ledger s q ident now h) in
      (
        register-seen later (run q cs) ident now' e
            (entry_of-pending (run q cs) ident.decision_id e there)
            (subst⁻¹ (λ i. same_identity i ident ≡ true) own (same_identity_refl ident)),
        register-conflict later (run q cs) other now' e
            (entry_of-pending (run q cs) other.decision_id e
              (subst⁻¹ (λ d. get d (run q cs).pending ≡ some e) same there))
            (subst⁻¹ (λ i. same_identity i other ≡ false) own differs),
      )
