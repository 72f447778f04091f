-- ===== src/Operation/Healed.antt =====
-- What the healing of the ledger and the commit of the event leave.
use mathlib.Core.Path.{subst, subst⁻¹}
use rill_xray_agent.Prelude.{
  ℕ, String, ◌≡◌, refl, Bool, true, false, Option, none, some, List, [], ◌∷◌, All, arith, eq_iff,
}
use rill_xray_agent.Prelude.Result.{Result, ok, err}
use rill_xray_agent.Ledger.Files.{
  Tombstone, TombstoneFile, ClosedLedger, LedgerFull, Found, corrupt, found, get_hash, put_hashed,
  is_same,
}
use rill_xray_agent.Ledger.Final.{after, put_hashed-keeps, put_hashed-get_hash}
use rill_xray_agent.Operation.Recover.{is_applied, ledger_applied, heal_ledger}

-- the decision is closed, with the identity and the payload of the mutation
pub record IsClosed (l : ClosedLedger) (m : Tombstone) : Type 0 where
  pub tombstone : Tombstone
  pub there : get_hash l m.decision_id_hash ≡ some (found tombstone)
  pub identity : tombstone.identity_hash ≡ m.identity_hash
  pub payload : tombstone.payload_hash ≡ m.payload_hash

applied-IsClosed :
    (l : ClosedLedger) (m : Tombstone) (f : Option Found)
    → get_hash l m.decision_id_hash ≡ f
    → is_applied f m ≡ true
    → IsClosed l m
applied-IsClosed l m none e h = cc
applied-IsClosed l m (some corrupt) e h = cc
applied-IsClosed l m (some (found t)) e h = record {
  tombstone = t;
  there = e;
  identity = ground (arith, eq_iff t.identity_hash m.identity_hash);
  payload = ground (arith, eq_iff t.payload_hash m.payload_hash);
}

-- `_ledger_applied` sees each of the mutations.
pub ledger_applied-IsClosed :
    (l : ClosedLedger) (ms : List Tombstone) → ledger_applied l ms ≡ true → All (IsClosed l) ms
unfolding ledger_applied
ledger_applied-IsClosed l [] h = tt
ledger_applied-IsClosed l (m ∷ ms) h = (
  applied-IsClosed l m (get_hash l m.decision_id_hash) refl (ground arith),
  ledger_applied-IsClosed l ms (ground arith),
)

put_hashed-IsClosed :
    (size : TombstoneFile → ℕ) (l q : ClosedLedger) (m : Tombstone)
    → put_hashed size l m ≡ ok q
    → IsClosed q m
unfolding is_same
put_hashed-IsClosed size l q m h =
    let put = (put_hashed-get_hash size l q m h).0 in
    let t = put.0 in
    let same = put.2 in
    record {
      tombstone = t;
      there = put.1;
      identity = ground (arith, eq_iff t.identity_hash m.identity_hash);
      payload = ground (arith, eq_iff t.payload_hash m.payload_hash);
    }

-- the rest of `_heal_ledger`, after a mutation
abbrev healing :
    (TombstoneFile → ℕ)
    → ClosedLedger
    → List Tombstone
    → Result LedgerFull ClosedLedger
    → Bool × ClosedLedger
healing size l ms (err _) = (false, l)
healing size l ms (ok q) = heal_ledger size q ms

heal_ledger-healing :
    (size : TombstoneFile → ℕ) (l : ClosedLedger) (m : Tombstone) (ms : List Tombstone)
    → heal_ledger size l (m ∷ ms) ≡ healing size l ms (put_hashed size l m)
unfolding heal_ledger
heal_ledger-healing size l m ms =
    elim (put_hashed size l m)
      as (λ r. elim r [ err _ ↦ (false, l) | ok q ↦ heal_ledger size q ms ] ≡ healing size l ms r) [
        | err x ↦ refl
        | ok q ↦ refl
      ]

healing-keeps :
    (size : TombstoneFile → ℕ) (l : ClosedLedger) (ms : List Tombstone) (h : String) (t : Tombstone)
    → ((q : ClosedLedger)
        → get_hash q h ≡ some (found t)
        → get_hash (heal_ledger size q ms).1 h ≡ some (found t))
    → (r : Result LedgerFull ClosedLedger) → get_hash (after l r) h ≡ some (found t)
    → get_hash (healing size l ms r).1 h ≡ some (found t)
healing-keeps size l ms h t rest (err x) e = e
healing-keeps size l ms h t rest (ok q) e = rest q e

heal_ledger-keeps :
    (size : TombstoneFile → ℕ) (ms : List Tombstone) (l : ClosedLedger) (h : String) (t : Tombstone)
    → get_hash l h ≡ some (found t)
    → get_hash (heal_ledger size l ms).1 h ≡ some (found t)
heal_ledger-keeps size [] l h t e = unfold heal_ledger in e
heal_ledger-keeps size (m ∷ ms) l h t e =
    subst⁻¹ (λ x. get_hash x.1 h ≡ some (found t)) (heal_ledger-healing size l m ms)
      (healing-keeps size l ms h t (λ q k. heal_ledger-keeps size ms q h t k) (put_hashed size l m)
        (put_hashed-keeps size l h t m e))

-- what is closed stays closed while the ledger is healed
heal_ledger-IsClosed_kept :
    (size : TombstoneFile → ℕ) (ms : List Tombstone) (l : ClosedLedger) (m : Tombstone)
    → IsClosed l m
    → IsClosed (heal_ledger size l ms).1 m
heal_ledger-IsClosed_kept size ms l m c = record {
  tombstone = c.tombstone;
  there = heal_ledger-keeps size ms l m.decision_id_hash c.tombstone c.there;
  identity = c.identity;
  payload = c.payload;
}

healing-IsClosed :
    (size : TombstoneFile → ℕ) (l : ClosedLedger) (m : Tombstone) (ms : List Tombstone)
    → ((q : ClosedLedger)
        → (heal_ledger size q ms).0 ≡ true
        → All (IsClosed (heal_ledger size q ms).1) ms)
    → (r : Result LedgerFull ClosedLedger) → put_hashed size l m ≡ r
    → (healing size l ms r).0 ≡ true
    → All (IsClosed (healing size l ms r).1) (m ∷ ms)
healing-IsClosed size l m ms rest (err x) e h = cc
healing-IsClosed size l m ms rest (ok q) e h =
    (heal_ledger-IsClosed_kept size ms q m (put_hashed-IsClosed size l q m e), rest q h)

-- Where `_heal_ledger` comes through, each mutation is in the ledger.
pub heal_ledger-IsClosed :
    (size : TombstoneFile → ℕ) (ms : List Tombstone) (l : ClosedLedger)
    → (heal_ledger size l ms).0 ≡ true
    → All (IsClosed (heal_ledger size l ms).1) ms
heal_ledger-IsClosed size [] l h = tt
heal_ledger-IsClosed size (m ∷ ms) l h =
    let e = heal_ledger-healing size l m ms in
    subst⁻¹ (λ x. All (IsClosed x.1) (m ∷ ms)) e
      (healing-IsClosed size l m ms (λ q k. heal_ledger-IsClosed size ms q k) (put_hashed size l m)
        refl (subst (λ x. x.0 ≡ true) e h))
