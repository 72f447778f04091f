-- ===== src/Ledger/Final.antt =====
-- A tombstone is final: no later call changes or drops it, and what is put can be read.
use mathlib.Core.Path.{subst, subst⁻¹}
use rill_xray_agent.Prelude.{
  ℕ, String, ◌≡◌, ◌≢◌, refl, true, false, not, ◌&&◌, Option, none, some, List, [], ◌∷◌, arith,
  eq_iff, eq_refl, Option-cases, inl, inr,
}
use rill_xray_agent.Prelude.Dict.{get, get-put}
use rill_xray_agent.Prelude.Result.{Result, ok, err}
use rill_xray_agent.Ledger.Files.{
  Tombstone, TombstoneFile, link, damaged, stored, ClosedLedger, found, get_hash, is_same, append,
  put_hashed, LedgerFull, text_differs, number_differs,
}

-- what the call makes of the ledger; an exception leaves it
abbrev pub after : ClosedLedger → Result LedgerFull ClosedLedger → ClosedLedger
after l (ok q) = q
after l (err _) = l

unfoldable pub put_all : (TombstoneFile → ℕ) → ClosedLedger → List Tombstone → ClosedLedger
put_all size l [] = l
put_all size l (t ∷ ts) = put_all size (after l (put_hashed size l t)) ts

found_is :
    (l : ClosedLedger) (h : String) (t : Tombstone)
    → get_hash l h ≡ some (found t)
    → (get h l.root ≡ some (stored t)) × (t.decision_id_hash ≡ h)
unfolding get_hash
found_is l h t e = ground (arith, eq_iff t.decision_id_hash h)

is_found :
    (l : ClosedLedger) (t : Tombstone)
    → get t.decision_id_hash l.root ≡ some (stored t)
    → get_hash l t.decision_id_hash ≡ some (found t)
unfolding get_hash
is_found l t e = ground (arith, eq_refl t.decision_id_hash)

-- a file that is a tombstone stays what it is
kept :
    (size : TombstoneFile → ℕ) (l : ClosedLedger) (t new : Tombstone) (h : String)
    → get h l.root ≡ some (stored t)
    → get h (after l (put_hashed size l new)).root ≡ some (stored t)
unfolding put_hashed append
kept size l t new h e =
    ground
      (arith, get-put new.decision_id_hash h (stored new) l.root, eq_iff new.decision_id_hash h)

-- the same for what `get_hash` gives
pub put_hashed-keeps :
    (size : TombstoneFile → ℕ) (l : ClosedLedger) (h : String) (t new : Tombstone)
    → get_hash l h ≡ some (found t)
    → get_hash (after l (put_hashed size l new)) h ≡ some (found t)
put_hashed-keeps size l h t new e =
    let (there, own) = found_is l h t e in
    let q = after l (put_hashed size l new) in
    subst (λ k. get_hash q k ≡ some (found t)) own
      (is_found q t (subst⁻¹ (λ k. get k q.root ≡ some (stored t)) own (kept size l t new h there)))

-- A decision that has a tombstone has the same one after any sequence of calls of `put_hashed`, whatever
-- they put, whether they succeed or raise, and however full the ledger is.
pub put_all-keeps :
    (size : TombstoneFile → ℕ) (l : ClosedLedger) (h : String) (t : Tombstone) (ts : List Tombstone)
    → get_hash l h ≡ some (found t)
    → get_hash (put_all size l ts) h ≡ some (found t)
unfolding put_all
put_all-keeps size l h t [] e = e
put_all-keeps size l h t (new ∷ ts) e =
    put_all-keeps size (after l (put_hashed size l new)) h t ts (put_hashed-keeps size l h t new e)

is_same_refl : (t : Tombstone) → is_same t t ≡ true
unfolding is_same
is_same_refl t =
    rw (eq_refl t.decision_id_hash, eq_refl t.identity_hash, eq_refl t.payload_hash)
      (both t.capability t.model_generation)
  where
    both :
        (c : Option String) (n : Option ℕ)
        → (not (text_differs c c) && not (number_differs n n)) ≡ true
    both none none = refl
    both none (some n) = ground arith
    both (some c) none = rw (eq_refl c) refl
    both (some c) (some n) = rw (eq_refl c) (ground arith)

-- what a call that succeeds leaves under the decision's name
put_hashed-leaves :
    (size : TombstoneFile → ℕ) (l q : ClosedLedger) (t : Tombstone)
    → put_hashed size l t ≡ ok q
    → (old : Tombstone) × (get t.decision_id_hash q.root ≡ some (stored old))
      × (is_same old t ≡ true)
unfolding put_hashed append
put_hashed-leaves size l q t h = elim (Option-cases (get t.decision_id_hash l.root)) [
  | inl none_there ↦ (
    t,
    ground (
      arith,
      get-put t.decision_id_hash t.decision_id_hash (stored t) l.root,
      eq_refl t.decision_id_hash,
    ),
    is_same_refl t,
  )
  | inr (link, e) ↦ ground arith
  | inr (damaged, e) ↦ ground arith
  | inr (stored old, e) ↦ (old, ground arith, ground arith)
]

put_hashed-repeats :
    (size : TombstoneFile → ℕ) (q : ClosedLedger) (t old : Tombstone)
    → q.io_error ≡ false
    → get t.decision_id_hash q.root ≡ some (stored old)
    → is_same old t ≡ true
    → put_hashed size q t ≡ ok q
unfolding put_hashed
put_hashed-repeats size q t old io e same = ground arith

put_hashed-io :
    (size : TombstoneFile → ℕ) (l q : ClosedLedger) (t : Tombstone)
    → put_hashed size l t ≡ ok q
    → q.io_error ≡ false
unfolding put_hashed append
put_hashed-io size l q t h = ground arith

pub is_same-own :
    (old t : Tombstone) → is_same old t ≡ true → old.decision_id_hash ≡ t.decision_id_hash
unfolding is_same
is_same-own old t h = ground (arith, eq_iff old.decision_id_hash t.decision_id_hash)

put_hashed-others :
    (size : TombstoneFile → ℕ) (l q : ClosedLedger) (t : Tombstone)
    → put_hashed size l t ≡ ok q
    → (k : String) → t.decision_id_hash ≢ k
    → get_hash q k ≡ get_hash l k
unfolding put_hashed append get_hash
put_hashed-others size l q t h k other =
    ground (arith, get-put t.decision_id_hash k (stored t) l.root, eq_iff t.decision_id_hash k)

-- Where `put_hashed` succeeds, the decision has a tombstone that fits in the decision, the identity and
-- the payload and contradicts none of the optional fields; the same call succeeds again and changes
-- nothing, however full the ledger is; and the tombstones of all other decisions are as before.
pub put_hashed-get_hash :
    (size : TombstoneFile → ℕ) (l q : ClosedLedger) (t : Tombstone)
    → put_hashed size l t ≡ ok q
    → ((old : Tombstone) × (get_hash q t.decision_id_hash ≡ some (found old))
        × (is_same old t ≡ true))
      × (put_hashed size q t ≡ ok q)
      × ((h : String) → t.decision_id_hash ≢ h → get_hash q h ≡ get_hash l h)
put_hashed-get_hash size l q t h =
    let (old, there, same) = put_hashed-leaves size l q t h in
    let own = is_same-own old t same in
    (
      (
        old,
        subst (λ k. get_hash q k ≡ some (found old)) own
            (is_found q old (subst⁻¹ (λ k. get k q.root ≡ some (stored old)) own there)),
        same,
      ),
      put_hashed-repeats size q t old (put_hashed-io size l q t h) there same,
      put_hashed-others size l q t h,
    )
