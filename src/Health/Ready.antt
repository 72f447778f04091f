-- ===== src/Health/Ready.antt =====
-- What a host that is ready can rely on.
use rill_xray_agent.Prelude.{
  ℕ, ◌≤◌, String, ◌≡◌, Bool, true, some, List, [], ◌∷◌, arith, All, eq_iff, ◌⊎◌, inl, inr,
  Option-cases,
}
use rill_xray_agent.Health.Scan.{
  WorkFiles, Item, file, linked, directory, bundle_integrity, Scan, empty_scan, unsafe_of,
  incomplete_of, add_item, scan_from, health,
}

-- the directory of a transaction that has ended, with its artifacts
abbrev pub IsSettled : Bool → Item → Type 0
IsSettled delivered file = Unit
IsSettled delivered linked = ⊥
IsSettled delivered (directory w) =
    (s : String) × (w.state ≡ some s)
    × (((bundle_integrity w ≡ some s)
          × (delivered ≡ true)
          × ((s ≡ "committed") ⊎ (s ≡ "rolledBack")))
        ⊎ ((s ≡ "rejected") ⊎ (s ≡ "noChange")))

grows :
    (delivered : Bool) (r : Scan) (xs : List Item)
    → (r.incomplete ≤ (scan_from delivered r xs).incomplete)
      × (r.unsafe ≤ (scan_from delivered r xs).unsafe)
unfolding scan_from add_item
grows delivered r [] = (omega arith, omega arith)
grows delivered r (file ∷ xs) = grows delivered r xs
grows delivered r (linked ∷ xs) =
    let g = grows delivered (add_item delivered linked r) xs in
    (omega (arith, g.0), omega (arith, g.1))
grows delivered r (directory w ∷ xs) =
    let g = grows delivered (add_item delivered (directory w) r) xs in (ground arith, ground arith)

settled_state :
    (w : WorkFiles) (delivered : Bool) (s : String)
    → unsafe_of w delivered s ≡ 0
    → incomplete_of s ≡ 0
    → ((bundle_integrity w ≡ some s)
        × (delivered ≡ true)
        × ((s ≡ "committed") ⊎ (s ≡ "rolledBack")))
      ⊎ ((s ≡ "rejected") ⊎ (s ≡ "noChange"))
unfolding unsafe_of incomplete_of
settled_state w delivered s u i = elim (Option-cases (bundle_integrity w)) [
  | inl gone ↦ ground (
    arith,
    eq_iff s "committed",
    eq_iff s "rolledBack",
    eq_iff s "rollbackUnverified",
    eq_iff s "rejected",
    eq_iff s "noChange",
  )
  | inr (b, there) ↦ ground (
    arith,
    eq_iff b s,
    eq_iff s "committed",
    eq_iff s "rolledBack",
    eq_iff s "rollbackUnverified",
    eq_iff s "rejected",
    eq_iff s "noChange",
  )
]

item-IsSettled :
    (delivered : Bool) (x : Item) (r : Scan)
    → (add_item delivered x r).incomplete ≤ 0
    → (add_item delivered x r).unsafe ≤ 0
    → IsSettled delivered x
unfolding add_item
item-IsSettled delivered file r i u = tt
item-IsSettled delivered linked r i u = absurd (omega arith)
item-IsSettled delivered (directory w) r i u = elim (Option-cases w.state) [
  | inl gone ↦ absurd (ground arith)
  | inr (s, e) ↦ (s, e, settled_state w delivered s (ground arith) (ground arith))
]

clean-IsSettled :
    (delivered : Bool) (r : Scan) (xs : List Item)
    → (scan_from delivered r xs).incomplete ≡ 0
    → (scan_from delivered r xs).unsafe ≡ 0
    → All (IsSettled delivered) xs
unfolding scan_from
clean-IsSettled delivered r [] i u = tt
clean-IsSettled delivered r (x ∷ xs) i u =
    let g = grows delivered (add_item delivered x r) xs in
    (
      item-IsSettled delivered x r (omega (arith, g.0)) (omega (arith, g.1)),
      clean-IsSettled delivered (add_item delivered x r) xs i u,
    )

ready-clean :
    (tx : Scan) (audit_valid : Bool) (pending : ℕ)
    → (health tx audit_valid pending).ready ≡ true
    → (tx.incomplete ≡ 0) × (tx.unsafe ≡ 0) × (audit_valid ≡ true) × (pending ≡ 0)
unfolding health
ready-clean tx audit_valid pending h = ground arith

-- A host is ready only if no operation is pending, the audit chain verifies, and every directory among
-- the transactions is rejected or without change, or is committed or rolled back with a bundle of that
-- state whose hash is right, its result and its receipt, and the delivery that is asked for.
pub ready-IsSettled :
    (delivered : Bool) (items : List Item) (audit_valid : Bool) (pending : ℕ)
    → (health (scan_from delivered empty_scan items) audit_valid pending).ready ≡ true
    → All (IsSettled delivered) items × (audit_valid ≡ true) × (pending ≡ 0)
ready-IsSettled delivered items audit_valid pending h =
    let c = ready-clean (scan_from delivered empty_scan items) audit_valid pending h in
    (clean-IsSettled delivered empty_scan items c.0 c.1, c.2, c.3)
