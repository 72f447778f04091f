-- ===== src/RouteExecutor/Reads.antt =====
-- What the parameters of an operation of low risk say of its place.
use mathlib.Core.Path.{subst}
use rill_xray_agent.Prelude.{
  some-injective, ℕ, ◌≤◌, String, ◌≡◌, refl, ap, sym, ◌∙◌, inl, inr, true, false, Option, none,
  some, List, Option-cases, arith, eq_iff, str_eq, leb, leb→le, length, if◌then◌else◌,
}
use rill_xray_agent.Prelude.Int.{pos}
use rill_xray_agent.Prelude.Result.{ok, if-ok}
use rill_xray_agent.Json.{Json, null, num, obj, Fields, end, field, member}
use rill_xray_agent.Json.Edit.{value}
use rill_xray_agent.RouteContract.Risk.{index_of, insert_risk, typed_risk}
use rill_xray_agent.RouteExecutor.Errors.{Raised, position_out_of_range}
use rill_xray_agent.RouteExecutor.Compile.{is_managed, place_of, insert_place, place_at}

-- What an automatic request must leave at its place: a rule of the operator as it is, and the tag of a
-- rule that Rill manages.
unfoldable pub pinned : Json → Json
pinned (obj rule) = if is_managed (obj rule) then value "tag" rule else obj rule
pinned v = v

pub pinned-managed :
    (fs gs : Fields)
    → is_managed (obj fs) ≡ true
    → is_managed (obj gs) ≡ true
    → value "tag" fs ≡ value "tag" gs
    → pinned (obj fs) ≡ pinned (obj gs)
unfolding pinned
pinned-managed fs gs h g e = ground arith

pub member-value : (k : String) (fs : Fields) (v : Json) → member k fs ≡ some v → value k fs ≡ v
unfolding value
member-value k end v h = absurd (ground arith)
member-value k (field j w fs) v h = ground (arith, member-value k fs v)

no_index : (n : ℕ) → index_of null ≡ some n → ⊥
unfolding index_of
no_index n h = ground arith

missing-value : (k : String) (fs : Fields) → member k fs ≡ none → value k fs ≡ null
unfolding value
missing-value k end h = refl
missing-value k (field j w fs) h = ground (arith, missing-value k fs)

place_of-index :
    (rules : List Json) (v : Json) (e : Raised) (k n : ℕ)
    → place_of rules v e ≡ ok k
    → index_of v ≡ some n
    → (k ≡ n) × (k ≤ length rules)
unfolding place_of index_of
place_of-index rules (num (pos m)) e k n h g =
    let test = if-ok (leb m (length rules)) m k e h in
    (
      sym test.1 ∙ some-injective g,
      subst (λ u. u ≤ length rules) test.1 (leb→le m (length rules) test.0),
    )
place_of-index rules v e k n h g = absurd (ground arith)

pub insert_place-index :
    (params : Fields) (rules : List Json) (k n : ℕ)
    → insert_place params rules ≡ ok k
    → index_of (value "position" params) ≡ some n
    → (k ≡ n) × (k ≤ length rules)
unfolding insert_place
insert_place-index params rules k n h g = elim (Option-cases (member "position" params)) [
  | inl e ↦ absurd (no_index n (sym (ap index_of (missing-value "position" params e)) ∙ g))
  | inr (v, e) ↦
      place_of-index rules v position_out_of_range k n (ap (λ o. place_at o rules) (sym e) ∙ h)
        (ap index_of (sym (member-value "position" params v e)) ∙ g)
]

not_low : (s : String) → str_eq s "low" ≡ false → s ≡ "low" → ⊥
not_low s h e = ground (arith, eq_iff s "low")

low_insert : (o : Option ℕ) (n : ℕ) → insert_risk o n ≡ "low" → o ≡ some n
low_insert (some m) n h = ground (arith, not_low "medium" refl, not_low "high" refl)
low_insert none n h = absurd (not_low "high" refl h)

pub insert_low :
    (params : Fields) (rules : List Json)
    → typed_risk "routingRule.insert" params rules ≡ "low"
    → index_of (value "position" params) ≡ some (length rules)
unfolding typed_risk
insert_low params rules h = low_insert (index_of (value "position" params)) (length rules) h
