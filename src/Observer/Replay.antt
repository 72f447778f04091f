-- ===== src/Observer/Replay.antt =====
-- What the journal has of the events of one transition.
use mathlib.Core.Path.{subst}
use mathlib.Core.List.{append-nil, append_assoc}
use rill_xray_agent.Prelude.{
  String, ◌≡◌, refl, sym, ◌∙◌, true, false, ◌||◌, List, [], ◌∷◌, ◌++◌, map, All, arith, eq_refl,
}
use rill_xray_agent.Json.{Fields}
use rill_xray_agent.Observer.Transition.{
  Entry, is_member, are_distinct, has_transition, inject, ids, missing, appends,
}

pub has_transition-append :
    (t : String) (xs ys : List Entry)
    → has_transition t (xs ++ ys) ≡ (has_transition t xs || has_transition t ys)
unfolding has_transition
has_transition-append t [] ys = refl
has_transition-append t (x ∷ xs) ys = ground (arith, has_transition-append t xs ys)

abbrev pub IsIn : List Entry → Fields × String → Type 0
IsIn j p = has_transition p.1 j ≡ true

abbrev pub IsNew : List Entry → Fields × String → Type 0
IsNew j p = has_transition p.1 j ≡ false

-- what is appended is there
head-IsIn : (xs ys : List Entry) (p : Fields × String) → IsIn (xs ++ (inject p ∷ ys)) p
unfolding has_transition
head-IsIn xs ys p = has_transition-append p.1 xs (inject p ∷ ys) ∙ ground (arith, eq_refl p.1)

pub injected-IsIn :
    (j : List Entry) (ps : List (Fields × String)) → All (IsIn (j ++ map inject ps)) ps
injected-IsIn j [] = tt
injected-IsIn j (p ∷ ps) = (
  head-IsIn j (map inject ps) p,
  subst (λ xs. All (IsIn xs) ps) (append_assoc j (inject p ∷ []) (map inject ps))
      (injected-IsIn (j ++ (inject p ∷ [])) ps),
)

-- another event does not make a transition appear
step-IsNew :
    (j : List Entry) (p : Fields × String) (ps : List (Fields × String))
    → is_member p.1 (ids ps) ≡ false
    → All (IsNew j) ps
    → All (IsNew (j ++ (inject p ∷ []))) ps
unfolding has_transition
step-IsNew j p [] h new = tt
step-IsNew j p (q ∷ ps) h new = (
  has_transition-append q.1 j (inject p ∷ []) ∙ ground (arith, new.0, h),
  step-IsNew j p ps (ground (arith, h)) new.1,
)

distinct_head :
    (p : Fields × String) (ps : List (Fields × String))
    → are_distinct (ids (p ∷ ps)) ≡ true
    → (is_member p.1 (ids ps) ≡ false) × (are_distinct (ids ps) ≡ true)
unfolding are_distinct
distinct_head p ps h = (ground (arith, h), ground (arith, h))

-- What is still to come of a transition is new when a part of it has been appended.
pub rest-IsNew :
    (j : List Entry) (past rest : List (Fields × String))
    → are_distinct (ids (past ++ rest)) ≡ true
    → All (IsNew j) (past ++ rest)
    → (are_distinct (ids rest) ≡ true) × All (IsNew (j ++ map inject past)) rest
rest-IsNew j [] rest d new = (d, subst (λ xs. All (IsNew xs) rest) (sym (append-nil j)) new)
rest-IsNew j (p ∷ past) rest d new =
    let split = distinct_head p (past ++ rest) d in
    let tail =
      rest-IsNew (j ++ (inject p ∷ [])) past rest split.1
        (step-IsNew j p (past ++ rest) split.0 new.1) in
    (
      tail.0,
      subst (λ xs. All (IsNew xs) rest) (append_assoc j (inject p ∷ []) (map inject past)) tail.1,
    )

-- The loop skips what is there and appends the rest.
pub missing-past :
    (j : List Entry) (past rest : List (Fields × String))
    → All (IsIn j) past
    → missing j (past ++ rest) ≡ missing j rest
unfolding missing
missing-past j [] rest h = refl
missing-past j (p ∷ past) rest h = ground (arith, h.0, missing-past j past rest h.1)

pub missing-rest :
    (j : List Entry) (rest : List (Fields × String))
    → are_distinct (ids rest) ≡ true
    → All (IsNew j) rest
    → missing j rest ≡ appends rest
unfolding missing
missing-rest j [] d new = refl
missing-rest j (p ∷ rest) d new =
    let split = distinct_head p rest d in
    let tail =
      missing-rest (j ++ (inject p ∷ [])) rest split.1 (step-IsNew j p rest split.0 new.1) in
    ground (arith, new.0, tail)
