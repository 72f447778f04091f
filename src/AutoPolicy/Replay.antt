-- ===== src/AutoPolicy/Replay.antt =====
-- The exactly-once records: a replayed outcome changes nothing, across a restart too.
use mathlib.Core.Path.{subst}
use rill_xray_agent.Prelude.{
  ℕ, String, ◌≡◌, refl, true, false, Option, none, some, [], ◌∷◌, arith, str_eq, eq_iff, eq_refl,
}
use rill_xray_agent.Prelude.Int.{ℤ, pos}
use rill_xray_agent.Prelude.Dict.{Dict, get, put, get-put}
use rill_xray_agent.Prelude.Result.{ok}
use rill_xray_agent.AutoPolicy.State.{AutoPolicy}
use rill_xray_agent.AutoPolicy.Load.{init, persist}
use rill_xray_agent.AutoPolicy.Methods.{
  applied_state, is_processed, processed_set, add_outcome, record_apply,
}
use rill_xray_agent.AutoPolicy.Restart.{init-persist}

get-put_self {ℓ} : {V : Type ℓ} (k : String) (v : V) (d : Dict V) → get k (put k v d) ≡ some v
get-put_self k v d = rw (get-put, eq_refl)

put-get {ℓ} : {V : Type ℓ} (k : String) (v : V) (d : Dict V) → get k d ≡ some v → put k v d ≡ d
unfolding get put
put-get k v [] h = ground arith
put-get k v ((j, w) ∷ d) h = ground (arith, eq_iff j k, put-get k v d)

is_processed-add_outcome :
    (id : String) (now : ℕ) (d : Dict ℤ)
    → is_processed (some id) (add_outcome (some id) now d) ≡ true
unfolding is_processed add_outcome
is_processed-add_outcome id now d = rw (get-put_self id (pos now) d, is_processed)

processed_set-put :
    (kind : String) (o : Dict ℤ) (d : Dict (Dict ℤ)) → processed_set kind (put kind o d) ≡ o
unfolding processed_set
processed_set-put kind o d = rw (get-put_self kind o d, processed_set)

-- where the set of the kind is there, a replay's `setdefault` changes nothing
put-processed_set :
    (kind : String) (o : Dict ℤ) (d : Dict (Dict ℤ)) → put kind o (put kind o d) ≡ put kind o d
put-processed_set kind o d = put-get kind o (put kind o d) (get-put_self kind o d)

processed_set-put_ne :
    (kind other : String) (o : Dict ℤ) (d : Dict (Dict ℤ))
    → str_eq other kind ≡ false
    → processed_set kind (put other o d) ≡ processed_set kind d
unfolding processed_set
processed_set-put_ne kind other o d h = rw (get-put other kind o d, processed_set) (rw h refl)

-- the object after the apply that is recorded
abbrev applied : AutoPolicy → String → Option String → ℕ → AutoPolicy
applied p rid id now = persist (record p { state = applied_state p.config rid id now p.state })

record_apply-eq_applied :
    (p q : AutoPolicy) (rid : String) (id : Option String) (now : ℕ)
    → p.corrupt_reason ≡ none
    → is_processed id (processed_set "applied" p.state.processed_outcomes) ≡ false
    → record_apply p rid id now ≡ ok q
    → applied p rid id now ≡ q
unfolding record_apply
record_apply-eq_applied p q rid id now intact new h = ground arith

record_apply-applied :
    (p : AutoPolicy) (rid rid' id : String) (now now' : ℕ)
    → p.corrupt_reason ≡ none
    → record_apply (applied p rid (some id) now) rid' (some id) now'
      ≡ ok (applied p rid (some id) now)
unfolding record_apply persist
record_apply-applied p rid rid' id now now' intact =
    let d = add_outcome (some id) now (processed_set "applied" p.state.processed_outcomes) in
    rw (
      intact,
      processed_set-put "applied" d p.state.processed_outcomes,
      is_processed-add_outcome id now (processed_set "applied" p.state.processed_outcomes),
      put-processed_set "applied" d p.state.processed_outcomes,
    )

-- Once `record_apply` has recorded an outcome id that it had not seen, a restart gives the same
-- object, to record the id again changes nothing, under whatever recommendation and at whatever time,
-- and the set of rollbacks is as before, so that a rollback of the same outcome still counts.
pub record_apply-replay :
    (p q : AutoPolicy) (rid id : String) (now : ℕ)
    → p.corrupt_reason ≡ none
    → is_processed (some id) (processed_set "applied" p.state.processed_outcomes) ≡ false
    → record_apply p rid (some id) now ≡ ok q
    → (init q.config q.file ≡ some q)
      × ((rid' : String) (now' : ℕ) → record_apply q rid' (some id) now' ≡ ok q)
      × (processed_set "rolledBack" q.state.processed_outcomes
          ≡ processed_set "rolledBack" p.state.processed_outcomes)
unfolding persist
record_apply-replay p q rid id now intact new h =
    subst
      (λ r.
        (init r.config r.file ≡ some r)
        × ((rid' : String) (now' : ℕ) → record_apply r rid' (some id) now' ≡ ok r)
        × (processed_set "rolledBack" r.state.processed_outcomes
            ≡ processed_set "rolledBack" p.state.processed_outcomes))
      (record_apply-eq_applied p q rid (some id) now intact new h)
      (
        init-persist (record p { state = applied_state p.config rid (some id) now p.state }) intact,
        λ rid' now'. record_apply-applied p rid rid' id now now' intact,
        processed_set-put_ne "rolledBack" "applied"
            (add_outcome (some id) now (processed_set "applied" p.state.processed_outcomes))
            p.state.processed_outcomes refl,
      )
