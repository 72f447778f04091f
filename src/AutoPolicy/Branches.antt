-- ===== src/AutoPolicy/Branches.antt =====
-- The branches that the methods take on an intact policy, as equations.
use rill_xray_agent.Prelude.{ℕ, String, ◌≡◌, refl, Bool, true, false, Option, none, some, arith}
use rill_xray_agent.Prelude.Int.{ℤ}
use rill_xray_agent.Prelude.Dict.{get}
use rill_xray_agent.Prelude.Result.{ok}
use rill_xray_agent.AutoPolicy.State.{AutoPolicy, integrity_valid}
use rill_xray_agent.AutoPolicy.Load.{persist}
use rill_xray_agent.AutoPolicy.Methods.{
  last_time, last_hour, blocked_by, decide_by, evaluate, is_processed, processed_set, with_set,
  applied_state, rolled_back_state, acknowledged_state, record_apply, record_rollback,
  acknowledge_fuse,
}

module _ (p : AutoPolicy) (intact : p.corrupt_reason ≡ none) where
  pub evaluate-raises :
      (parse_int : String → Option ℤ) (rid : String) (now : ℕ)
      → last_time parse_int (get rid p.state.last_by_recommendation) ≡ none
      → evaluate parse_int p rid now ≡ none
  unfolding evaluate
  evaluate-raises parse_int rid now e = ground arith

  pub evaluate-reads :
      (parse_int : String → Option ℤ) (rid : String) (now : ℕ) (z : ℤ)
      → last_time parse_int (get rid p.state.last_by_recommendation) ≡ some z
      → evaluate parse_int p rid now
        ≡ some (
          decide_by (blocked_by p.config p.state z now),
          record p {
            state = record p.state { mutation_times = last_hour now p.state.mutation_times };
          },
        )
  unfolding evaluate
  evaluate-reads parse_int rid now z e =
      let valid : integrity_valid p ≡ true = rw intact refl in rw (valid, e)

  pub record_apply-seen :
      (rid : String) (id : Option String) (now : ℕ)
      → is_processed id (processed_set "applied" p.state.processed_outcomes) ≡ true
      → record_apply p rid id now ≡ ok (record p { state = with_set "applied" p.state })
  unfolding record_apply
  record_apply-seen rid id now e = ground arith

  pub record_apply-new :
      (rid : String) (id : Option String) (now : ℕ)
      → is_processed id (processed_set "applied" p.state.processed_outcomes) ≡ false
      → record_apply p rid id now
        ≡ ok (persist (record p { state = applied_state p.config rid id now p.state }))
  unfolding record_apply
  record_apply-new rid id now e = ground arith

  pub record_rollback-seen :
      (id : Option String) (now : ℕ)
      → is_processed id (processed_set "rolledBack" p.state.processed_outcomes) ≡ true
      → record_rollback p id now ≡ ok (record p { state = with_set "rolledBack" p.state })
  unfolding record_rollback
  record_rollback-seen id now e = ground arith

  pub record_rollback-new :
      (id : Option String) (now : ℕ)
      → is_processed id (processed_set "rolledBack" p.state.processed_outcomes) ≡ false
      → record_rollback p id now
        ≡ ok (persist (record p { state = rolled_back_state p.config id now p.state }))
  unfolding record_rollback
  record_rollback-new id now e =
      let valid : integrity_valid p ≡ true = rw intact refl in rw (valid, e)

  pub acknowledge_fuse-intact :
      (b : Bool)
      → acknowledge_fuse p b ≡ ok (persist (record p { state = acknowledged_state b p.state }))
  unfolding acknowledge_fuse
  acknowledge_fuse-intact b = let valid : integrity_valid p ≡ true = rw intact refl in rw valid
