-- ===== src/RootPolicy/Stale.antt =====
-- Requests that a transition of the root policy has made stale, and a transition that makes none so.
use rill_xray_agent.Prelude.{
  ℕ, ◌+◌, ◌≤◌, String, ◌≡◌, sym, ap, ◌∙◌, Bool, true, false, Option, none, some, List, arith,
  Bool-cases, inl, inr,
}
use rill_xray_agent.Prelude.Int.{ℤ, pos, pos_part, neg_part}
use rill_xray_agent.Prelude.Result.{ok, ok-injective}
use rill_xray_agent.Json.{Json}
use rill_xray_agent.PolicyFile.{regular}
use rill_xray_agent.AutoPolicy.State.{Config, AutoPolicy}
use rill_xray_agent.AutoPolicy.Methods.{is_processed, processed_set, rolled_back_state}
use rill_xray_agent.AutoPolicy.Methods as Auto
use rill_xray_agent.AutoPolicy.Load as AutoLoad
use rill_xray_agent.AutoPolicy.Branches.{record_rollback-new}
use rill_xray_agent.AutoPolicy.Fuse.{blow-opens}
use rill_xray_agent.RootPolicy.State.{RootExecutionPolicy}
use rill_xray_agent.RootPolicy.Load.{persist, load_policy, encode}
use rill_xray_agent.RootPolicy.Methods.{evaluate, safe_disable, record_rollback}
use rill_xray_agent.RootPolicy.Epoch.{SameAuthority}
use rill_xray_agent.RootPolicy.History.{Event, run, run-epoch, IsSynced, load_policy-persisted}
use rill_xray_agent.RootPolicy.Eligible.{allows, allows-Permits}

-- the epoch after a safe-disable, whose file is written
safe_disabled-made :
    (s r : RootExecutionPolicy) (changed : Bool)
    → safe_disable s ≡ ok (r, changed)
    → (r.policy.execution_epoch ≡ s.policy.execution_epoch + 1) × IsSynced r
unfolding safe_disable persist
safe_disabled-made s r changed done =
    let file : r.policy_file ≡ regular 0o600 (some (encode r.policy)) = ground arith in
    (ground arith, ap load_policy file ∙ load_policy-persisted r.policy)

module _ (parse_int : String → Option ℤ) (c : Config) (r q : RootExecutionPolicy) (es : List Event)
    (rid risk : String) (operations : Json) (now : ℕ) where
  allowed-epoch :
      (n : ℕ)
      → allows (evaluate parse_int q rid (pos n) risk operations now) ≡ true
      → n ≡ q.policy.execution_epoch
  allowed-epoch n h =
      let p = allows-Permits parse_int q rid (pos n) risk operations now h in
      let e = p.0.epoch_current in ground arith

  -- A request that was made at one moment of a history, bound to the epoch of that moment, and that
  -- the root lets through at a later moment, finds the mode, the route stage and the confirmation as
  -- they were when it was made. The history is any sequence of calls and restarts, from an object
  -- whose policy file holds its policy.
  pub allowed_request-SameAuthority :
      IsSynced r
      → run c r es ≡ some q
      → allows (evaluate parse_int q rid (pos r.policy.execution_epoch) risk operations now) ≡ true
      → SameAuthority q.policy r.policy
  allowed_request-SameAuthority synced ran h =
      (run-epoch c r q es synced ran).1 (sym (allowed-epoch r.policy.execution_epoch h))

  -- Once the operator's safe-disable has succeeded, no request that is bound to the epoch before it,
  -- or to an earlier one, is let through again, after any history of calls and restarts, a change of
  -- the mode back to normal and a new confirmation included.
  pub safe_disable-outdates :
      (n : ℕ) (s : RootExecutionPolicy) (changed : Bool)
      → safe_disable s ≡ ok (r, changed)
      → run c r es ≡ some q
      → n ≤ s.policy.execution_epoch
      → allows (evaluate parse_int q rid (pos n) risk operations now) ≡ false
  safe_disable-outdates n s changed done ran old =
      elim (Bool-cases (allows (evaluate parse_int q rid (pos n) risk operations now))) [
        | inr blocked ↦ blocked
        | inl through ↦
            let made = safe_disabled-made s r changed done in
            let later = run-epoch c r q es made.1 ran in
            let same = allowed-epoch n through in absurd (omega arith)
      ]

-- with an open fuse the ledger alone changes
rollback_open :
    (r q : RootExecutionPolicy) (id : Option String) (now : ℕ)
    → r.auto.state.fuse_open ≡ true
    → record_rollback r id now ≡ ok (q, tt)
    → (q.policy ≡ r.policy) × (Auto.record_rollback r.auto id now ≡ ok q.auto)
unfolding record_rollback
rollback_open r q id now is_open h = (ground arith, ground arith)

-- A rollback that is not seen before and brings the counter to its limit while the fuse is open and
-- acknowledged takes the acknowledgment back, so that the fuse blocks again; yet the epoch and the
-- rest of the policy stay as they were.
pub record_rollback-reopens :
    (r q : RootExecutionPolicy) (id : Option String) (now : ℕ)
    → r.auto.corrupt_reason ≡ none
    → r.auto.state.fuse_open ≡ true
    → r.auto.state.fuse_acknowledged ≡ true
    → is_processed id (processed_set "rolledBack" r.auto.state.processed_outcomes) ≡ false
    → r.auto.config.consecutive_rollback_fuse_limit + neg_part r.auto.state.consecutive_rollbacks
      ≤ pos_part r.auto.state.consecutive_rollbacks + 1
    → record_rollback r id now ≡ ok (q, tt)
    → (q.auto.state.fuse_open ≡ true)
      × (q.auto.state.fuse_acknowledged ≡ false)
      × (q.policy ≡ r.policy)
unfolding AutoLoad.persist
record_rollback-reopens r q id now intact is_open acknowledged new limit h =
    let opens = blow-opens r.auto.config id now r.auto.state limit in
    let (policy, auto) = rollback_open r q id now is_open h in
    let state = ok-injective (sym (record_rollback-new r.auto intact id now new) ∙ auto) in
    (
      ap (λ (a : AutoPolicy). a.state.fuse_open) (sym state) ∙ opens.0,
      ap (λ (a : AutoPolicy). a.state.fuse_acknowledged) (sym state) ∙ opens.1,
      policy,
    )
