-- ===== src/RootTxn/Steps.antt =====
-- The statements of a transaction as actions on the world, and the steps that `apply`, the rollback
-- and the recovery share.
use rill_xray_agent.Prelude.{
  ℕ, zero, suc, ◌+◌, String, not, Option, none, some, str_eq, if◌then◌else◌,
}
use rill_xray_agent.RootTxn.World.{
  Request, TxnState, committed, ResultBody, TxnResult, Receipt, BundleBase, Bundle, WorkDir, World,
  of_body, of_transaction, of_base, of_outcome, Point, at_result, at_receipt, at_delivery,
  at_terminal, Env, Ending, returned, raised, died,
}

abbrev pub M : Type 0 → Type 0 → Type 0
M H A = World H → Ending A × World H

-- what follows a call that has ended
abbrev pub resume : {H A B : Type 0} → (A → M H B) → Ending A × World H → Ending B × World H
resume f (returned a, w) = f a w
resume f (raised, w) = (raised, w)
resume f (died, w) = (died, w)

-- what an exception handler makes of it
abbrev pub handle : {H A : Type 0} → M H A → Ending A × World H → Ending A × World H
handle handler (returned a, w) = (returned a, w)
handle handler (raised, w) = handler w
handle handler (died, w) = (died, w)

infixl 5 ◌>>=◌ ◌>>◌
unfoldable pub ◌>>=◌ : {H A B : Type 0} → M H A → (A → M H B) → M H B
◌>>=◌ m f w = resume f (m w)

unfoldable pub ◌>>◌ : {H A B : Type 0} → M H A → M H B → M H B
unfolding ◌>>=◌
m >> k = m >>= λ _. k

unfoldable pub pure : {H A : Type 0} → A → M H A
pure a w = (returned a, w)

unfoldable pub raise : {H A : Type 0} → M H A
raise w = (raised, w)

-- `try: m; except Exception: handler`; no handler sees the death of the process
unfoldable pub catch : {H A : Type 0} → M H A → M H A → M H A
catch m handler w = handle handler (m w)

unfoldable pub gets : {H A : Type 0} → (World H → A) → M H A
gets f w = (returned (f w), w)

unfoldable pub or_raise : {H A : Type 0} → Option A → M H A
or_raise none = raise
or_raise (some a) = pure a

-- one durable write: it is done whole, or the process dies before it
unfoldable pub write : {H : Type 0} → (World H → World H) → M H (Unit {0})
write f w = elim w.life [ zero ↦ (died, w) | suc n ↦ (returned tt, f (record w { life = n })) ]

-- `fault(point)`
unfoldable pub fault : {H : Type 0} → Env → Point → M H (Unit {0})
fault env point = if env.faults point then raise else pure tt

-- a callback that reads the managed file and changes the host
unfoldable pub call_host : {H A : Type 0} → (H → Option String → Ending A × H) → M H A
call_host f w = let (r, h) = f w.host w.managed in (r, record w { host = h })

abbrev pub set_work : {H : Type 0} → (WorkDir → WorkDir) → World H → World H
set_work f w = record w { work = f w.work }

-- `state(w, s, x)`
unfoldable pub state : {H : Type 0} → TxnState → Option String → M H (Unit {0})
state s commit =
    write (set_work (λ d. record d { state = some (record { state = s; commit_sha256 = commit }) }))

-- `generation()`
abbrev pub generation_of : Option ℕ → ℕ
generation_of none = 0
generation_of (some n) = n

unfoldable pub write_generation : {H : Type 0} → ℕ → M H (Unit {0})
write_generation n = write (λ w. record w { generation = some n })

-- `auto_outcome_id_for`
unfoldable pub auto_outcome_id_for : Env → Request → Option String
auto_outcome_id_for env request = elim request.apply_type [
  | none ↦ none
  | some t ↦
      if str_eq t "auto"
      then some (
          env.digest (
            of_outcome request.recommendation_id request.configuration_generation
              request.request_sha256))
      else none
]

-- `terminal == 'committed'`
abbrev pub next_generation : TxnState → ℕ → ℕ
next_generation committed old = old + 1
next_generation _ old = old

-- `_build_bundle`
unfoldable pub build_bundle : Env → String → Request → ℕ → TxnState → String → Bundle
build_bundle env did request old terminal outcome =
    let body : ResultBody = record {
      decision_id = did;
      outcome = outcome;
      observed_at_epoch_seconds = env.now;
      configuration_generation = old;
      next_configuration_generation = next_generation terminal old;
      auto_outcome_id = auto_outcome_id_for env request;
      apply_type = request.apply_type;
    } in
    let result : TxnResult = record { body = body; result_sha256 = env.digest (of_body body) } in
    let receipt : Receipt = record {
      decision_id = did;
      result_sha256 = result.result_sha256;
      transaction_sha256 = env.digest (of_transaction request result);
      created_at_epoch_seconds = env.now;
      auto_outcome_id = auto_outcome_id_for env request;
      apply_type = request.apply_type;
    } in
    let base : BundleBase = record {
      terminal_state = terminal;
      next_configuration_generation = next_generation terminal old;
      result = result;
      receipt = receipt;
      delivery = record { request = request; result = result; receipt = receipt };
    } in
    record { base = base; commit_sha256 = env.digest (of_base base) }

unfoldable pub write_bundle : {H : Type 0} → Bundle → M H (Unit {0})
write_bundle b = write (set_work (λ d. record d { bundle = some b }))

-- `_materialize_artifacts`
unfoldable pub materialize_artifacts : {H : Type 0} → Env → Bundle → M H (Unit {0})
materialize_artifacts env b = do
  write_generation b.base.next_configuration_generation
  write (set_work (λ d. record d { result = some b.base.result }))
  fault env at_result
  write (set_work (λ d. record d { receipt = some b.base.receipt }))
  fault env at_receipt
  write (λ w. record w { delivery = some b.base.delivery })
  fault env at_delivery

-- what `apply`, the rollback and `materialize` return
pub record Reply : Type 0 where
  pub status : TxnState
  pub result : TxnResult
  pub receipt : Receipt

-- `materialize`
unfoldable pub materialize : {H : Type 0} → Env → M H Reply
materialize env = do
  found ← gets (λ w. w.work.bundle)
  b ← or_raise found
  (if not (str_eq (env.digest (of_base b.base)) b.commit_sha256) then raise else (do
    materialize_artifacts env b
    state b.base.terminal_state (some b.commit_sha256)
    fault env at_terminal
    pure (record {
      status = b.base.terminal_state;
      result = b.base.result;
      receipt = b.base.receipt;
    })))
