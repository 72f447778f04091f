-- ===== src/RootTxn/Finish.antt =====
-- From a durable bundle to its artifacts and its terminal state.
use rill_xray_agent.Prelude.{ℕ, suc, String, ◌≡◌, refl, Bool, Option, some, eq_refl}
use rill_xray_agent.RootTxn.World.{
  World, Env, Bundle, of_base, at_result, at_receipt, at_delivery, at_terminal,
}
use rill_xray_agent.RootTxn.Steps.{state, write_generation, materialize_artifacts, materialize}
use rill_xray_agent.RootTxn.Triples.{Run, Run-pure, Run-seq, Run-load}
use rill_xray_agent.RootTxn.Budget.{Budget, Unless, Quiet, Run-spend, Run-Quiet}
use rill_xray_agent.RootTxn.Safe.{IsFinished}

module _ {H : Type 0} (env : Env) (X : Option String → Type 0) (b : Bundle) where
  -- the bundle is durable, and `X` holds of the managed file
  abbrev pub Held : World H → Type 0
  Held w = (w.work.bundle ≡ some b) × X w.managed

  -- with what is written after it
  abbrev HasGeneration : World H → Type 0
  HasGeneration w =
      (w.work.bundle ≡ some b)
      × X w.managed
      × (w.generation ≡ some b.base.next_configuration_generation)

  abbrev HasResult : World H → Type 0
  HasResult w =
      (w.work.bundle ≡ some b)
      × X w.managed
      × (w.generation ≡ some b.base.next_configuration_generation)
      × (w.work.result ≡ some b.base.result)

  abbrev HasReceipt : World H → Type 0
  HasReceipt w =
      (w.work.bundle ≡ some b)
      × X w.managed
      × (w.generation ≡ some b.base.next_configuration_generation)
      × (w.work.result ≡ some b.base.result)
      × (w.work.receipt ≡ some b.base.receipt)

  abbrev pub HasArtifacts : World H → Type 0
  HasArtifacts w =
      (w.work.bundle ≡ some b)
      × X w.managed
      × (w.generation ≡ some b.base.next_configuration_generation)
      × (w.work.result ≡ some b.base.result)
      × (w.work.receipt ≡ some b.base.receipt)
      × (w.delivery ≡ some b.base.delivery)

  abbrev pub Settled : World H → Type 0
  Settled w = IsFinished b w × X w.managed

  pub Settled-Held : (w : World H) → Settled w → Held w
  Settled-Held w s = (s.0.bundle_is, s.1)

  -- Four writes make the artifacts; a call that is cut short leaves the bundle.
  pub Run-artifacts :
      (enough : Bool) (n : ℕ)
      → Quiet enough env
      → Run
          (λ w. Held w × Budget enough (suc (suc (suc (suc n)))) w)
          (materialize_artifacts env b)
          (λ _ w. HasArtifacts w × Budget enough n w)
          (Unless enough Held)
          (Unless enough Held)
  unfolding materialize_artifacts write_generation
  Run-artifacts enough n quiet =
      Run-seq _ _
        (Run-spend enough (λ w h. h) {J = HasGeneration} _ _ (λ w m h. ((h.0, h.1, refl), refl)))
        λ _.
          Run-seq _ _
            (Run-spend enough (λ w h. (h.0, h.1)) {J = HasResult} _ _
              (λ w m h. ((h.0, h.1, h.2, refl), refl)))
            λ _. Run-seq _ _ (Run-Quiet enough (λ w h. (h.0, h.1)) _ env at_result quiet) λ _.
              Run-seq _ _
                (Run-spend enough (λ w h. (h.0, h.1)) {J = HasReceipt} _ _
                  (λ w m h. ((h.0, h.1, h.2, h.3, refl), refl)))
                λ _. Run-seq _ _ (Run-Quiet enough (λ w h. (h.0, h.1)) _ env at_receipt quiet) λ _.
                  Run-seq _ _
                    (Run-spend enough (λ w h. (h.0, h.1)) {J = HasArtifacts} _ _
                      (λ w m h. ((h.0, h.1, h.2, h.3, h.4, refl), refl)))
                    λ _. Run-Quiet enough (λ w h. (h.0, h.1)) _ env at_delivery quiet

  -- the terminal state of the bundle
  pub Run-terminal :
      (enough : Bool) (n : ℕ)
      → Run
          (λ w. HasArtifacts w × Budget enough (suc n) w)
          (state b.base.terminal_state (some b.commit_sha256))
          (λ _ w. Settled w × Budget enough n w)
          (Unless enough Held)
          (Unless enough Held)
  unfolding state
  Run-terminal enough n =
      Run-spend enough (λ w h. (h.0, h.1)) {J = Settled} _ _
        λ w m h. (
          (
            record {
              bundle_is = h.0;
              generation = h.2;
              result = h.3;
              receipt = h.4;
              delivery = h.5;
              state = refl;
            },
            h.1,
          ),
          refl,
        )

  -- `materialize` of a bundle whose hash is right.
  pub Run-materialize :
      (enough : Bool) (n : ℕ)
      → Quiet enough env
      → env.digest (of_base b.base) ≡ b.commit_sha256
      → Run
          (λ w. Held w × Budget enough (suc (suc (suc (suc (suc n))))) w)
          (materialize env)
          (λ r w. Settled w × Budget enough n w × (r.status ≡ b.base.terminal_state))
          (Unless enough Held)
          (Unless enough Held)
  unfolding materialize
  Run-materialize enough n quiet valid =
      Run-load (λ w. w.work.bundle) b _ (λ w p. p.0.0)
        (rw (valid, eq_refl b.commit_sha256)
          (Run-seq _ _ (Run-artifacts enough (suc n) quiet) λ _.
            Run-seq _ _ (Run-terminal enough n) λ _.
              Run-seq _ _ (Run-Quiet enough Settled-Held _ env at_terminal quiet)
                λ _. Run-pure _ (λ w p. (p.0, p.1, refl))))
