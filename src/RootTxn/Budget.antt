-- ===== src/RootTxn/Budget.antt =====
-- The same triples with and without the promise that the process lives long enough, no fault is
-- injected and the service restarts: with it, a call returns.
use rill_xray_agent.Prelude.{
  ℕ, zero, suc, ◌≤◌, String, ◌≡◌, Bool, true, false, Option, none, some, arith,
}
use rill_xray_agent.RootTxn.World.{World, Env, Point, Ending, returned}
use rill_xray_agent.RootTxn.Steps.{◌>>=◌, pure, fault, call_host, write}
use rill_xray_agent.RootTxn.Apply.{require_restart}
use rill_xray_agent.RootTxn.Triples.{Run, Run-pure, Run-write, Run-fault, Run-weaken}
use rill_xray_agent.RootTxn.Mutation.{HostFree, Keeps-require_restart}

-- at least `n` durable writes are left, if `enough` promises it
abbrev pub Budget : {H : Type 0} → Bool → ℕ → World H → Type 0
Budget true n w = n ≤ w.life
Budget false n w = Unit

-- `I`, or nothing at all under the promise
abbrev pub Unless : {H : Type 0} → Bool → (World H → Type 0) → World H → Type 0
Unless true I w = ⊥
Unless false I w = I w

abbrev pub Quiet : Bool → Env → Type 0
Quiet true env = (point : Point) → env.faults point ≡ false
Quiet false env = Unit

abbrev pub RestartsUp : {H : Type 0} → Bool → Option (H → Option String → Ending Bool × H) → Type 0
RestartsUp {H} true (some restart) = (h : H) (m : Option String) → (restart h m).0 ≡ returned true
RestartsUp _ _ = Unit

module _ {H : Type 0} where
  pub spent :
      (I : World H → Type 0) (enough : Bool) (n : ℕ) (w : World H)
      → Budget enough (suc n) w
      → w.life ≡ zero
      → I w
      → Unless enough I w
  spent I true n w b e i = absurd (omega arith)
  spent I false n w b e i = i

  pub spend :
      (enough : Bool) (n m : ℕ) (w v : World H)
      → Budget enough (suc n) w
      → w.life ≡ suc m
      → v.life ≡ m
      → Budget enough n v
  spend true n m w v b e f = omega arith
  spend false n m w v b e f = tt

  -- the budget does not look at the rest of the world
  pub same_life :
      (enough : Bool) (n : ℕ) (w v : World H)
      → v.life ≡ w.life
      → Budget enough n w
      → Budget enough n v
  same_life true n w v e b = omega arith
  same_life false n w v e b = tt

  pub less : (enough : Bool) (n : ℕ) (w : World H) → Budget enough (suc n) w → Budget enough n w
  less true n w b = omega arith
  less false n w b = tt

module _ {H : Type 0} {I K : World H → Type 0} (enough : Bool)
    (weaker : (w : World H) → I w → K w) where
  -- one write out of the budget
  pub Run-spend :
      {J : World H → Type 0} (n : ℕ) (f : World H → World H)
      → ((w : World H) (m : ℕ)
          → I w
          → J (f (record w { life = m })) × ((f (record w { life = m })).life ≡ m))
      → Run
          (λ w. I w × Budget enough (suc n) w)
          (write f)
          (λ _ w. J w × Budget enough n w)
          (Unless enough K)
          (Unless enough K)
  Run-spend n f step =
      Run-write f (λ w p e. spent K enough n w p.1 e (weaker w p.0))
        λ w m p e.
          let (j, l) = step w m p.0 in (j, spend enough n m w (f (record w { life = m })) p.1 e l)

module _ {H : Type 0} {I K : World H → Type 0} where
  -- a fault that the promise excludes
  pub Run-Quiet :
      (enough : Bool)
      → ((w : World H) → I w → K w)
      → (n : ℕ) (env : Env) (point : Point) → Quiet enough env
      → Run
          (λ w. I w × Budget enough n w)
          (fault env point)
          (λ _ w. I w × Budget enough n w)
          (Unless enough K)
          (Unless enough K)
  unfolding fault pure
  Run-Quiet true weaker n env point quiet = record { at = λ w p. let q = quiet point in rw q p }
  Run-Quiet false weaker n env point quiet = Run-fault env point (λ w p. p) (λ w p. weaker w p.0)

  pub Run-restart :
      (enough : Bool)
      → ((w : World H) → I w → K w)
      → (n : ℕ) (restart : Option (H → Option String → Ending Bool × H)) → HostFree I
      → RestartsUp enough restart
      → Run
          (λ w. I w × Budget enough n w)
          (require_restart restart)
          (λ _ w. I w × Budget enough n w)
          (Unless enough K)
          (Unless enough K)
  unfolding require_restart pure call_host ◌>>=◌
  Run-restart enough weaker n none free up = Run-pure tt (λ w p. p)
  Run-restart true weaker n (some restart) free up = record {
    at = λ w p. let u = up w.host w.managed in rw u (free w _ p.0, p.1);
  }
  Run-restart false weaker n (some restart) free up =
      Run-weaken (require_restart (some restart)) (λ w p. p.0) (λ a w i. (i, tt)) weaker weaker
        (Keeps-require_restart (some restart) free)

module _ {H : Type 0} {I K : World H → Type 0} where
  pub Unless-map :
      (enough : Bool)
      → ((w : World H) → I w → K w)
      → (w : World H) → Unless enough I w
      → Unless enough K w
  Unless-map true f w u = u
  Unless-map false f w u = f w u
