-- ===== src/RootTxn/Triples.antt =====
-- A program logic for the actions of a transaction: what holds when a call returns, when it raises,
-- and when the process dies in it.
use rill_xray_agent.Prelude.{
  ℕ, zero, suc, String, ◌≡◌, refl, Bool, true, false, Option, none, some, if◌then◌else◌,
}
use rill_xray_agent.RootTxn.World.{World, Ending, returned, raised, died, Env, Point}
use rill_xray_agent.RootTxn.Steps.{
  M, ◌>>=◌, ◌>>◌, pure, raise, catch, gets, or_raise, write, fault, call_host, resume, handle,
}

abbrev pub Ends :
    {H A : Type 0}
    → (A → World H → Type 0)
    → (World H → Type 0)
    → (World H → Type 0)
    → Ending A × World H
    → Type 0
Ends Q R D (returned a, w) = Q a w
Ends Q R D (raised, w) = R w
Ends Q R D (died, w) = D w

-- From `P`, the call `m` ends with `Q` if it returns, `R` if it raises and `D` if it is killed.
pub record Run {H A : Type 0} (P : World H → Type 0) (m : M H A) (Q : A → World H → Type 0)
    (R D : World H → Type 0) : Type 0 where
  pub at : (w : World H) → P w → Ends Q R D (m w)

module _ {H A : Type 0} {P : World H → Type 0} {R D : World H → Type 0} where
  pub Run-pure :
      {Q : A → World H → Type 0} (a : A) → ((w : World H) → P w → Q a w) → Run P (pure a) Q R D
  unfolding pure
  Run-pure a h = record { at = h }

  pub Run-raise : {Q : A → World H → Type 0} → ((w : World H) → P w → R w) → Run P raise Q R D
  unfolding raise
  Run-raise h = record { at = h }

  pub Run-gets : (f : World H → A) → Run P (gets f) (λ a w. P w × (a ≡ f w)) R D
  unfolding gets
  Run-gets f = record { at = λ w p. (p, refl) }

  pub Run-catch :
      {Q : A → World H → Type 0} {E : World H → Type 0} (m handler : M H A)
      → Run P m Q E D
      → Run E handler Q R D
      → Run P (catch m handler) Q R D
  unfolding catch
  Run-catch {Q} {E} m handler rm rh = record { at = λ w p. step (m w) (rm.at w p) }
    where
      step : (r : Ending A × World H) → Ends Q E D r → Ends Q R D (handle handler r)
      step (returned a, w) q = q
      step (raised, w) e = rh.at w e
      step (died, w) d = d

  pub Run-weaken :
      {P' : World H → Type 0} {Q Q' : A → World H → Type 0} {R' D' : World H → Type 0} (m : M H A)
      → ((w : World H) → P' w → P w)
      → ((a : A) (w : World H) → Q a w → Q' a w)
      → ((w : World H) → R w → R' w)
      → ((w : World H) → D w → D' w)
      → Run P m Q R D
      → Run P' m Q' R' D'
  Run-weaken {Q} {Q'} {R'} {D'} m p q r d run = record { at = λ w h. step (m w) (run.at w (p w h)) }
    where
      step : (e : Ending A × World H) → Ends Q R D e → Ends Q' R' D' e
      step (returned a, w) h = q a w h
      step (raised, w) h = r w h
      step (died, w) h = d w h

module _ {H A B : Type 0} {P : World H → Type 0} {R D : World H → Type 0} {Q : A → World H → Type 0}
    {Q' : B → World H → Type 0} where
  pub Run-bind :
      (m : M H A) (f : A → M H B)
      → Run P m Q R D
      → ((a : A) → Run (Q a) (f a) Q' R D)
      → Run P (m >>= f) Q' R D
  unfolding ◌>>=◌
  Run-bind m f rm rf = record { at = λ w p. step (m w) (rm.at w p) }
    where
      step : (r : Ending A × World H) → Ends Q R D r → Ends Q' R D (resume f r)
      step (returned a, w) q = (rf a).at w q
      step (raised, w) r = r
      step (died, w) d = d

  pub Run-seq :
      (m : M H A) (k : M H B)
      → Run P m Q R D
      → ((a : A) → Run (Q a) k Q' R D)
      → Run P (m >> k) Q' R D
  unfolding ◌>>◌
  Run-seq m k rm rk = Run-bind m (λ _. k) rm rk

module _ {H : Type 0} {P : World H → Type 0} {R D : World H → Type 0}
    {Q : Unit {0} → World H → Type 0} where
  pub Run-write :
      (f : World H → World H)
      → ((w : World H) → P w → w.life ≡ zero → D w)
      → ((w : World H) (n : ℕ) → P w → w.life ≡ suc n → Q tt (f (record w { life = n })))
      → Run P (write f) Q R D
  unfolding write
  Run-write f dead alive = record { at = λ w p. step w w.life p refl }
    where
      step :
          (w : World H) (n : ℕ)
          → P w
          → w.life ≡ n
          → Ends Q R D
              (elim n [ zero ↦ (died, w) | suc n ↦ (returned tt, f (record w { life = n })) ])
      step w zero p e = dead w p e
      step w (suc n) p e = alive w n p e

  pub Run-fault :
      (env : Env) (point : Point)
      → ((w : World H) → P w → Q tt w)
      → ((w : World H) → P w → R w)
      → Run P (fault env point) Q R D
  unfolding fault pure raise
  Run-fault env point on off = record {
    at = λ w p. elim (env.faults point) as (λ b. Ends Q R D ((if b then raise else pure tt) w)) [
      | true ↦ off w p
      | false ↦ on w p
    ];
  }

module _ {H A : Type 0} {P : World H → Type 0} {R D : World H → Type 0}
    {Q : A → World H → Type 0} where
  pub Run-call_host :
      (f : H → Option String → Ending A × H)
      → ((w : World H) (h : H) (r : Ending A) → P w → Ends Q R D (r, record w { host = h }))
      → Run P (call_host f) Q R D
  unfolding call_host
  Run-call_host f k = record { at = λ w p. k w (f w.host w.managed).1 (f w.host w.managed).0 p }

  pub Run-if :
      (b : Bool) (m k : M H A)
      → (b ≡ true → Run P m Q R D)
      → (b ≡ false → Run P k Q R D)
      → Run P (if b then m else k) Q R D
  Run-if true m k rm rk = rm refl
  Run-if false m k rm rk = rk refl

  pub Run-or_raise :
      (o : Option A)
      → ((a : A) (w : World H) → o ≡ some a → P w → Q a w)
      → ((w : World H) → o ≡ none → P w → R w)
      → Run P (or_raise o) Q R D
  unfolding or_raise pure raise
  Run-or_raise none s n = record { at = λ w p. n w refl p }
  Run-or_raise (some a) s n = record { at = λ w p. s a w refl p }

module _ {H A B : Type 0} {P : World H → Type 0} {R D : World H → Type 0}
    {Q : B → World H → Type 0} where
  -- a read whose answer is known
  pub Run-know :
      (f : World H → A) (a : A) (k : A → M H B)
      → ((w : World H) → P w → f w ≡ a)
      → Run P (k a) Q R D
      → Run P (gets f >>= k) Q R D
  unfolding ◌>>=◌ gets
  Run-know f a k known run = record { at = λ w p. let e = known w p in rw e (run.at w p) }

  -- a file that is known to be there
  pub Run-load :
      (f : World H → Option A) (a : A) (k : A → M H B)
      → ((w : World H) → P w → f w ≡ some a)
      → Run P (k a) Q R D
      → Run P (gets f >>= λ x. or_raise x >>= k) Q R D
  unfolding ◌>>=◌ gets or_raise pure
  Run-load f a k known run = record { at = λ w p. let e = known w p in rw e (run.at w p) }
