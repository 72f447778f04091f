-- ===== src/Prelude/Result.antt =====
-- Results that may be errors: what Python returns, or the exception that it raises.
use mathlib.Core.Path.{◌≡◌, refl}
use mathlib.Core.Option.{Option, none, some}
use mathlib.Core.Bool.{Bool, true, false}
use rill_xray_agent.Prelude.Tests.{if◌then◌else◌}

pub data Result {ℓ κ} (E : Type ℓ) (A : Type κ) : Type (ℓ ⊔ κ) where
  ok : A → Result E A
  err : E → Result E A

infixl 5 ◌>>=◌ ◌>>◌
abbrev pub ◌>>=◌ {ℓ κ μ} :
    {E : Type ℓ} {A : Type κ} {B : Type μ} → Result E A → (A → Result E B) → Result E B
ok a >>= f = f a
err e >>= f = err e

abbrev pub ◌>>◌ {ℓ μ} : {E : Type ℓ} {B : Type μ} → Result E (Unit {0}) → Result E B → Result E B
m >> k = m >>= λ _. k

abbrev pub guard {ℓ} : {E : Type ℓ} → Bool → E → Result E (Unit {0})
guard true e = ok tt
guard false e = err e

-- `raise e` where a value is missing
abbrev pub or_raise {ℓ κ} : {E : Type ℓ} {A : Type κ} → Option A → E → Result E A
or_raise none e = err e
or_raise (some a) e = ok a

pub ok-injective {ℓ κ} :
    {E : Type ℓ} {A : Type κ} {a b : A} → ◌≡◌ {A = Result E A} (ok a) (ok b) → a ≡ b
ok-injective h = cc

err-not_ok {ℓ κ} :
    {E : Type ℓ} {A : Type κ} {e : E} {a : A} → ◌≡◌ {A = Result E A} (err e) (ok a) → ⊥
err-not_ok h = cc

-- What a chain returned, its first step returned too.
pub bind-ok {ℓ κ μ} :
    {E : Type ℓ} {A : Type κ} {B : Type μ} (m : Result E A) (f : A → Result E B) (b : B)
    → (m >>= f) ≡ ok b
    → (a : A) × (m ≡ ok a) × (f a ≡ ok b)
bind-ok (ok a) f b h = (a, refl, h)
bind-ok (err e) f b h = absurd (err-not_ok h)

pub if-ok {ℓ κ} :
    {E : Type ℓ} {A : Type κ} (t : Bool) (a b : A) (e : E)
    → (if t then ok a else err e) ≡ ok b
    → (t ≡ true) × (a ≡ b)
if-ok true a b e h = (refl, ok-injective h)
if-ok false a b e h = absurd (err-not_ok h)

pub guard-ok {ℓ κ} :
    {E : Type ℓ} {A : Type κ} (t : Bool) (e : E) (m : Result E A) (b : A)
    → (guard t e >> m) ≡ ok b
    → (t ≡ true) × (m ≡ ok b)
guard-ok true e m b h = (refl, h)
guard-ok false e m b h = absurd (err-not_ok h)

pub if-passes {ℓ κ} :
    {E : Type ℓ} {A : Type κ} (t : Bool) (m : Result E A) (e : E) (a : A)
    → (if t then m else err e) ≡ ok a
    → (t ≡ true) × (m ≡ ok a)
if-passes true m e a h = (refl, h)
if-passes false m e a h = absurd (err-not_ok h)
