-- ===== src/Prelude/Results.antt =====
-- A result that can fail, with `do`.
use mathlib.Core.Path.{◌≡◌, refl}
use mathlib.Core.Bool.{Bool, true, false}
use mathlib.Core.Option.{Option, none, some}

pub data Result {ℓ κ} (E : Type ℓ) (A : Type κ) : Type (ℓ ⊔ κ) where
  ok : A → Result E A
  err : E → Result E A

infixl 5 ◌>>=◌ ◌>>◌
abbrev pub ◌>>=◌ {ℓ κ μ} :
    {E : Type ℓ} {A : Type κ} {B : Type μ} → Result E A → (A → Result E B) → Result E B
ok a >>= f = f a
err e >>= f = err e

abbrev pub ◌>>◌ {ℓ κ} : {E : Type ℓ} {B : Type κ} → Result E (Unit {0}) → Result E B → Result E B
m >> k = m >>= λ _. k

abbrev pub guard {ℓ} : {E : Type ℓ} → Bool → E → Result E (Unit {0})
guard true e = ok tt
guard false e = err e

abbrev pub or_err {ℓ κ} : {E : Type ℓ} {A : Type κ} → E → Option A → Result E A
or_err e none = err e
or_err e (some a) = ok a

-- what a chain that succeeds has passed
pub guard_passed {ℓ κ} :
    {E : Type ℓ} {B : Type κ} (b : Bool) (e : E) {m : Result E B} {q : B}
    → (guard b e >> m) ≡ ok q
    → (b ≡ true) × (m ≡ ok q)
guard_passed true e h = (refl, h)
guard_passed false e h = cc

pub or_err_passed {ℓ κ μ} :
    {E : Type ℓ} {A : Type κ} {B : Type μ} (e : E) (o : Option A) (f : A → Result E B) {q : B}
    → (or_err e o >>= f) ≡ ok q
    → (a : A) × (o ≡ some a) × (f a ≡ ok q)
or_err_passed e none f h = cc
or_err_passed e (some a) f h = (a, refl, h)

pub bind_passed {ℓ κ μ} :
    {E : Type ℓ} {A : Type κ} {B : Type μ} (r : Result E A) (f : A → Result E B) {q : B}
    → (r >>= f) ≡ ok q
    → (a : A) × (r ≡ ok a) × (f a ≡ ok q)
bind_passed (ok a) f h = (a, refl, h)
bind_passed (err e) f h = cc
