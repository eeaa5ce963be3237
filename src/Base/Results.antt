-- ===== src/Base/Results.antt =====
-- A call that may throw, as a value: the error is one of the component's own.
use mathlib.Core.Path.{◌≡◌, refl}
use mathlib.Core.Logic.{◌⊎◌, inl, inr}
use mathlib.Core.Bool.{Bool, true, false}
use mathlib.Core.Option.{Option, none, some}

pub data Result {ℓ κ} (E : Type ℓ) (A : Type κ) : Type (ℓ ⊔ κ) where
  ok : A → Result E A
  err : E → Result E A

infixl 5 ◌>>=◌ ◌>>◌
abbrev pub ◌>>=◌ {ℓ κ μ} :
    {E : Type ℓ} {A : Type κ} {B : Type μ} → Result E A → (A → Result E B) → Result E B
ok a >>= f = f a
err e >>= f = err e

abbrev pub ◌>>◌ {ℓ μ} : {E : Type ℓ} {B : Type μ} → Result E (Unit {0}) → Result E B → Result E B
m >> k = m >>= λ _. k

-- `if (bad) throw error;`
abbrev pub throw_if {ℓ} : {E : Type ℓ} → Bool → E → Result E (Unit {0})
throw_if true e = err e
throw_if false e = ok tt

pub Result-cases {ℓ κ} :
    {E : Type ℓ} {A : Type κ} (r : Result E A) → ((a : A) × (r ≡ ok a)) ⊎ ((e : E) × (r ≡ err e))
Result-cases (ok a) = inl (a, refl)
Result-cases (err e) = inr (e, refl)

-- `value ?? fail()`.
abbrev pub or_throw {ℓ κ} : {E : Type ℓ} {A : Type κ} → Option A → E → Result E A
or_throw none e = err e
or_throw (some a) e = ok a

module _ {ℓ κ} {E : Type ℓ} {B : Type κ} where
  -- Inversion of a successful call, one step at a time.
  pub passed :
      (b : Bool) (e : E) (k : Result E B) {x : B}
      → (throw_if b e >> k) ≡ ok x
      → (b ≡ false) × (k ≡ ok x)
  passed true e k h = cc
  passed false e k h = (refl, h)

  pub present {μ} :
      {A : Type μ} (o : Option A) (e : E) (f : A → Result E B) {x : B}
      → (or_throw o e >>= f) ≡ ok x
      → (a : A) × (o ≡ some a) × (f a ≡ ok x)
  present none e f h = cc
  present (some a) e f h = (a, refl, h)

  pub returned {μ} :
      {A : Type μ} (m : Result E A) (f : A → Result E B) {x : B}
      → (m >>= f) ≡ ok x
      → (a : A) × (m ≡ ok a) × (f a ≡ ok x)
  returned (ok a) f h = (a, refl, h)
  returned (err e) f h = cc
