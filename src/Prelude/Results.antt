-- ===== src/Prelude/Results.antt =====
-- A Go function that returns `(A, error)`: a value, or an error of the component's own type.
use mathlib.Core.Path.{◌≡◌, refl, ap}
use mathlib.Core.Logic.{◌⊎◌, inl, inr}
use mathlib.Core.Bool.{Bool, true, false}
use image_factory.Prelude.Tests.{if◌then◌else◌}

pub data Result {ℓ} (E A : Type ℓ) : Type ℓ where
  ok : A → Result E A
  err : E → Result E A

infixl 5 ◌>>◌ ◌>>=◌
-- `if err != nil { return err }` between two steps.
abbrev pub ◌>>=◌ {ℓ} : {E A B : Type ℓ} → Result E A → (A → Result E B) → Result E B
err e >>= step = err e
ok x >>= step = step x

abbrev pub ◌>>◌ {ℓ} : {E B : Type ℓ} → Result E (Unit {ℓ}) → Result E B → Result E B
first >> second = first >>= λ _. second

-- `if !test { return e }`.
abbrev pub guard {ℓ} : {E : Type ℓ} → Bool → E → Result E (Unit {ℓ})
guard true e = ok tt
guard false e = err e

module _ {ℓ} {E A : Type ℓ} where
  pub Result-cases : (r : Result E A) → ((a : A) × (r ≡ ok a)) ⊎ ((e : E) × (r ≡ err e))
  Result-cases (ok a) = inl (a, refl)
  Result-cases (err e) = inr (e, refl)

  abbrev ok_or : A → Result E A → A
  ok_or d (ok a) = a
  ok_or d (err e) = d

  pub ok-injective : {a b : A} → ◌≡◌ {A = Result E A} (ok a) (ok b) → a ≡ b
  ok-injective {a} h = ap (ok_or a) h

-- Inversion of a step that succeeds.
pub >>=-eq-ok {ℓ} :
    {E A B : Type ℓ} (first : Result E A) (step : A → Result E B) {out : B}
    → (first >>= step) ≡ ok out
    → (x : A) × (first ≡ ok x) × (step x ≡ ok out)
>>=-eq-ok (err e) step done = cc
>>=-eq-ok (ok x) step done = (x, refl, done)

pub guard-eq-ok {ℓ} :
    {E B : Type ℓ} (b : Bool) (e : E) (k : Result E B) {a : B}
    → (guard b e >> k) ≡ ok a
    → (b ≡ true) × (k ≡ ok a)
guard-eq-ok true e k h = (refl, h)
guard-eq-ok false e k h = cc

-- Inversion of a test that fails with an error.
pub unless-eq-ok {ℓ} :
    {E A : Type ℓ} (b : Bool) (e : E) (k : Result E A) {a : A}
    → (if b then err e else k) ≡ ok a
    → (b ≡ false) × (k ≡ ok a)
unless-eq-ok true e k h = cc
unless-eq-ok false e k h = (refl, h)
