-- ===== src/Prelude/Outcome.antt =====
-- A Go result with an error: a value, or the error that the function returns.
use mathlib.Core.Path.{◌≡◌, refl, ap}
use mathlib.Core.Logic.{◌⊎◌, inl, inr}
use mathlib.Core.Bool.{Bool, true, false}
use native.Mathlib.Omega.{arith}

pub data Outcome {ℓ} (E A : Type ℓ) : Type ℓ where
  ok : A → Outcome E A
  err : E → Outcome E A

infixl 5 ◌>>=◌ ◌>>◌
abbrev pub ◌>>=◌ {ℓ} : {E A B : Type ℓ} → Outcome E A → (A → Outcome E B) → Outcome E B
ok a >>= f = f a
err e >>= f = err e

abbrev pub ◌>>◌ {ℓ} : {E B : Type ℓ} → Outcome E (Unit {ℓ}) → Outcome E B → Outcome E B
m >> k = m >>= λ _. k

-- `if bad { return err }`
abbrev pub reject_if {ℓ} : {E : Type ℓ} → Bool → E → Outcome E (Unit {ℓ})
reject_if true e = err e
reject_if false e = ok tt

pub Outcome-cases {ℓ} :
    {E A : Type ℓ} (r : Outcome E A) → ((a : A) × (r ≡ ok a)) ⊎ ((e : E) × (r ≡ err e))
Outcome-cases (ok a) = inl (a, refl)
Outcome-cases (err e) = inr (e, refl)

-- A chain that succeeds has steps that succeed.
pub >>=-ok {ℓ} :
    {E A B : Type ℓ} (m : Outcome E A) (f : A → Outcome E B) {b : B}
    → m >>= f ≡ ok b
    → (a : A) × (m ≡ ok a) × (f a ≡ ok b)
>>=-ok (ok a) f e = (a, refl, e)
>>=-ok (err x) f e = absurd (ground arith)

pub reject_if-ok {ℓ} :
    {E B : Type ℓ} (bad : Bool) (x : E) (k : Outcome E B) {b : B}
    → reject_if bad x >> k ≡ ok b
    → (bad ≡ false) × (k ≡ ok b)
reject_if-ok true x k e = absurd (ground arith)
reject_if-ok false x k e = (refl, e)

module _ {ℓ} {E A : Type ℓ} where
  abbrev or_default : A → Outcome E A → A
  or_default a (ok b) = b
  or_default a (err x) = a

  pub ok_same : (a b : A) → ◌≡◌ {A = Outcome E A} (ok a) (ok b) → a ≡ b
  ok_same a b e = ap (or_default a) e

-- An error is no result.
pub err_ok {ℓ} : {E A B : Type ℓ} (x : E) (a : A) → ◌≡◌ {A = Outcome E A} (err x) (ok a) → B
err_ok x a e = absurd (ground arith)
