-- ===== src/Base/Results.antt =====
-- `(value, error)` results. The error is a value of the component's own type.
use mathlib.Core.Path.{◌≡◌, refl}
use mathlib.Core.Logic.{◌⊎◌, inl, inr}
use mathlib.Core.Bool.{Bool, true, false}

pub data Result {ℓ κ} (E : Type ℓ) (A : Type κ) : Type (ℓ ⊔ κ) where
  ok : A → Result E A
  err : E → Result E A

infixl 5 ◌>>=◌ ◌>>◌
abbrev pub ◌>>=◌ {ℓ κ λ'} :
    {E : Type ℓ} {A : Type κ} {B : Type λ'} → Result E A → (A → Result E B) → Result E B
ok a >>= f = f a
err e >>= f = err e

abbrev pub ◌>>◌ {ℓ κ} : {E : Type ℓ} {B : Type κ} → Result E (Unit {0}) → Result E B → Result E B
m >> k = m >>= λ _. k

-- `if bad { return err }`
abbrev pub refuse_if {ℓ} : {E : Type ℓ} → Bool → E → Result E (Unit {0})
refuse_if true e = err e
refuse_if false e = ok tt

-- `fmt.Errorf("...: %w", err)`
abbrev pub wrap_error {ℓ ℓ' κ} :
    {E : Type ℓ} {F : Type ℓ'} {A : Type κ} → (E → F) → Result E A → Result F A
wrap_error f (ok a) = ok a
wrap_error f (err e) = err (f e)

module _ {ℓ κ λ'} {E : Type ℓ} {A : Type κ} {B : Type λ'} where
  -- Inversion of a successful bind, for proofs where the parts stay shut.
  pub >>=-eq-ok :
      (r : Result E A) (k : A → Result E B) {v : B}
      → (r >>= k) ≡ ok v
      → (u : A) × (r ≡ ok u) × (k u ≡ ok v)
  >>=-eq-ok (err e) k failed = cc
  >>=-eq-ok (ok u) k done = (u, refl, done)

module _ {ℓ κ} {E : Type ℓ} {A : Type κ} where
  pub Result-cases : (r : Result E A) → ((a : A) × (r ≡ ok a)) ⊎ ((e : E) × (r ≡ err e))
  Result-cases (ok a) = inl (a, refl)
  Result-cases (err e) = inr (e, refl)

  pub ok-injective : {a b : A} → ◌≡◌ {A = Result E A} (ok a) (ok b) → a ≡ b
  ok-injective h = cc
