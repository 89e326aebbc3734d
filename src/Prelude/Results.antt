-- ===== src/Prelude/Results.antt =====
-- Code that may raise: a value or the exception.
use mathlib.Core.Path.{◌≡◌, refl}
use mathlib.Core.Logic.{◌⊎◌, inl, inr}
use mathlib.Core.Bool.{Bool, true, false}

pub data Result {ℓ κ} (E : Type ℓ) (A : Type κ) : Type (ℓ ⊔ κ) where
  ok : A → Result E A
  err : E → Result E A

-- `if test: raise e`
abbrev pub raise_if {ℓ} : {E : Type ℓ} → Bool → E → Result E (Unit {0})
raise_if true e = err e
raise_if false e = ok tt

module _ {ℓ κ μ} {E : Type ℓ} {A : Type κ} {B : Type μ} where
  infixl 5 ◌>>=◌
  abbrev pub ◌>>=◌ : Result E A → (A → Result E B) → Result E B
  ok a >>= f = f a
  err e >>= f = err e

  -- A `do` block that returns has returned from its first statement.
  pub >>=-returned :
      (k : A → Result E B) (r : Result E A) {returned : B}
      → (r >>= k) ≡ ok returned
      → (value : A) × (k value ≡ ok returned) × (r ≡ ok value)
  >>=-returned k (ok value) same = (value, same, refl)
  >>=-returned k (err exc) same = cc

module _ {ℓ μ} {E : Type ℓ} {B : Type μ} where
  infixl 5 ◌>>◌
  abbrev pub ◌>>◌ : Result E (Unit {0}) → Result E B → Result E B
  ok u >> k = k
  err e >> k = err e

  -- A statement that returned before another.
  pub >>-returned :
      (r : Result E (Unit {0})) (k : Result E B) {returned : B}
      → (r >> k) ≡ ok returned
      → (r ≡ ok tt) × (k ≡ ok returned)
  >>-returned (ok u) k same = (refl, same)
  >>-returned (err exc) k same = cc

module _ {ℓ κ} {E : Type ℓ} {A : Type κ} where
  pub ok_injective : {a b : A} → ◌≡◌ {A = Result E A} (ok a) (ok b) → a ≡ b
  ok_injective e = cc

  -- To split on what a call returned or raised.
  pub Result-cases : (r : Result E A) → ((a : A) × (r ≡ ok a)) ⊎ ((exc : E) × (r ≡ err exc))
  Result-cases (ok a) = inl (a, refl)
  Result-cases (err exc) = inr (exc, refl)
