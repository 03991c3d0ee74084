-- ===== src/Prelude/Errors.antt =====
-- Results of fallible code, and `do` blocks over `Option`, where `none` stands for an early return.
use mathlib.Core.Bool.{Bool, true, false}
use mathlib.Core.Option.{Option, none, some}
use mathlib.Core.Path.{◌≡◌, refl}

-- A Go function that returns `(A, error)`.
pub data Result {ℓ κ} (E : Type ℓ) (A : Type κ) : Type (ℓ ⊔ κ) where
  ok : A → Result E A
  err : E → Result E A

infixl 5 ◌>>=◌ ◌>>◌
abbrev pub ◌>>=◌ {ℓ κ} : {A : Type ℓ} {B : Type κ} → Option A → (A → Option B) → Option B
none >>= f = none
some a >>= f = f a

abbrev pub ◌>>◌ {ℓ} : {B : Type ℓ} → Option (Unit {0}) → Option B → Option B
m >> k = m >>= λ _. k

-- `if cond { return ... }`: the rest runs where the test fails.
abbrev pub return_if : Bool → Option (Unit {0})
return_if true = none
return_if false = some tt

-- What a block that returned a value went through.
pub >>=-eq-some {ℓ κ} :
    {A : Type ℓ} {B : Type κ} (step : Option A) (rest : A → Option B) {result : B}
    → (step >>= rest) ≡ some result
    → (value : A) × (step ≡ some value) × (rest value ≡ some result)
>>=-eq-some (some value) rest returned = (value, refl, returned)
>>=-eq-some none rest returned = cc
