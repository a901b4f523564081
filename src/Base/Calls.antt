-- ===== src/Base/Calls.antt =====
-- Calls that may throw, and the exceptions of the program. Undefined behaviour counts as one: a null
-- pointer that is dereferenced, and a read beyond the memory that there is.
use mathlib.Core.Path.{◌≡◌, refl}

pub data Exception : Type 0 where
  runtime_error bad_lexical_cast null_dereference future_error out_of_bounds invalid_argument
        out_of_range :
      Exception

pub data Outcome {ℓ} (A : Type ℓ) : Type ℓ where
  returned : A → Outcome A
  thrown : Exception → Outcome A

infixl 5 ◌>>=◌
abbrev pub ◌>>=◌ {ℓ κ} : {A : Type ℓ} {B : Type κ} → Outcome A → (A → Outcome B) → Outcome B
returned a >>= f = f a
thrown e >>= f = thrown e

-- A call that returned did so step by step.
pub >>=-eq-returned {ℓ κ} :
    {A : Type ℓ} {B : Type κ} (m : Outcome A) (f : A → Outcome B) {b : B}
    → (m >>= f) ≡ returned b
    → (a : A) × (m ≡ returned a) × (f a ≡ returned b)
>>=-eq-returned (returned a) f h = (a, refl, h)
>>=-eq-returned (thrown e) f h = cc

pub returned-injective {ℓ} : {A : Type ℓ} {a b : A} → returned a ≡ returned b → a ≡ b
returned-injective e = cc
