-- ===== src/Base/Count.antt =====
-- How many elements of a list pass a test.
use Prim.Native.Nat.{ℕ, ◌+◌, ◌≤◌}
use mathlib.Core.Path.{◌≡◌, refl}
use mathlib.Core.Bool.{Bool, true, false}
use mathlib.Core.List.{List, [], ◌∷◌, ◌++◌}
use native.Mathlib.Omega.{arith}
use asio_http.Base.Lists.{length}

-- 1 for a test that passes.
abbrev pub one_if : Bool → ℕ
one_if true = 1
one_if false = 0

module _ {ℓ} {A : Type ℓ} where
  unfoldable pub count_by : (A → Bool) → List A → ℕ
  count_by p [] = 0
  count_by p (x ∷ xs) = one_if (p x) + count_by p xs

  pub count_by-append :
      (p : A → Bool) (xs ys : List A) → count_by p (xs ++ ys) ≡ count_by p xs + count_by p ys
  unfolding count_by
  count_by-append p [] ys = omega arith
  count_by-append p (x ∷ xs) ys = omega (arith, count_by-append p xs ys)

  pub count_by-cons :
      (p : A → Bool) (x : A) (xs : List A) → count_by p (x ∷ xs) ≡ one_if (p x) + count_by p xs
  unfolding count_by
  count_by-cons p x xs = refl

  pub count_by-nil : (p : A → Bool) → count_by p [] ≡ 0
  unfolding count_by
  count_by-nil p = refl

  pub count_by-le-length : (p : A → Bool) (xs : List A) → count_by p xs ≤ length xs
  unfolding count_by
  count_by-le-length p [] = omega arith
  count_by-le-length p (x ∷ xs) = ground (arith, count_by-le-length p xs)

  pub count_by-post :
      (p : A → Bool) (xs : List A) (x : A)
      → count_by p (xs ++ (x ∷ [])) ≡ count_by p xs + one_if (p x)
  count_by-post p xs x =
      omega (arith, count_by-append p xs (x ∷ []), count_by-cons p x [], count_by-nil p)
