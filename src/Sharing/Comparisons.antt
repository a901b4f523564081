-- ===== src/Sharing/Comparisons.antt =====
-- internal/tuple_ptr.h: the comparisons of two pointers, which are those of their first elements. A pointer
-- is known by that address, and is 0 if it is null.
use asio_http.Base.{ℕ, Bool, not, ◌||◌, true, ltb, ◌==◌, ◌≡◌, ◌↔◌, ◌<◌, ◌≤◌, ◌≢◌, arith}

abbrev equal : ℕ → ℕ → Bool
equal x y = x == y

abbrev less : ℕ → ℕ → Bool
less x y = ltb x y

unfoldable pub not_equal : ℕ → ℕ → Bool
not_equal x y = not (equal x y)

unfoldable pub less_or_equal : ℕ → ℕ → Bool
less_or_equal x y = less x y || equal x y

unfoldable pub greater : ℕ → ℕ → Bool
unfolding less_or_equal
greater x y = not (less_or_equal x y)

unfoldable pub greater_or_equal : ℕ → ℕ → Bool
greater_or_equal x y = not (less x y)

-- Together they are the comparisons of one total order.
pub comparisons_agree :
    (x y : ℕ)
    → ((not_equal x y ≡ true) ↔ (x ≢ y))
      × ((less_or_equal x y ≡ true) ↔ (x ≤ y))
      × ((greater x y ≡ true) ↔ (y < x))
      × ((greater_or_equal x y ≡ true) ↔ (y ≤ x))
unfolding not_equal less_or_equal greater greater_or_equal
comparisons_agree x y = (ground arith, ground arith, ground arith, ground arith)
