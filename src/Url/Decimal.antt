-- ===== src/Url/Decimal.antt =====
-- A port as decimal digits, as `operator<<` of a stream prints a std::uint16_t.
use asio_http.Base.{
  ℕ, zero, suc, ◌+◌, ◌/◌, ◌%◌, Bool, ◌&&◌, [], ◌∷◌, leb, ltb, if◌then◌else◌, Bytes,
}

abbrev pub is_digit : ℕ → Bool
is_digit c = leb b'0' c && leb c b'9'

-- The digits of `n`, before those in `out`. Each round takes the last digit off.
unfoldable pub print_digits : ℕ → ℕ → Bytes → Bytes
print_digits zero n out = out
print_digits (suc rounds) n out =
    let digit = b'0' + n % 10 in
    let rest = print_digits rounds (n / 10) (digit ∷ out) in if ltb n 10 then digit ∷ out else rest

-- Five digits hold every value of a std::uint16_t.
unfoldable pub print_decimal : ℕ → Bytes
unfolding print_digits
print_decimal n = print_digits 5 n []
