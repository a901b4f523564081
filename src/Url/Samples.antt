-- ===== src/Url/Samples.antt =====
-- A cast of digits and a url, for the tests of the modules that read a url.
use asio_http.Base.{
  ℕ, zero, suc, ◌+◌, ◌*◌, ◌-◌, ◌/◌, ◌%◌, ◌<◌, arith, ◌∙◌, ◌≡◌, refl, Option, none, some, Bytes,
  codes, [], ◌∷◌, if◌then◌else◌, ltb,
}
use asio_http.Url.{Url}
use asio_http.Url.Decimal.{print_decimal}
use asio_http.Url.Decimal.{print_digits}
use asio_http.Url.Match.{is_host, every, strip_separator}
use asio_http.Url.RoundTrip.{IsCanonical}

-- The value of the digits, refused above the largest std::uint16_t.
unfoldable pub cast_onto : ℕ → Bytes → Option ℕ
cast_onto n [] = if ltb n 65536 then some n else none
cast_onto n (c ∷ s) = cast_onto (n * 10 + (c - b'0')) s

abbrev pub sample_url : Url
sample_url = record {
  protocol = codes "https";
  host = codes "any.host.com";
  path = codes "/some/path";
  query = codes "?and_query";
  port = 1234;
}

abbrev tens : ℕ → ℕ
tens zero = 1
tens (suc k) = 10 * tens k

cast_onto-print_digits :
    (k n : ℕ) (out : Bytes)
    → n < tens (suc k)
    → cast_onto 0 (print_digits (suc k) n out) ≡ cast_onto n out
unfolding cast_onto print_digits
cast_onto-print_digits zero n out h = ground arith
cast_onto-print_digits (suc k) n out h =
    ground (arith, cast_onto-print_digits k (n / 10) ((b'0' + n % 10) ∷ out))

-- The parameter's law can be met.
pub cast_onto-print_decimal : (n : ℕ) → n < 65536 → cast_onto 0 (print_decimal n) ≡ some n
unfolding print_decimal
cast_onto-print_decimal n h =
    cast_onto-print_digits 4 n [] (omega arith) ∙ unfold cast_onto in ground arith

pub sample_url-IsCanonical : IsCanonical sample_url
unfolding is_host every strip_separator
sample_url-IsCanonical = record {
  protocol_ne_nil = refl;
  protocol_bytes = refl;
  host_ne_nil = refl;
  host_bytes = refl;
  port_small = omega arith;
  port_zero = λ h. absurd (omega arith);
  path_ne_nil = refl;
  path_bytes = refl;
  query_bytes = refl;
  no_separator = ground arith;
}
