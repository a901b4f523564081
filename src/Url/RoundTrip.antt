-- ===== src/Url/RoundTrip.antt =====
-- The text of a url is read back as the same url.
use asio_http.Base.{
  ℕ, zero, suc, ◌+◌, ◌/◌, ◌%◌, ◌<◌, true, false, [], ◌∷◌, ◌++◌, Option, none, some, if◌then◌else◌,
  Bytes, is_empty, ◌≡◌, ◌≢◌, refl, arith, returned, str_eq_iff,
}
use asio_http.Url.{Url, to_string, port_suffix, protocol_http, protocol_https}
use asio_http.Url.Decimal.{is_digit, print_digits, print_decimal}
use asio_http.Url.Match.{Groups, is_dot, is_host, every, match_url}
use asio_http.Url.Parse.{port_of, components, get_url_components}
use asio_http.Url.Shape.{IsTail, match_tail_iff, port_text, is_path, is_query}
use asio_http.Url.Separator.{
  NoSeparator, strip_separator_ne, strip_separator_ne_second, match_url_last,
}

-- What a url needs to be read back: each part holds bytes that its group takes, the path is not
-- empty, and port 0 does not stand with a protocol that has a default port.
pub record IsCanonical (u : Url) : Type 0 where
  pub protocol_ne_nil : is_empty u.protocol ≡ false
  pub protocol_bytes : every is_dot u.protocol ≡ true
  pub host_ne_nil : is_empty u.host ≡ false
  pub host_bytes : every is_host u.host ≡ true
  pub port_small : u.port < 65536
  pub port_zero : u.port ≡ 0 → (u.protocol ≢ protocol_http) × (u.protocol ≢ protocol_https)
  pub path_ne_nil : is_empty u.path ≡ false
  pub path_bytes : is_path u.path ≡ true
  pub query_bytes : is_query u.query ≡ true
  pub no_separator : NoSeparator (u.path ++ u.query)

print_digits_shape :
    (rounds n : ℕ) (out : Bytes)
    → every is_digit out ≡ true
    → every is_digit (print_digits (suc rounds) n out) ≡ true
unfolding print_digits every
print_digits_shape zero n out h = ground arith
print_digits_shape (suc k) n out h =
    ground (arith, print_digits_shape k (n / 10) ((b'0' + n % 10) ∷ out))

-- The digits printed for the port.
port_digits : Url → Bytes
port_digits u = if is_empty (port_suffix u) then [] else print_decimal u.port

print_digits-ne-nil :
    (rounds n : ℕ) (out : Bytes) → is_empty (print_digits (suc rounds) n out) ≡ false
unfolding print_digits
print_digits-ne-nil zero n out = ground arith
print_digits-ne-nil (suc k) n out =
    ground (arith, print_digits-ne-nil k (n / 10) ((b'0' + n % 10) ∷ out))

print_decimal-ne-nil : (n : ℕ) → is_empty (print_decimal n) ≡ false
unfolding print_decimal
print_decimal-ne-nil n = print_digits-ne-nil 4 n []

colon_text : (d : Bytes) → is_empty d ≡ false → b':' ∷ d ≡ port_text d
colon_text [] h = cc
colon_text (c ∷ d) h = refl

port_suffix-port_text : (u : Url) → port_suffix u ≡ port_text (port_digits u)
unfolding port_suffix port_digits
port_suffix-port_text u = ground (arith, colon_text _ (print_decimal-ne-nil u.port))

port_digits_shape : (u : Url) → every is_digit (port_digits u) ≡ true
unfolding port_digits print_decimal every
port_digits_shape u = ground (arith, print_digits_shape 4 u.port [] refl)

host_separator : (h s : Bytes) → every is_host h ≡ true → NoSeparator s → NoSeparator (h ++ s)
unfolding every is_host
host_separator [] s b n = n
host_separator (c ∷ h) s b n =
    (strip_separator_ne c (h ++ s) (ground arith), host_separator h s (ground arith) n)

digits_separator : (d s : Bytes) → every is_digit d ≡ true → NoSeparator s → NoSeparator (d ++ s)
unfolding every
digits_separator [] s b n = n
digits_separator (c ∷ d) s b n =
    (strip_separator_ne c (d ++ s) (ground arith), digits_separator d s (ground arith) n)

port_separator :
    (d s : Bytes) → every is_digit d ≡ true → NoSeparator s → NoSeparator (port_text d ++ s)
unfolding every
port_separator [] s b n = n
port_separator (c ∷ d) s b n =
    (strip_separator_ne_second b':' c (d ++ s) (ground arith), digits_separator (c ∷ d) s b n)

abbrev groups_of : Url → Groups
groups_of u = record {
  protocol = none;
  host = u.host;
  port = port_digits u;
  path = u.path;
  query = u.query;
}

abbrev tail_text : Url → Bytes
tail_text u = u.host ++ (port_text (port_digits u) ++ (u.path ++ u.query))

to_string-IsTail : (u : Url) → IsCanonical u → IsTail (tail_text u) (groups_of u)
to_string-IsTail u c = record {
  text = refl;
  no_protocol = refl;
  host_ne_nil = c.host_ne_nil;
  host_bytes = c.host_bytes;
  port_digits = port_digits_shape u;
  path_bytes = c.path_bytes;
  query_bytes = c.query_bytes;
}

match_url-to_string :
    (u : Url)
    → IsCanonical u
    → match_url (to_string u) ≡ some (record (groups_of u) { protocol = some u.protocol })
unfolding to_string
match_url-to_string u c = rw (port_suffix-port_text u) (
    match_url_last u.protocol (tail_text u) (groups_of u) c.protocol_ne_nil c.protocol_bytes
      (host_separator u.host _ c.host_bytes
        (port_separator (port_digits u) _ (port_digits_shape u) c.no_separator))
      ((match_tail_iff (tail_text u) (groups_of u)).1 (to_string-IsTail u c)))

module _ (lexical_cast : Bytes → Option ℕ)
    (casts_decimal : (n : ℕ) → n < 65536 → lexical_cast (print_decimal n) ≡ some n) where
  port_of-port_digits :
      (u : Url) → IsCanonical u → port_of lexical_cast u.protocol (port_digits u) ≡ returned u.port
  unfolding port_of port_digits port_suffix
  port_of-port_digits u c = ground (
    arith,
    casts_decimal u.port c.port_small,
    print_decimal-ne-nil u.port,
    c.port_zero,
    str_eq_iff u.protocol protocol_http,
    str_eq_iff u.protocol protocol_https,
  )

  -- A url whose parts are well formed is printed to a text that the constructor reads as the same
  -- url, if the cast of a port's digits gives the port.
  pub get_url_components-to_string :
      (u : Url) → IsCanonical u → get_url_components lexical_cast (to_string u) ≡ returned u
  unfolding get_url_components components
  get_url_components-to_string u c =
      rw
        (
          match_url-to_string u c,
          get_url_components,
          port_of-port_digits u c,
          c.path_ne_nil,
          components,
        )
        refl
