-- ===== src/TestServer/Resource.antt =====
-- test_server.h: the percent-decoding of `get_request_resource`, with `sscanf` for two hexadecimal
-- digits.
pub mod RoundTrip
use asio_http.Base.{
  ℕ, zero, suc, ◌+◌, ◌-◌, ◌*◌, ◌%◌, ◌^◌, Bool, true, false, Option, none, some, List, [], ◌∷◌, ltb,
  leb, ◌==◌, ◌&&◌, ◌||◌, if◌then◌else◌, Bytes, take,
}
use mathlib.Core.Option

-- `isspace` in the C locale.
unfoldable pub is_space : ℕ → Bool
is_space c = c == 32 || (leb 9 c && leb c 13)

unfoldable pub hex_digit : ℕ → Option ℕ
hex_digit c =
    if leb b'0' c && leb c b'9'
    then some (c - b'0')
    else if leb b'a' c && leb c b'f'
    then some (c - 87)
    else if leb b'A' c && leb c b'F'
    then some (c - 55)
    else none

-- The digits up to the first byte that is none, added to a value.
unfoldable pub hex_value : (value : ℕ) → Bytes → ℕ
unfolding hex_digit
hex_value value [] = value
hex_value value (c ∷ text) = elim (hex_digit c) [
  | none ↦ value
  | some digit ↦ hex_value (value * 16 + digit) text
]

-- At least one digit.
unfoldable pub scan_digits : Bytes → Option ℕ
unfolding hex_digit hex_value
scan_digits [] = none
scan_digits (c ∷ text) = Option.map (λ digit. hex_value digit text) (hex_digit c)

unfoldable pub is_prefix : ℕ → ℕ → Bool
is_prefix c x = c == b'0' && (x == b'x' || x == b'X')

-- A prefix 0x wants a digit after it.
unfoldable pub scan_prefixed : Bytes → Option ℕ
unfolding scan_digits is_prefix
scan_prefixed (c ∷ x ∷ text) =
    if is_prefix c x then scan_digits text else scan_digits (c ∷ x ∷ text)
scan_prefixed text = scan_digits text

unfoldable pub scan_signed : Bytes → Option ℕ
unfolding scan_prefixed
scan_signed [] = none
scan_signed (c ∷ text) =
    if c == b'-'
    then Option.map (λ value. (2 ^ 32 - value) % 2 ^ 32) (scan_prefixed text)
    else if c == b'+'
    then scan_prefixed text
    else scan_prefixed (c ∷ text)

-- `sscanf` with "%x".
unfoldable pub sscanf_hex : Bytes → Option ℕ
unfolding scan_signed is_space
sscanf_hex [] = none
sscanf_hex (c ∷ text) =
    let further = sscanf_hex text in if is_space c then further else scan_signed (c ∷ text)

-- The variable `ii` keeps its value where nothing is scanned.
abbrev pub scanned_or : ℕ → Option ℕ → ℕ
scanned_or ii none = ii
scanned_or ii (some value) = value

-- The loop: how many bytes are still to be skipped, and `ii`, which has no value at first.
unfoldable pub decode : (skipped ii : ℕ) → Bytes → Bytes
unfolding sscanf_hex
decode skipped ii [] = []
decode (suc skipped) ii (c ∷ src) = decode skipped ii src
decode zero ii (c ∷ src) = elim (c == 37) [
  | true ↦
      let scanned = scanned_or ii (sscanf_hex (take 2 src)) in
      (scanned % 256) ∷ decode 2 scanned src
  | false ↦ c ∷ decode 0 ii src
]
