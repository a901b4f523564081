-- ===== src/TestServer/Resource/RoundTrip.antt =====
-- Decoding what was percent-encoded.
use asio_http.Base.{
  ℕ, ◌+◌, ◌*◌, ◌<◌, ◌/◌, ◌%◌, ◌≡◌, refl, ap, ◌∙◌, inl, inr, Bool, true, false, some, [], ◌∷◌, ltb,
  ◌==◌, if◌then◌else◌, Bytes, All, arith, Bool-cases,
}
use asio_http.TestServer.Resource.{
  decode, is_space, hex_digit, hex_value, scan_digits, is_prefix, scan_prefixed, scan_signed,
  sscanf_hex,
}

unfoldable pub hex_char : ℕ → ℕ
hex_char digit = if ltb digit 10 then 48 + digit else 55 + digit

-- A text with each byte that is not kept as %XY.
unfoldable pub percent_encode : (keep : ℕ → Bool) → Bytes → Bytes
unfolding hex_char
percent_encode keep [] = []
percent_encode keep (c ∷ text) =
    let further = percent_encode keep text in
    if keep c then c ∷ further else b'%' ∷ hex_char (c / 16) ∷ hex_char (c % 16) ∷ further

hex_digit-hex_char : (d : ℕ) → d < 16 → hex_digit (hex_char d) ≡ some d
unfolding hex_digit hex_char
hex_digit-hex_char d h = ground (arith, h)

is_space-hex_char : (d : ℕ) → d < 16 → is_space (hex_char d) ≡ false
unfolding is_space hex_char
is_space-hex_char d h = ground (arith, h)

is_prefix-hex_char : (c d : ℕ) → d < 16 → is_prefix c (hex_char d) ≡ false
unfolding is_prefix hex_char
is_prefix-hex_char c d h = ground (arith, h)

sign-hex_char : (d : ℕ) → d < 16 → ((hex_char d == b'-') ≡ false) × ((hex_char d == b'+') ≡ false)
unfolding hex_char
sign-hex_char d h = (ground (arith, h), ground (arith, h))

hex_value-hex_char : (value e : ℕ) → e < 16 → hex_value value (hex_char e ∷ []) ≡ value * 16 + e
unfolding hex_value
hex_value-hex_char value e k = ground (arith, hex_digit-hex_char e k)

scan_digits-hex_char :
    (d : ℕ) (text : Bytes) → d < 16 → scan_digits (hex_char d ∷ text) ≡ some (hex_value d text)
unfolding scan_digits
scan_digits-hex_char d text h = rw (hex_digit-hex_char d h) refl

sscanf_hex-hex_char :
    (d e : ℕ) → d < 16 → e < 16 → sscanf_hex (hex_char d ∷ hex_char e ∷ []) ≡ some (d * 16 + e)
unfolding sscanf_hex scan_signed scan_prefixed
sscanf_hex-hex_char d e h k =
    rw
      (
        is_space-hex_char d h,
        (sign-hex_char d h).0,
        (sign-hex_char d h).1,
        is_prefix-hex_char (hex_char d) e k,
        scan_digits-hex_char d (hex_char e ∷ []) h,
      )
      (ap some (hex_value-hex_char d e k))

whole : (c : ℕ) → c / 16 * 16 + c % 16 ≡ c
whole c = omega arith

-- An escaped byte is decoded, whatever `ii` was.
decode-escaped :
    (ii c : ℕ) (src : Bytes)
    → c < 256
    → decode 0 ii (b'%' ∷ hex_char (c / 16) ∷ hex_char (c % 16) ∷ src) ≡ c ∷ decode 0 c src
unfolding decode
decode-escaped ii c src h =
    rw (sscanf_hex-hex_char (c / 16) (c % 16) (omega (arith, h)) (omega arith)) (
      ap (λ n. (n % 256) ∷ decode 0 n src) (whole c)
      ∙ ap (λ n. n ∷ decode 0 c src) (omega (arith, h)))

decode-plain :
    (ii c : ℕ) (src : Bytes) → (c == 37) ≡ false → decode 0 ii (c ∷ src) ≡ c ∷ decode 0 ii src
unfolding decode
decode-plain ii c src e = ground (arith, e)

not_percent : (keep : ℕ → Bool) (c : ℕ) → keep b'%' ≡ false → keep c ≡ true → (c == 37) ≡ false
not_percent keep c h kept = ground (arith, h, kept)

-- Decoding gives back every text that was percent-encoded, whichever bytes were kept, as long as the
-- percent sign was not; also whatever value the variable for the scanned number had.
pub decode-percent_encode :
    (keep : ℕ → Bool) (text : Bytes) (ii : ℕ)
    → keep b'%' ≡ false
    → All (λ c. c < 256) text
    → decode 0 ii (percent_encode keep text) ≡ text
unfolding decode percent_encode
decode-percent_encode keep [] ii h small = refl
decode-percent_encode keep (c ∷ text) ii h (small, others) = elim (Bool-cases (keep c)) [
  | inl kept ↦ rw kept (
      decode-plain ii c (percent_encode keep text) (not_percent keep c h kept)
      ∙ ap (◌∷◌ c) (decode-percent_encode keep text ii h others))
  | inr escaped ↦ rw escaped (
      decode-escaped ii c (percent_encode keep text) small
      ∙ ap (◌∷◌ c) (decode-percent_encode keep text c h others))
]
