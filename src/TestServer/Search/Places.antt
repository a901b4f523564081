-- ===== src/TestServer/Search/Places.antt =====
-- Searches for a text behind one that lacks its first byte, and for one byte, whatever can be read.
use asio_http.Base.{
  ℕ, zero, suc, ◌+◌, ◌-◌, ◌≤◌, ◌<◌, ◌^◌, ◌≡◌, refl, ◌∙◌, ◌⊎◌, inl, inr, Bool, true, false, none,
  some, [], ◌∷◌, ◌++◌, ◌==◌, ◌||◌, Bytes, All, length, arith, returned, thrown, out_of_bounds,
  Bool-cases,
}
use asio_http.TestServer.Search.{mystrnstr, scan, strncmp_eq, starts_with}
use asio_http.TestServer.Search.First.{begins, compares_equal, mystrnstr-scan}

-- A text without a byte.
abbrev pub Lacks : ℕ → Bytes → Type 0
Lacks c text = All (λ x. (x == c) ≡ false) text

-- Whether a byte is in a text.
abbrev pub has : ℕ → Bytes → Bool
has c [] = false
has c (x ∷ text) = x == c || has c text

pub has-Lacks : (c : ℕ) (text : Bytes) → has c text ≡ false → Lacks c text
has-Lacks c [] h = tt
has-Lacks c (x ∷ text) h = (ground (arith, h), has-Lacks c text (ground (arith, h)))

scan_behind :
    (rounds c : ℕ) (needle text rest : Bytes)
    → Lacks c text
    → length text < rounds
    → begins (c ∷ needle) rest ≡ true
    → scan rounds (c ∷ needle) (text ++ rest) ≡ returned (some rest)
unfolding scan strncmp_eq
scan_behind zero c needle text rest lacks less there = ground (arith, less)
scan_behind (suc rounds) c needle [] [] lacks less there = unfold starts_with in cc there
scan_behind (suc rounds) c needle [] (x ∷ rest) lacks less there =
    rw (compares_equal (c ∷ needle) (x ∷ rest) there) refl
scan_behind (suc rounds) c needle (x ∷ text) rest (other, lacks) less there =
    rw (other, scan_behind rounds c needle text rest lacks (omega (arith, less)) there) refl

-- A needle is found behind a text without its first byte.
pub mystrnstr_behind :
    (c : ℕ) (needle text rest : Bytes) (len : ℕ)
    → Lacks c text
    → length text + suc (length needle) ≤ len
    → len < 2 ^ 31
    → begins (c ∷ needle) rest ≡ true
    → mystrnstr (text ++ rest) (c ∷ needle) len ≡ returned (some rest)
mystrnstr_behind c needle text rest len lacks inside small there =
    mystrnstr-scan (text ++ rest) (c ∷ needle) len (omega arith) (omega (arith, inside)) small
    ∙ scan_behind (suc (len - length (c ∷ needle))) c needle text rest lacks (omega (arith, inside))
        there

scan_lacking :
    (rounds c : ℕ) (text : Bytes)
    → Lacks c text
    → rounds ≤ length text
    → scan rounds (c ∷ []) text ≡ returned none
unfolding scan strncmp_eq
scan_lacking zero c text lacks less = refl
scan_lacking (suc rounds) c [] lacks less = ground (arith, less)
scan_lacking (suc rounds) c (x ∷ text) (other, lacks) less =
    rw (other, scan_lacking rounds c text lacks (omega (arith, less))) refl

scan_past :
    (rounds c : ℕ) (text : Bytes)
    → Lacks c text
    → length text < rounds
    → scan rounds (c ∷ []) text ≡ thrown out_of_bounds
unfolding scan strncmp_eq
scan_past zero c text lacks less = ground (arith, less)
scan_past (suc rounds) c [] lacks less = refl
scan_past (suc rounds) c (x ∷ text) (other, lacks) less =
    rw (other, scan_past rounds c text lacks (omega (arith, less))) refl

-- A search that ends within a text, for a byte that is in it.
scan_present :
    (rounds c : ℕ) (text rest : Bytes)
    → Lacks c text
    → has c rest ≡ true
    → (scan rounds (c ∷ []) (text ++ rest) ≡ returned none)
      ⊎ ((p : Bytes) × (scan rounds (c ∷ []) (text ++ rest) ≡ returned (some p))
          × (length p ≤ length rest))
unfolding scan strncmp_eq
scan_present zero c text rest lacks there = inl refl
scan_present (suc rounds) c (x ∷ text) rest (other, lacks) there =
    rw other (scan_present rounds c text rest lacks there)
scan_present (suc rounds) c [] [] lacks there = cc there
scan_present (suc rounds) c [] (x ∷ rest) lacks there = elim (Bool-cases (x == c)) [
  | inl here ↦ rw here (inr (x ∷ rest, refl, omega arith))
  | inr away ↦ rw away (elim (scan_present rounds c [] rest tt (rw away at there)) [
    | inl nothing ↦ inl nothing
    | inr (p, found, less) ↦ inr (p, found, omega (arith, less))
  ])
]

-- A byte that a text lacks is not found if the length does not go beyond the text; if it does, the search
-- reads beyond the text.
pub mystrnstr_lacking :
    (c : ℕ) (text : Bytes) (len : ℕ)
    → 0 < len
    → len < 2 ^ 31
    → Lacks c text
    → len ≤ length text
    → mystrnstr text (c ∷ []) len ≡ returned none
mystrnstr_lacking c text len some_byte small lacks inside =
    mystrnstr-scan text (c ∷ []) len (omega arith) (omega (arith, some_byte)) small
    ∙ scan_lacking (suc (len - 1)) c text lacks (omega (arith, inside, some_byte))

pub mystrnstr_past :
    (c : ℕ) (text : Bytes) (len : ℕ)
    → len < 2 ^ 31
    → Lacks c text
    → length text < len
    → mystrnstr text (c ∷ []) len ≡ thrown out_of_bounds
mystrnstr_past c text len small lacks past =
    mystrnstr-scan text (c ∷ []) len (omega arith) (omega (arith, past)) small
    ∙ scan_past (suc (len - 1)) c text lacks (omega (arith, past))

pub mystrnstr_present :
    (c : ℕ) (text rest : Bytes) (len : ℕ)
    → 0 < len
    → len < 2 ^ 31
    → Lacks c text
    → has c rest ≡ true
    → (mystrnstr (text ++ rest) (c ∷ []) len ≡ returned none)
      ⊎ ((p : Bytes) × (mystrnstr (text ++ rest) (c ∷ []) len ≡ returned (some p))
          × (length p ≤ length rest))
mystrnstr_present c text rest len some_byte small lacks there =
    rw (mystrnstr-scan (text ++ rest) (c ∷ []) len (omega arith) (omega (arith, some_byte)) small)
      (scan_present (suc (len - 1)) c text rest lacks there)
