-- ===== src/Headers/Lookup.antt =====
-- What a header lookup returns, for the case-insensitive comparison of names.
use asio_http.Base.{
  ℕ, ◌+◌, ◌≤◌, true, false, [], ◌∷◌, ◌++◌, ◌≡◌, refl, ap, ◌⊎◌, inl, inr, arith, All, Bytes,
  Bool-cases, ◌↔◌, map,
}
use asio_http.Headers.{HeaderList, tolower, iequals, get_header}

-- A capital letter of ASCII, and the small letter that belongs to it.
abbrev pub IsCapitalOf : (small capital : ℕ) → Type 0
IsCapitalOf small capital = (65 ≤ capital) × (capital ≤ 90) × (small ≡ capital + 32)

-- The same byte, or the two cases of one letter.
abbrev pub SameLetter : (x y : ℕ) → Type 0
SameLetter x y = (x ≡ y) ⊎ (IsCapitalOf x y ⊎ IsCapitalOf y x)

-- Names of one length that differ only in the case of their letters.
abbrev pub SameName : (a b : Bytes) → Type 0
SameName [] [] = Unit
SameName (x ∷ a) (y ∷ b) = SameLetter x y × SameName a b
SameName _ _ = ⊥

tolower-SameLetter : (x y : ℕ) → tolower x ≡ tolower y → SameLetter x y
unfolding tolower
tolower-SameLetter x y h = ground (arith, h)

SameLetter-tolower : (x y : ℕ) → SameLetter x y → tolower x ≡ tolower y
unfolding tolower
SameLetter-tolower x y (inl h) = ap tolower h
SameLetter-tolower x y (inr (inl (low, high, h))) = ground (arith, h)
SameLetter-tolower x y (inr (inr (low, high, h))) = ground (arith, h)

iequals-SameName : (a b : Bytes) → iequals a b ≡ true → SameName a b
unfolding iequals
iequals-SameName [] [] h = tt
iequals-SameName [] (y ∷ b) h = cc
iequals-SameName (x ∷ a) [] h = cc
iequals-SameName (x ∷ a) (y ∷ b) h =
    (tolower-SameLetter x y (ground (arith, h)), iequals-SameName a b (ground (arith, h)))

SameName-iequals : (a b : Bytes) → SameName a b → iequals a b ≡ true
unfolding iequals
SameName-iequals [] [] h = refl
SameName-iequals [] (y ∷ b) h = elim h [ ]
SameName-iequals (x ∷ a) [] h = elim h [ ]
SameName-iequals (x ∷ a) (y ∷ b) (h, others) =
    ground (arith, SameLetter-tolower x y h, SameName-iequals a b others)

miss_lem : (a b : Bytes) → iequals a b ≡ false → ¬ SameName a b
miss_lem a b h same = cc (SameName-iequals a b same)

iequals_iff : (a b : Bytes) → (iequals a b ≡ true) ↔ (map tolower a ≡ map tolower b)
unfolding iequals
iequals_iff [] [] = ground arith
iequals_iff [] (y ∷ b) = ground arith
iequals_iff (x ∷ a) [] = ground arith
iequals_iff (x ∷ a) (y ∷ b) = ground (arith, iequals_iff a b)

iequals-eq : (n a b : Bytes) → iequals a b ≡ true → iequals n a ≡ iequals n b
iequals-eq n a b h = ground (arith, iequals_iff a b, iequals_iff n a, iequals_iff n b)

-- Two spellings of a header's name that differ only in case find the same value.
get_header-iequals :
    (headers : HeaderList) (a b : Bytes)
    → iequals a b ≡ true
    → get_header headers a ≡ get_header headers b
unfolding get_header
get_header-iequals [] a b h = refl
get_header-iequals ((n, v) ∷ headers) a b h =
    rw (iequals-eq n a b h, get_header-iequals headers a b h)

-- The headers of this list have other names.
abbrev pub Misses : Bytes → HeaderList → Type 0
Misses header = All λ h. ¬ SameName h.0 header

-- `value` belongs to the first header of that name, or there is none and `value` is empty.
pub data Finds (header : Bytes) (headers : HeaderList) (value : Bytes) : Type 0 where
  first :
      (before after : HeaderList) (name : Bytes)
      → headers ≡ before ++ ((name, value) ∷ after)
      → Misses header before
      → SameName name header
      → Finds header headers value
  missing : Misses header headers → value ≡ [] → Finds header headers value

Finds-cons :
    (header name v : Bytes) (headers : HeaderList) {value : Bytes}
    → ¬ SameName name header
    → Finds header headers value
    → Finds header ((name, v) ∷ headers) value
Finds-cons header name v headers miss (first before after n e m f) =
    first ((name, v) ∷ before) after n (ap (◌∷◌ (name, v)) e) (miss, m) f
Finds-cons header name v headers miss (missing m e) = missing (miss, m) e

get_header-Finds_value :
    (headers : HeaderList) (header : Bytes) → Finds header headers (get_header headers header)
unfolding get_header
get_header-Finds_value [] header = missing tt refl
get_header-Finds_value ((n, v) ∷ headers) header = elim (Bool-cases (iequals n header)) [
  | inl hit ↦ rw hit (first [] headers n refl tt (iequals-SameName n header hit))
  | inr miss ↦ rw miss (
      Finds-cons header n v headers (miss_lem n header miss)
        (get_header-Finds_value headers header))
]

-- A lookup returns the value of the first header whose name is the given one up to the case of its
-- letters in ASCII, and the empty text if there is none; and it returns the same under any other
-- spelling that differs from the given name only in the case of letters.
pub get_header-Finds :
    (headers : HeaderList) (header spelling : Bytes)
    → SameName spelling header
    → Finds header headers (get_header headers header)
      × (get_header headers spelling ≡ get_header headers header)
get_header-Finds headers header spelling same = (
  get_header-Finds_value headers header,
  get_header-iequals headers spelling header (SameName-iequals spelling header same),
)
