-- ===== src/TestServer/Search/First.antt =====
-- That the search in memory finds the first occurrence and reads no more than it may.
use asio_http.Base.{
  ℕ, zero, suc, ◌+◌, ◌-◌, ◌≤◌, ◌<◌, ◌^◌, ◌≡◌, refl, ap, ◌⊎◌, inl, inr, Bool, true, false, Option,
  none, some, [], ◌∷◌, Bytes, length, take, drop, is_empty, Outcome, returned, arith, Bool-cases,
}
use asio_http.TestServer.Search.{strncmp_eq, scan, rounds_of, mystrnstr, starts_with, same_case}

-- That the needle stands at the start of a text.
abbrev pub begins : (needle text : Bytes) → Bool
begins needle text = starts_with same_case needle text

strncmp_eq-begins :
    (needle haystack : Bytes)
    → length needle ≤ length haystack
    → strncmp_eq needle haystack ≡ returned (begins needle haystack)
unfolding strncmp_eq starts_with
strncmp_eq-begins [] haystack h = refl
strncmp_eq-begins (n ∷ needle) (x ∷ haystack) h =
    ground (arith, strncmp_eq-begins needle haystack (omega (arith, h)))
strncmp_eq-begins (n ∷ needle) [] h = ground (arith, h)

pub compares_equal :
    (needle haystack : Bytes)
    → begins needle haystack ≡ true
    → strncmp_eq needle haystack ≡ returned true
unfolding strncmp_eq starts_with
compares_equal [] haystack h = refl
compares_equal (n ∷ needle) (x ∷ haystack) h =
    ground (arith, compares_equal needle haystack (ground (arith, h)), h)
compares_equal (n ∷ needle) [] h = cc h

-- The result of a search at the places before `rounds`.
abbrev pub Finds : (rounds : ℕ) (needle haystack : Bytes) → Outcome (Option Bytes) → Type 0
Finds rounds needle haystack result =
    ((result ≡ returned none) × ((i : ℕ) → i < rounds → begins needle (drop i haystack) ≡ false))
    ⊎ ((i : ℕ) × (result ≡ returned (some (drop i haystack)))
        × (i < rounds)
        × (begins needle (drop i haystack) ≡ true)
        × ((j : ℕ) → j < i → begins needle (drop j haystack) ≡ false))

-- A place further on, where none is at the first.
none_before :
    (n : ℕ) (needle haystack : Bytes) (x : ℕ)
    → begins needle (x ∷ haystack) ≡ false
    → ((j : ℕ) → j < n → begins needle (drop j haystack) ≡ false)
    → (j : ℕ) → j < suc n
    → begins needle (drop j (x ∷ haystack)) ≡ false
none_before n needle haystack x here further zero h = here
none_before n needle haystack x here further (suc j) h = further j (omega (arith, h))

pub scan-Finds :
    (rounds : ℕ) (needle haystack : Bytes)
    → 0 < length needle
    → rounds + length needle ≤ suc (length haystack)
    → Finds rounds needle haystack (scan rounds needle haystack)
unfolding scan
scan-Finds zero needle haystack some_byte h = inl (refl, λ i. λ bad. ground (arith, bad))
scan-Finds (suc rounds) needle [] some_byte h = ground (arith, some_byte, h)
scan-Finds (suc rounds) needle (x ∷ haystack) some_byte h =
    elim (Bool-cases (begins needle (x ∷ haystack))) [
      | inl here ↦
          rw (strncmp_eq-begins needle (x ∷ haystack) (omega (arith, h)), here)
            (inr (0, refl, omega arith, here, λ j. λ bad. ground (arith, bad)))
      | inr away ↦
          rw (strncmp_eq-begins needle (x ∷ haystack) (omega (arith, h)), away)
            (elim (scan-Finds rounds needle haystack some_byte (omega (arith, h))) [
              | inl (nothing, nowhere) ↦
                  inl (nothing, none_before rounds needle haystack x away nowhere)
              | inr (i, found, inside, there, first) ↦ inr (
                suc i,
                found,
                omega (arith, inside),
                there,
                none_before i needle haystack x away first,
              )
            ])
    ]

rounds_of_lem : (n : ℕ) → n < 2 ^ 31 → rounds_of n ≡ suc n
unfolding rounds_of
rounds_of_lem n h = ground (arith, h)

take_all : (n : ℕ) (xs : Bytes) → length xs ≤ n → take n xs ≡ xs
take_all zero [] h = refl
take_all zero (x ∷ xs) h = ground (arith, h)
take_all (suc n) [] h = refl
take_all (suc n) (x ∷ xs) h = ap (◌∷◌ x) (take_all n xs (omega (arith, h)))

not_empty : (xs : Bytes) → 0 < length xs → is_empty xs ≡ false
not_empty [] h = ground (arith, h)
not_empty (x ∷ xs) h = refl

-- The search for a needle that fits, as its loop.
pub mystrnstr-scan :
    (haystack needle : Bytes) (len : ℕ)
    → 0 < length needle
    → length needle ≤ len
    → len < 2 ^ 31
    → mystrnstr haystack needle len ≡ scan (suc (len - length needle)) needle haystack
unfolding mystrnstr
mystrnstr-scan haystack needle len some_byte fits small =
    rw
      (
        take_all len needle fits,
        not_empty needle some_byte,
        rounds_of_lem (len - length needle) (omega (arith, small)),
      )
      refl

-- With a length of less than 2^31 that the memory has, and a needle that is not empty and no longer, the
-- search reads nothing beyond the memory; it finds the needle exactly if it occurs within the length, at
-- its first occurrence.
pub mystrnstr-Finds :
    (haystack needle : Bytes) (len : ℕ)
    → 0 < length needle
    → length needle ≤ len
    → len ≤ length haystack
    → len < 2 ^ 31
    → Finds (suc (len - length needle)) needle haystack (mystrnstr haystack needle len)
mystrnstr-Finds haystack needle len some_byte fits readable small =
    rw (mystrnstr-scan haystack needle len some_byte fits small) (
      scan-Finds (suc (len - length needle)) needle haystack some_byte
        (omega (arith, fits, readable)))
