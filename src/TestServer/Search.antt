-- ===== src/TestServer/Search.antt =====
-- test_server/interface/asio_http/test_server/test_server.h: the searches in texts. A pointer into memory is
-- the list of bytes that can be read from it on; a range is the list of its bytes.
pub mod First
pub mod Places
use asio_http.Base.{
  not, ℕ, zero, suc, ◌+◌, ◌-◌, ◌%◌, ◌^◌, Bool, true, false, Option, none, some, List, [], ◌∷◌, ltb,
  leb, ◌==◌, ◌&&◌, if◌then◌else◌, Bytes, length, take, is_empty, Outcome, returned, thrown, ◌>>=◌,
  out_of_bounds,
}
use asio_http.Headers.{tolower}

-- `strncmp` with the length of the needle, which has no byte 0, tested for equality. A byte of the memory
-- is read only if those before it are equal.
unfoldable pub strncmp_eq : (needle haystack : Bytes) → Outcome Bool
strncmp_eq [] haystack = returned true
strncmp_eq (n ∷ needle) [] = thrown out_of_bounds
strncmp_eq (n ∷ needle) (h ∷ haystack) =
    let further = strncmp_eq needle haystack in if h == n then further else returned false

-- The loop: how many rounds are left, and where `haystack` points. The test of the first byte before
-- `strncmp` is its first step.
unfoldable pub scan : (rounds : ℕ) → (needle haystack : Bytes) → Outcome (Option Bytes)
unfolding strncmp_eq
scan zero needle haystack = returned none
scan (suc rounds) needle [] = thrown out_of_bounds
scan (suc rounds) needle (h ∷ haystack) =
    let further = scan rounds needle haystack in
    strncmp_eq needle (h ∷ haystack) >>= λ found.
    if found then returned (some (h ∷ haystack)) else further

-- `i <= (int)(len - needle_len)` from `i = 0` on: the conversion to 32 bits may be negative.
unfoldable pub rounds_of : ℕ → ℕ
rounds_of difference = let low = difference % 2 ^ 32 in if ltb low (2 ^ 31) then suc low else 0

-- A needle that is longer than `len` is cut, by `strnlen`.
unfoldable pub mystrnstr : (haystack needle : Bytes) → (len : ℕ) → Outcome (Option Bytes)
unfolding scan rounds_of
mystrnstr haystack needle len =
    let cut = take len needle in
    if is_empty cut
    then returned (some haystack)
    else scan (rounds_of (len - length cut)) cut haystack

-- The inner loop of `mystrinstr`: whether it comes to the end of the needle. The byte of the memory is
-- read before `l` is tested; the byte 0 that ends the needle is its end here.
unfoldable pub reaches_end : (needle : Bytes) → (l : ℕ) → (h : Bytes) → Outcome Bool
unfolding tolower
reaches_end needle l [] = thrown out_of_bounds
reaches_end [] l (x ∷ h) = returned true
reaches_end (n ∷ needle) zero (x ∷ h) = returned false
reaches_end (n ∷ needle) (suc l) (x ∷ h) =
    let further = reaches_end needle l h in
    if tolower x == tolower n then further else returned false

-- The outer loop goes on up to a byte 0, or until `len`, of 64 bits, is 0.
unfoldable pub mystrinstr :
    (needle : Bytes) → (haystack : Bytes) → (len : ℕ) → Outcome (Option Bytes)
unfolding reaches_end
mystrinstr needle [] len = thrown out_of_bounds
mystrinstr needle (x ∷ haystack) len =
    let left = (len + 2 ^ 64 - 1) % 2 ^ 64 in
    let further = mystrinstr needle haystack left in
    reaches_end needle len (x ∷ haystack) >>= λ found.
    if found
    then returned (some (x ∷ haystack))
    else if not (x == 0) && not (left == 0)
    then further
    else returned none

-- `toupper` in the C locale.
unfoldable pub toupper : ℕ → ℕ
toupper c = if leb b'a' c && leb c b'z' then c - 32 else c

abbrev pub same_case : ℕ → ℕ → Bool
same_case a b = a == b

unfoldable pub same_letter : ℕ → ℕ → Bool
unfolding toupper
same_letter a b = toupper a == toupper b

module _ (eq : ℕ → ℕ → Bool) where
  unfoldable pub starts_with : (needle haystack : Bytes) → Bool
  starts_with [] haystack = true
  starts_with (n ∷ needle) [] = false
  starts_with (n ∷ needle) (h ∷ haystack) = eq h n && starts_with needle haystack

  -- `std::search`: the range from the first occurrence to the end, which is empty if there is none.
  unfoldable pub search : (haystack needle : Bytes) → Bytes
  unfolding starts_with
  search [] needle = []
  search (h ∷ haystack) needle =
      let further = search haystack needle in
      if starts_with needle (h ∷ haystack) then h ∷ haystack else further

unfoldable pub find_string_ic : (haystack needle : Bytes) → Bytes
unfolding search same_letter
find_string_ic haystack needle = search same_letter haystack needle
