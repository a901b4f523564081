-- ===== src/Manager/Requests/Tokens.antt =====
-- index_cancellation, and which of its nodes stand behind the iterator of `find`.
use asio_http.Base.{
  ◌+◌, ◌<◌, Bool, true, false, not, ◌&&◌, List, [], ◌∷◌, Bytes, str_eq, str_eq_iff, ◌≡◌, refl,
  arith, inl, inr, Bool-cases, All, count_by, one_if,
}
use asio_http.Manager.Requests.{Node, token_lt, token_before, insert_by_token, by_token, from_token}

token_lt_irrefl : (a : Bytes) → token_lt a a ≡ false
unfolding token_lt
token_lt_irrefl [] = refl
token_lt_irrefl (x ∷ a) = ground (arith, token_lt_irrefl a)

token_lt_asymm : (a b : Bytes) → token_lt a b ≡ true → token_lt b a ≡ false
unfolding token_lt
token_lt_asymm [] [] h = refl
token_lt_asymm [] (y ∷ b) h = refl
token_lt_asymm (x ∷ a) [] h = ground arith
token_lt_asymm (x ∷ a) (y ∷ b) h = ground (arith, token_lt_asymm a b)

token_lt_connex : (a b : Bytes) → token_lt a b ≡ false → str_eq a b ≡ false → token_lt b a ≡ true
unfolding token_lt str_eq
token_lt_connex [] [] h k = ground arith
token_lt_connex [] (y ∷ b) h k = ground arith
token_lt_connex (x ∷ a) [] h k = refl
token_lt_connex (x ∷ a) (y ∷ b) h k = ground (arith, token_lt_connex a b)

token_le_trans :
    (a b c : Bytes) → token_lt b a ≡ false → token_lt c b ≡ false → token_lt c a ≡ false
unfolding token_lt
token_le_trans [] [] [] h k = refl
token_le_trans [] [] (z ∷ c) h k = refl
token_le_trans [] (y ∷ b) [] h k = ground arith
token_le_trans [] (y ∷ b) (z ∷ c) h k = refl
token_le_trans (x ∷ a) [] c h k = ground arith
token_le_trans (x ∷ a) (y ∷ b) [] h k = ground arith
token_le_trans (x ∷ a) (y ∷ b) (z ∷ c) h k = ground (arith, token_le_trans a b c)

abbrev pub NotBefore : Node → Node → Type 0
NotBefore x y = token_lt y.cancellation_token x.cancellation_token ≡ false

abbrev pub IsTokenSorted : List Node → Type 0
IsTokenSorted [] = Unit
IsTokenSorted (x ∷ xs) = All (NotBefore x) xs × IsTokenSorted xs

All-NotBefore :
    (x y : Node) (ys : List Node) → NotBefore x y → All (NotBefore y) ys → All (NotBefore x) ys
All-NotBefore x y [] h k = tt
All-NotBefore x y (z ∷ ys) h k = (
  token_le_trans x.cancellation_token y.cancellation_token z.cancellation_token h k.0,
  All-NotBefore x y ys h k.1,
)

All-insert_by_token :
    (z x : Node) (ys : List Node)
    → NotBefore z x
    → All (NotBefore z) ys
    → All (NotBefore z) (insert_by_token x ys)
unfolding insert_by_token
All-insert_by_token z x [] h k = (h, tt)
All-insert_by_token z x (y ∷ ys) h k = elim (Bool-cases (token_before x y)) [
  | inl first ↦ rw first (h, k)
  | inr behind ↦ rw behind (k.0, All-insert_by_token z x ys h k.1)
]

insert_by_token-IsTokenSorted :
    (x : Node) (ys : List Node) → IsTokenSorted ys → IsTokenSorted (insert_by_token x ys)
unfolding insert_by_token
insert_by_token-IsTokenSorted x [] s = (tt, tt)
insert_by_token-IsTokenSorted x (y ∷ ys) s = elim (Bool-cases (token_before x y)) [
  | inl first ↦
      let x_y : NotBefore x y = ground (
        arith,
        token_lt_asymm x.cancellation_token y.cancellation_token,
        str_eq_iff x.cancellation_token y.cancellation_token,
        token_lt_irrefl x.cancellation_token,
      ) in
      rw first ((x_y, All-NotBefore x y ys x_y s.0), s)
  | inr behind ↦
      rw behind
        (All-insert_by_token y x ys (ground arith) s.0, insert_by_token-IsTokenSorted x ys s.1)
]

pub by_token-IsTokenSorted : (xs : List Node) → IsTokenSorted (by_token xs)
unfolding by_token
by_token-IsTokenSorted [] = tt
by_token-IsTokenSorted (x ∷ xs) =
    insert_by_token-IsTokenSorted x (by_token xs) (by_token-IsTokenSorted xs)

count_by-insert_by_token :
    (p : Node → Bool) (x : Node) (ys : List Node)
    → count_by p (insert_by_token x ys) ≡ one_if (p x) + count_by p ys
unfolding insert_by_token count_by
count_by-insert_by_token p x [] = refl
count_by-insert_by_token p x (y ∷ ys) = ground (arith, count_by-insert_by_token p x ys)

pub count_by-by_token :
    (p : Node → Bool) (xs : List Node) → count_by p (by_token xs) ≡ count_by p xs
unfolding by_token count_by
count_by-by_token p [] = refl
count_by-by_token p (x ∷ xs) =
    omega (arith, count_by-insert_by_token p x (by_token xs), count_by-by_token p xs)

-- This node has the token; this one has it or one that comes behind it.
abbrev pub has_token : Bytes → Node → Bool
has_token token n = str_eq n.cancellation_token token

abbrev pub reaches : Bytes → (Node → Bool) → Node → Bool
reaches token p n = not (token_lt n.cancellation_token token) && p n

All-reach :
    (token : Bytes) (p : Node → Bool) (x : Node) (xs : List Node)
    → str_eq x.cancellation_token token ≡ true
    → All (NotBefore x) xs
    → count_by (reaches token p) xs ≡ count_by p xs
unfolding count_by
All-reach token p x [] e h = refl
All-reach token p x (y ∷ ys) e h =
    let same = (str_eq_iff x.cancellation_token token).0 e in
    let y_reaches = rw same at h.0 in ground (arith, All-reach token p x ys e h.1, y_reaches)

none_before :
    (token : Bytes) (x : Node) (xs : List Node)
    → token_lt x.cancellation_token token ≡ false
    → str_eq x.cancellation_token token ≡ false
    → All (NotBefore x) xs
    → count_by (has_token token) xs ≡ 0
unfolding count_by
none_before token x [] h k a = refl
none_before token x (y ∷ ys) h k a = ground (
  arith,
  token_lt_connex x.cancellation_token token h k,
  str_eq_iff y.cancellation_token token,
  none_before token x ys h k a.1,
)

pub from_token-reaches :
    (token : Bytes) (p : Node → Bool) (xs : List Node)
    → IsTokenSorted xs
    → 0 < count_by (has_token token) xs
    → count_by p (from_token token xs) ≡ count_by (reaches token p) xs
unfolding from_token count_by
from_token-reaches token p [] s h = ground arith
from_token-reaches token p (x ∷ xs) s h = ground (
  arith,
  All-reach token p x xs,
  str_eq_iff x.cancellation_token token,
  token_lt_irrefl token,
  none_before token x xs,
  s.0,
  from_token-reaches token p xs s.1,
)

pub from_token-nil :
    (token : Bytes) (xs : List Node) → count_by (has_token token) xs ≡ 0 → from_token token xs ≡ []
unfolding from_token count_by
from_token-nil token [] h = refl
from_token-nil token (x ∷ xs) h = ground (arith, from_token-nil token xs)
