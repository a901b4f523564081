-- ===== src/Body/Chunks.antt =====
-- What reading the body of a request in chunks yields, with data_source.cpp.
use asio_http.Base.{
  ℕ, zero, suc, ◌+◌, ◌≤◌, ◌<◌, ◌≡◌, ◌≢◌, ◌∙◌, refl, ap, sym, ◌⊎◌, inl, inr, true, false, List, [],
  ◌∷◌, ◌++◌, Bytes, length, take, drop, ltb, leb, if◌then◌else◌, is_empty, arith, Bool-cases,
  ltb→lt, take-append-drop, length-take, length-drop,
}
use asio_http.Request.{CompressionPolicy, never, when_better, always}
use asio_http.Compression.{Zlib, compress}
use asio_http.Body.{
  DataSource, compress_data_source, data_source, choose, read_callback, seek_callback, pos, beg,
  gzip_header,
}

-- The chunks of at most `n` bytes that are read one after another, up to the first that is empty, as
-- the connection sends them.
abbrev pub read_chunks : ℕ → DataSource → ℕ → List Bytes
read_chunks zero s n = []
read_chunks (suc fuel) s n =
    let (chunk, t) = read_callback s n in
    let rest = read_chunks fuel t n in if is_empty chunk then [] else chunk ∷ rest

abbrev pub concat : List Bytes → Bytes
concat [] = []
concat (x ∷ xs) = x ++ concat xs

-- What is left to read.
abbrev pub left : DataSource → Bytes
left s = if s.stream.is_good then drop s.stream.position s.stream.content else []

drop-drop : (m n : ℕ) (xs : Bytes) {k : ℕ} → k ≡ m + n → drop n (drop m xs) ≡ drop k xs
drop-drop zero n xs h = ap (λ i. drop i xs) (omega (arith, h))
drop-drop (suc m) zero [] {k = zero} h = refl
drop-drop (suc m) zero [] {k = suc k} h = refl
drop-drop (suc m) (suc n) [] {k = zero} h = refl
drop-drop (suc m) (suc n) [] {k = suc k} h = refl
drop-drop (suc m) n (x ∷ xs) {k = suc k} h = drop-drop m n xs (omega (arith, h))
drop-drop (suc m) n (x ∷ xs) {k = zero} h = elim (impossible h) [ ]
  where
    impossible : 0 ≡ suc m + n → ⊥
    impossible h = omega arith

drop_all : (n : ℕ) (xs : Bytes) → length xs ≤ n → drop n xs ≡ []
drop_all zero [] h = refl
drop_all (suc n) [] h = refl
drop_all (suc n) (x ∷ xs) h = drop_all n xs (omega (arith, h))
drop_all zero (x ∷ xs) h = elim (impossible h) [ ]
  where
    impossible : suc (length xs) ≤ 0 → ⊥
    impossible h = omega arith

take_nil : (n : ℕ) → take {A = ℕ} n [] ≡ []
take_nil zero = refl
take_nil (suc n) = refl

drop_nil : (n : ℕ) → drop {A = ℕ} n [] ≡ []
drop_nil zero = refl
drop_nil (suc n) = refl

take_empty : (n : ℕ) (xs : Bytes) → 0 < n → take n xs ≡ [] → xs ≡ []
take_empty n [] h e = refl
take_empty zero (x ∷ xs) h e = elim (impossible h) [ ]
  where
    impossible : 0 < 0 → ⊥
    impossible h = omega arith
take_empty (suc n) (x ∷ xs) h e = cc

after_read :
    (n p : ℕ) (xs : Bytes)
    → (if leb n (length (drop p xs)) then drop (p + length (take n (drop p xs))) xs else [])
      ≡ drop n (drop p xs)
after_read n p xs = elim (Bool-cases (leb n (length (drop p xs)))) [
  | inl e ↦ rw e (
      sym (
        drop-drop p n xs
          (omega (arith, length-take n (drop p xs), leb→le n (length (drop p xs)) e))))
  | inr e ↦ rw e (sym (drop_all n (drop p xs) (not_leb n (length (drop p xs)) e)))
]
  where
    leb→le : (a b : ℕ) → leb a b ≡ true → a ≤ b
    leb→le a b h = ground arith

    not_leb : (a b : ℕ) → leb a b ≡ false → b ≤ a
    not_leb a b h = ground arith

-- A read takes its chunk from the front of what is left.
read_callback-left :
    (s : DataSource) (n : ℕ)
    → ((read_callback s n).0 ≡ take n (left s)) × (left (read_callback s n).1 ≡ drop n (left s))
unfolding read_callback
read_callback-left s n = elim (Bool-cases s.stream.is_good) [
  | inl e ↦ rw e (refl, after_read n s.stream.position s.stream.content)
  | inr e ↦ (rw e (sym (take_nil n)), rw e (sym (drop_nil n)))
]

-- After a chunk that is not empty, less is left.
pub read_callback-shorter :
    (s : DataSource) (n fuel : ℕ)
    → length (left s) < suc fuel
    → is_empty (read_callback s n).0 ≡ false
    → length (left (read_callback s n).1) < fuel
read_callback-shorter s n fuel h full = omega (
  arith,
  h,
  length-full (read_callback s n).0 full,
  ap length (read_callback-left s n).0,
  ap length (read_callback-left s n).1,
  length-take n (left s),
  length-drop n (left s),
)
  where
    length-full : (xs : Bytes) → is_empty xs ≡ false → 0 < length xs
    length-full [] full = cc
    length-full (x ∷ xs) full = omega arith

pub read_chunks-left :
    (fuel : ℕ) (s : DataSource) (n : ℕ)
    → length (left s) < fuel
    → 0 < n
    → concat (read_chunks fuel s n) ≡ left s
read_chunks-left zero s n h nonzero = elim (impossible h) [ ]
  where
    impossible : length (left s) < 0 → ⊥
    impossible h = omega arith
read_chunks-left (suc fuel) s n h nonzero =
    go (read_callback s n) (read_callback-left s n).0 (read_callback-left s n).1
      (λ t bound. read_chunks-left fuel t n bound nonzero)
  where
    go :
        (r : Bytes × DataSource)
        → r.0 ≡ take n (left s)
        → left r.1 ≡ drop n (left s)
        → ((t : DataSource) → length (left t) < fuel → concat (read_chunks fuel t n) ≡ left t)
        → concat (if is_empty r.0 then [] else r.0 ∷ read_chunks fuel r.1 n) ≡ left s
    go ([], t) front rest again = sym (take_empty n (left s) nonzero (sym front))
    go (x ∷ chunk, t) front rest again =
        ap (λ r. x ∷ (chunk ++ r)) (again t shorter ∙ rest)
        ∙ (ap (λ f. f ++ drop n (left s)) front ∙ take-append-drop n (left s))
      where
        shorter : length (left t) < fuel
        shorter = omega (
          arith,
          h,
          nonzero,
          ap length front,
          ap length rest,
          length-take n (left s),
          length-drop n (left s),
        )

-- A new source, read in chunks of a fixed size that is not 0, yields all the bytes that
-- `compress_data_source` chose, as many as `get_size` tells, with fuel for more rounds than bytes.
pub data_source-chunks :
    (z : Zlib) (bytes : Bytes) (policy : CompressionPolicy) (n fuel : ℕ)
    → (data_source z bytes policy).size < fuel
    → 0 < n
    → (concat (read_chunks fuel (data_source z bytes policy) n)
        ≡ (compress_data_source z bytes policy).0)
      × ((data_source z bytes policy).size ≡ length (compress_data_source z bytes policy).0)
unfolding data_source
data_source-chunks z bytes policy n fuel h nonzero =
    (read_chunks-left fuel (data_source z bytes policy) n h nonzero, refl)

leb_zero : (n : ℕ) → leb 0 n ≡ true
leb_zero n = ground arith

-- A seek to offset 0 from the beginning succeeds whatever was read before, also after a read that
-- ended early, and then the chunks are all of the content again.
pub seek_callback-chunks :
    (s : DataSource) (n fuel : ℕ)
    → length s.stream.content < fuel
    → 0 < n
    → ((seek_callback s (pos 0) beg).0 ≡ true)
      × (concat (read_chunks fuel (seek_callback s (pos 0) beg).1 n) ≡ s.stream.content)
unfolding seek_callback
seek_callback-chunks s n fuel h nonzero = rw (leb_zero (length s.stream.content)) (
  refl,
  read_chunks-left fuel (record s { stream = record (s.stream) { position = 0; is_good = true } }) n
      h nonzero,
)

-- What a policy makes of a body, given its compressed form: the body itself without a header, or the
-- compressed form with the header of gzip.
abbrev pub Chosen : Bytes → CompressionPolicy → Bytes → Bytes × List Bytes → Type 0
Chosen bytes policy compressed r =
    ((r ≡ (bytes, []))
      × ((policy ≡ never)
          ⊎ ((bytes ≡ [])
              ⊎ ((compressed ≡ [])
                  ⊎ ((policy ≡ when_better) × (length bytes ≤ length compressed))))))
    ⊎ ((r ≡ (compressed, gzip_header ∷ []))
        × (compressed ≢ [])
        × (bytes ≢ [])
        × ((policy ≡ always) ⊎ ((policy ≡ when_better) × (length compressed < length bytes))))

choose-Chosen :
    (b : ℕ) (bytes : Bytes) (policy : CompressionPolicy) (compressed : Bytes)
    → policy ≢ never
    → Chosen (b ∷ bytes) policy compressed (choose (b ∷ bytes) policy compressed)
unfolding choose
choose-Chosen b bytes policy [] ne = inl (refl, inr (inr (inl refl)))
choose-Chosen b bytes never (c ∷ compressed) ne = elim (ne refl) [ ]
choose-Chosen b bytes always (c ∷ compressed) ne = inr (refl, (cc), (cc), inl refl)
choose-Chosen b bytes when_better (c ∷ compressed) ne =
    elim (Bool-cases (ltb (suc (length compressed)) (suc (length bytes)))) [
      | inl e ↦ rw e (inr (refl, (cc), (cc), inr (refl, ltb→lt _ _ e)))
      | inr e ↦ rw e (inl (refl, inr (inr (inr (refl, not_ltb e)))))
    ]
  where
    not_ltb : {a b : ℕ} → ltb a b ≡ false → b ≤ a
    not_ltb h = ground arith

-- `compress_data_source` returns a pair. It is the body as it is and no headers, and then the policy is
-- `never`, or the body or its compressed form is empty, or the policy is `when_better` and the
-- compressed form is no shorter. Or it is the compressed form and the header that names gzip, and then
-- neither form is empty, and the policy is `always`, or it is `when_better` and the compressed form is
-- shorter. What a caller does with the headers is not stated.
pub compress_data_source-Chosen :
    (z : Zlib) (bytes : Bytes) (policy : CompressionPolicy)
    → Chosen bytes policy (compress z bytes) (compress_data_source z bytes policy)
unfolding compress_data_source
compress_data_source-Chosen z bytes never = inl (refl, inl refl)
compress_data_source-Chosen z [] always = inl (refl, inr (inl refl))
compress_data_source-Chosen z [] when_better = inl (refl, inr (inl refl))
compress_data_source-Chosen z (b ∷ bytes) always =
    choose-Chosen b bytes always (compress z (b ∷ bytes)) cc
compress_data_source-Chosen z (b ∷ bytes) when_better =
    choose-Chosen b bytes when_better (compress z (b ∷ bytes)) cc
