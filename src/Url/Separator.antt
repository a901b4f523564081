-- ===== src/Url/Separator.antt =====
-- The greedy `(.+):\/\/` takes all that stands before the last `://` with a match behind it.
use mathlib.Core.List.{append_assoc, append-nil}
use asio_http.Base.{
  ℕ, true, false, [], ◌∷◌, ◌++◌, none, some, ◌==◌, if◌then◌else◌, Bytes, is_empty, ◌≡◌, refl, ap,
  ◌∙◌, arith,
}
use asio_http.Url.Match.{
  Groups, is_dot, every, match_tail, strip_separator, or_else, match_here, match_protocol,
  match_url,
}

-- No `://` stands in the text.
abbrev pub NoSeparator : Bytes → Type 0
NoSeparator [] = Unit
NoSeparator (c ∷ s) = (strip_separator (c ∷ s) ≡ none) × NoSeparator s

pub strip_separator_ne : (c : ℕ) (s : Bytes) → (c == b':') ≡ false → strip_separator (c ∷ s) ≡ none
unfolding strip_separator
strip_separator_ne c [] h = refl
strip_separator_ne c (a ∷ []) h = refl
strip_separator_ne c (a ∷ b ∷ s) h = ground arith

pub strip_separator_ne_second :
    (c d : ℕ) (s : Bytes) → (d == b'/') ≡ false → strip_separator (c ∷ d ∷ s) ≡ none
unfolding strip_separator
strip_separator_ne_second c d [] h = refl
strip_separator_ne_second c d (b ∷ s) h = ground arith

match_protocol-none : (p s : Bytes) → NoSeparator s → match_protocol p s ≡ none
unfolding match_protocol
match_protocol-none p [] h = refl
match_protocol-none p (c ∷ s) h = ground (arith, match_protocol-none (p ++ c ∷ []) s)

match_protocol-cons :
    (p : Bytes) (c : ℕ) (s : Bytes)
    → match_protocol p (c ∷ s)
      ≡ or_else (if is_dot c then match_protocol (p ++ c ∷ []) s else none) (match_here p (c ∷ s))
unfolding match_protocol
match_protocol-cons p c s = refl

match_here_separator :
    (p t : Bytes) (g : Groups)
    → is_empty p ≡ false
    → match_tail t ≡ some g
    → match_here p (b':' ∷ b'/' ∷ b'/' ∷ t) ≡ some (record g { protocol = some p })
unfolding match_here
match_here_separator p t g h e = ground arith

is_empty-append : (p q : Bytes) → is_empty p ≡ false → is_empty (p ++ q) ≡ false
is_empty-append [] q h = cc
is_empty-append (c ∷ p) q h = refl

match_protocol_last :
    (p q t : Bytes) (g : Groups)
    → is_empty (p ++ q) ≡ false
    → every is_dot q ≡ true
    → NoSeparator t
    → match_tail t ≡ some g
    → match_protocol p (q ++ (b':' ∷ b'/' ∷ b'/' ∷ t))
      ≡ some (record g { protocol = some (p ++ q) })
unfolding every
match_protocol_last p [] t g ne d n e =
    let slash : strip_separator (b'/' ∷ t) ≡ none = strip_separator_ne b'/' t refl in
    let slashes : strip_separator (b'/' ∷ b'/' ∷ t) ≡ none = strip_separator_ne b'/' _ refl in
    match_protocol-cons p b':' _
    ∙ ap (λ o. or_else o (match_here p (b':' ∷ b'/' ∷ b'/' ∷ t)))
        (match_protocol-none (p ++ b':' ∷ []) (b'/' ∷ b'/' ∷ t) (slashes, (slash, n)))
    ∙ rw append-nil (match_here_separator p t g (rw append-nil at ne) e)
match_protocol_last p (c ∷ q) t g ne d n e =
    let both = append_assoc p (c ∷ []) q in
    let dots : (is_dot c ≡ true) × (every is_dot q ≡ true) = ground arith in
    let later = match_protocol_last (p ++ c ∷ []) q t g (rw both ne) dots.1 n e in
    match_protocol-cons p c _ ∙ rw (dots.0, later, both)

-- If no `://` stands behind this one, all before it is the protocol, whatever it holds.
pub match_url_last :
    (q t : Bytes) (g : Groups)
    → is_empty q ≡ false
    → every is_dot q ≡ true
    → NoSeparator t
    → match_tail t ≡ some g
    → match_url (q ++ (b':' ∷ b'/' ∷ b'/' ∷ t)) ≡ some (record g { protocol = some q })
unfolding match_url
match_url_last q t g ne d n e = ground (arith, match_protocol_last [] q t g ne d n e)

pub match_url-none : (s : Bytes) → NoSeparator s → match_url s ≡ match_tail s
unfolding match_url
match_url-none s n = ground (arith, match_protocol-none [] s n)
