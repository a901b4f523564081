-- ===== src/Url/Match.antt =====
-- The regular expression of implementation/url.cpp, one function for each group:
--   ^((.+):\/\/)?([A-Za-z0-9\-\.]+)(:([0-9]+))?(\/[^?]*)?(\?.*)?$
-- The groups behind the protocol are followed by bytes that they cannot hold, so each takes all
-- that it can. The protocol is greedy: its longest match that lets the rest match is taken.
use asio_http.Base.{
  ℕ, Bool, true, not, ◌&&◌, ◌||◌, [], ◌∷◌, ◌++◌, Option, none, some, leb, ◌==◌, if◌then◌else◌,
  Bytes, is_empty,
}
use asio_http.Url.Decimal.{is_digit}

-- `what[2]`, `what[3]`, `what[5]`, `what[6]` and `what[7]`; a group that took no part is empty,
-- the protocol's is `none`.
pub record Groups : Type 0 where
  pub protocol : Option Bytes
  pub host : Bytes
  pub port : Bytes
  pub path : Bytes
  pub query : Bytes

-- `.`
abbrev pub is_dot : ℕ → Bool
is_dot c = not (c == b'\n' || c == b'\r')

-- `[A-Za-z0-9\-\.]`
unfoldable pub is_host : ℕ → Bool
is_host c =
    leb b'A' c && leb c b'Z'
    || (leb b'a' c && leb c b'z' || (leb b'0' c && leb c b'9' || (c == b'-' || c == b'.')))

-- `[^?]`
abbrev pub not_question : ℕ → Bool
not_question c = not (c == b'?')

-- The longest prefix of such bytes, and what follows it.
unfoldable pub span : (ℕ → Bool) → Bytes → Bytes × Bytes
span p [] = ([], [])
span p (c ∷ s) = let (taken, rest) = span p s in if p c then (c ∷ taken, rest) else ([], c ∷ s)

unfoldable pub every : (ℕ → Bool) → Bytes → Bool
every p [] = true
every p (c ∷ s) = p c && every p s

-- `(\?.*)?$`
unfoldable pub match_query : Bytes → Option Bytes
unfolding every
match_query [] = some []
match_query (c ∷ s) = if c == b'?' && every is_dot s then some (c ∷ s) else none

-- `(\/[^?]*)?`, the path and what follows it
unfoldable pub match_path : Bytes → Bytes × Bytes
unfolding span
match_path [] = ([], [])
match_path (c ∷ s) =
    let (taken, rest) = span not_question s in if c == b'/' then (c ∷ taken, rest) else ([], c ∷ s)

-- `(:([0-9]+))?`, the digits and what follows them
unfoldable pub match_port : Bytes → Bytes × Bytes
unfolding span
match_port [] = ([], [])
match_port (c ∷ s) =
    let (digits, rest) = span is_digit s in
    if c == b':' && not (is_empty digits) then (digits, rest) else ([], c ∷ s)

-- All that follows the protocol.
unfoldable pub match_tail : Bytes → Option Groups
unfolding match_query match_path match_port span is_host
match_tail s =
    let (host, after_host) = span is_host s in
    let (port, after_port) = match_port after_host in
    let (path, after_path) = match_path after_port in
    if is_empty host then none else elim (match_query after_path) [
      | none ↦ none
      | some query ↦
          some (record { protocol = none; host = host; port = port; path = path; query = query })
    ]

-- What follows a `://` at the front.
unfoldable pub strip_separator : Bytes → Option Bytes
strip_separator (a ∷ b ∷ c ∷ s) = if a == b':' && (b == b'/' && c == b'/') then some s else none
strip_separator _ = none

abbrev pub or_else {ℓ} : {A : Type ℓ} → Option A → Option A → Option A
or_else (some a) o = some a
or_else none o = o

-- The protocol ends here: `p` stands before a `://` and the rest matches.
unfoldable pub match_here : Bytes → Bytes → Option Groups
unfolding strip_separator match_tail
match_here p s = if is_empty p then none else elim (strip_separator s) [
  | none ↦ none
  | some t ↦ elim (match_tail t) [ none ↦ none | some g ↦ some (record g { protocol = some p }) ]
]

-- `.+` holds `p` and may go on: a longer protocol goes before one that ends here.
unfoldable pub match_protocol : Bytes → Bytes → Option Groups
unfolding match_here
match_protocol p [] = none
match_protocol p (c ∷ s) =
    let longer = match_protocol (p ++ c ∷ []) s in
    or_else (if is_dot c then longer else none) (match_here p (c ∷ s))

-- `std::regex_match`
unfoldable pub match_url : Bytes → Option Groups
unfolding match_protocol match_tail
match_url s = or_else (match_protocol [] s) (match_tail s)
