-- ===== src/Url/Shape.antt =====
-- What follows the protocol of a url, described without the matcher: its texts in a row, each of
-- its own bytes. The matcher finds this description, and there is no other.
use mathlib.Core.Path.{subst}
use asio_http.Base.{
  ℕ, Bool, true, false, ◌&&◌, [], ◌∷◌, ◌++◌, none, some, ◌==◌, Bytes, is_empty, ◌≡◌, refl, ap, ◌∙◌,
  ◌↔◌, inl, inr, arith, Bool-cases, Option-cases,
}
use asio_http.Url.Decimal.{is_digit}
use asio_http.Url.Match.{
  Groups, is_dot, is_host, not_question, span, every, match_query, match_path, match_port,
  match_tail,
}

abbrev pub port_text : Bytes → Bytes
port_text [] = []
port_text (d ∷ ds) = b':' ∷ d ∷ ds

abbrev pub is_path : Bytes → Bool
is_path [] = true
is_path (c ∷ s) = c == b'/' && every not_question s

abbrev pub is_query : Bytes → Bool
is_query [] = true
is_query (c ∷ s) = c == b'?' && every is_dot s

pub record IsTail (s : Bytes) (g : Groups) : Type 0 where
  pub text : s ≡ g.host ++ (port_text g.port ++ (g.path ++ g.query))
  pub no_protocol : g.protocol ≡ none
  pub host_ne_nil : is_empty g.host ≡ false
  pub host_bytes : every is_host g.host ≡ true
  pub port_digits : every is_digit g.port ≡ true
  pub path_bytes : is_path g.path ≡ true
  pub query_bytes : is_query g.query ≡ true

-- The first byte, if there is one, fails the test.
abbrev pub Stops : (ℕ → Bool) → Bytes → Type 0
Stops p [] = Unit
Stops p (c ∷ s) = p c ≡ false

span_sound :
    (p : ℕ → Bool) (s : Bytes) → (s ≡ (span p s).0 ++ (span p s).1) × (every p (span p s).0 ≡ true)
unfolding span every
span_sound p [] = (refl, refl)
span_sound p (c ∷ s) = ground (arith, span_sound p s)

pub span-Stops :
    (p : ℕ → Bool) (a r : Bytes) → every p a ≡ true → Stops p r → span p (a ++ r) ≡ (a, r)
unfolding span every
span-Stops p [] [] h st = refl
span-Stops p [] (c ∷ r) h st = ground arith
span-Stops p (c ∷ a) r h st = ground (arith, span-Stops p a r)

query-Stops :
    (q : Bytes) → is_query q ≡ true → Stops not_question q × Stops is_host q × Stops is_digit q
unfolding is_host
query-Stops [] h = (tt, tt, tt)
query-Stops (c ∷ q) h = ground arith

path-Stops :
    (p q : Bytes)
    → is_path p ≡ true
    → is_query q ≡ true
    → Stops is_host (p ++ q) × Stops is_digit (p ++ q) × Stops (λ c. c == b':') (p ++ q)
unfolding is_host
path-Stops [] [] h k = (tt, tt, tt)
path-Stops [] (c ∷ q) h k = ground arith
path-Stops (c ∷ p) q h k = ground arith

port-Stops : (d r : Bytes) → Stops is_host r → Stops is_host (port_text d ++ r)
unfolding is_host
port-Stops [] r h = h
port-Stops (c ∷ d) r h = refl

match_path_lem : (p q : Bytes) → is_path p ≡ true → is_query q ≡ true → match_path (p ++ q) ≡ (p, q)
unfolding match_path
match_path_lem [] [] h k = refl
match_path_lem [] (c ∷ q) h k = ground arith
match_path_lem (c ∷ p) q h k = ground (arith, span-Stops not_question p q, query-Stops q k)

match_port_lem :
    (d r : Bytes)
    → every is_digit d ≡ true
    → Stops is_digit r
    → Stops (λ c. c == b':') r
    → match_port (port_text d ++ r) ≡ (d, r)
unfolding match_port every
match_port_lem [] [] h s t = refl
match_port_lem [] (c ∷ r) h s t = ground arith
match_port_lem (c ∷ d) r h s t = rw (span-Stops is_digit (c ∷ d) r h s)

match_query_lem : (q : Bytes) → is_query q ≡ true → match_query q ≡ some q
unfolding match_query
match_query_lem [] h = refl
match_query_lem (c ∷ q) h = ground arith

match_tail_steps :
    (s h r d u p v q : Bytes)
    → span is_host s ≡ (h, r)
    → match_port r ≡ (d, u)
    → match_path u ≡ (p, v)
    → match_query v ≡ some q
    → is_empty h ≡ false
    → match_tail s ≡ some (record { protocol = none; host = h; port = d; path = p; query = q })
unfolding match_tail
match_tail_steps s h r d u p v q e1 e2 e3 e4 e5 = ground arith

match_tail_complete : (s : Bytes) (g : Groups) → IsTail s g → match_tail s ≡ some g
match_tail_complete s g t =
    let stops = path-Stops g.path g.query t.path_bytes t.query_bytes in
    let found =
      match_tail_steps s g.host _ g.port _ g.path _ g.query
        (ap (span is_host) t.text
          ∙ span-Stops is_host g.host _ t.host_bytes (port-Stops g.port _ stops.0))
        (match_port_lem g.port _ t.port_digits stops.1 stops.2)
        (match_path_lem g.path g.query t.path_bytes t.query_bytes)
        (match_query_lem g.query t.query_bytes) t.host_ne_nil in
    cc (found, t.no_protocol)

match_query_sound : (s q : Bytes) → match_query s ≡ some q → (s ≡ q) × (is_query q ≡ true)
unfolding match_query
match_query_sound [] q h = ground arith
match_query_sound (c ∷ s) q h = ground arith

match_path_sound :
    (s : Bytes) → (s ≡ (match_path s).0 ++ (match_path s).1) × (is_path (match_path s).0 ≡ true)
unfolding match_path
match_path_sound [] = (refl, refl)
match_path_sound (c ∷ s) = ground (arith, span_sound not_question s)

match_port_sound :
    (s : Bytes)
    → (s ≡ port_text (match_port s).0 ++ (match_port s).1)
      × (every is_digit (match_port s).0 ≡ true)
unfolding match_port every
match_port_sound [] = (refl, refl)
match_port_sound (c ∷ s) = ground (arith, span_sound is_digit s)

parts :
    (s q : Bytes)
    → match_query (match_path (match_port (span is_host s).1).1).1 ≡ some q
    → s
      ≡ (span is_host s).0
        ++ (port_text (match_port (span is_host s).1).0
            ++ ((match_path (match_port (span is_host s).1).1).0 ++ q))
parts s q found = cc (
  (span_sound is_host s).0,
  (match_port_sound (span is_host s).1).0,
  (match_path_sound (match_port (span is_host s).1).1).0,
  (match_query_sound _ q found).0,
)

match_tail_sound : (s : Bytes) (g : Groups) → match_tail s ≡ some g → IsTail s g
unfolding match_tail
match_tail_sound s g e =
    let host = span is_host s in
    let port = match_port host.1 in
    let path = match_path port.1 in
    elim (Bool-cases (is_empty host.0)) [
      | inl none_taken ↦ ground arith
      | inr taken ↦ elim (Option-cases (match_query path.1)) [
        | inl refused ↦ ground arith
        | inr (q, found) ↦
            let g' : Groups = record {
              protocol = none;
              host = host.0;
              port = port.0;
              path = path.0;
              query = q;
            } in
            let same : match_tail s ≡ some g' =
              match_tail_steps s host.0 host.1 port.0 port.1 path.0 path.1 q refl refl refl found
                taken in
            let same_groups : g' ≡ g = cc (same, e) in
            subst (IsTail s) same_groups (record {
              text = parts s q found;
              no_protocol = refl;
              host_ne_nil = taken;
              host_bytes = (span_sound is_host s).1;
              port_digits = (match_port_sound host.1).1;
              path_bytes = (match_path_sound port.1).1;
              query_bytes = (match_query_sound path.1 q found).1;
            })
      ]
    ]

-- The part of a url behind its protocol matches with some groups exactly if its text is the host,
-- the port with its colon, the path and the query of these groups in a row, the host is not empty,
-- and each of them holds only bytes of its kind.
pub match_tail_iff : (s : Bytes) (g : Groups) → (match_tail s ≡ some g) ↔ IsTail s g
match_tail_iff s g = (match_tail_sound s g, match_tail_complete s g)
