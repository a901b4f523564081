-- ===== src/Url/Embedded.antt =====
-- Which of several `://` a url is split at.
use asio_http.Base.{ℕ, true, false, ◌∷◌, ◌++◌, Option, some, Bytes, is_empty, ◌≡◌, arith, returned}
use asio_http.Url.{Url}
use asio_http.Url.Match.{Groups, is_dot, every}
use asio_http.Url.Parse.{components, get_url_components}
use asio_http.Url.Shape.{IsTail, match_tail_iff}
use asio_http.Url.Separator.{NoSeparator, match_url_last}

module _ (lexical_cast : Bytes → Option ℕ) where
  components_parts :
      (g : Groups) (p : Bytes) (u : Url)
      → components lexical_cast (record g { protocol = some p }) ≡ returned u
      → (u.protocol ≡ p) × (u.host ≡ g.host) × (u.query ≡ g.query)
  unfolding components
  components_parts g p u e = ground arith

  -- If the text behind a `://` has no further `://` and is well formed as a host with an optional
  -- port, path and query, and the text `q` in front is not empty and has no line break, be it a scheme
  -- or a whole url with a path and a query, and the url is accepted, then `q` is its protocol, and its
  -- host and its query are those behind.
  pub get_url_components-last_separator :
      (q t : Bytes) (g : Groups) (u : Url)
      → is_empty q ≡ false
      → every is_dot q ≡ true
      → NoSeparator t
      → IsTail t g
      → get_url_components lexical_cast (q ++ (b':' ∷ b'/' ∷ b'/' ∷ t)) ≡ returned u
      → (u.protocol ≡ q) × (u.host ≡ g.host) × (u.query ≡ g.query)
  unfolding get_url_components
  get_url_components-last_separator q t g u ne d n e h =
      components_parts g q u
        (rw (match_url_last q t g ne d n ((match_tail_iff t g).1 e), get_url_components) at h)
