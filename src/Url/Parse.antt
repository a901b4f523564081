-- ===== src/Url/Parse.antt =====
-- `get_url_components` of implementation/url.cpp, which is the constructor of a url from a text.
-- `boost::lexical_cast<uint16_t>` is a parameter; `none` is its bad_lexical_cast.
use asio_http.Base.{
  ℕ, Option, none, some, Bytes, codes, str_eq, is_empty, if◌then◌else◌, Outcome, returned, thrown,
  runtime_error, bad_lexical_cast, ◌>>=◌,
}
use asio_http.Url.{Url, default_port_http, default_port_https, protocol_http, protocol_https}
use asio_http.Url.Match.{Groups, match_url}

module _ (lexical_cast : Bytes → Option ℕ) where
  -- The port written in the url, or the default of the protocol.
  unfoldable pub port_of : Bytes → Bytes → Outcome ℕ
  port_of protocol digits =
      if is_empty digits
      then returned (
          if str_eq protocol protocol_http
          then default_port_http
          else if str_eq protocol protocol_https
          then default_port_https
          else 0)
      else elim (lexical_cast digits) [ none ↦ thrown bad_lexical_cast | some n ↦ returned n ]

  unfoldable pub components : Groups → Outcome Url
  unfolding port_of
  components g =
      let protocol : Bytes = elim g.protocol [ none ↦ protocol_http | some p ↦ p ] in
      do
        port ← port_of protocol g.port
        returned (record {
          protocol = protocol;
          host = g.host;
          path = if is_empty g.path then codes "/" else g.path;
          query = g.query;
          port = port;
        })

  unfoldable pub get_url_components : Bytes → Outcome Url
  unfolding match_url components
  get_url_components s = elim (match_url s) [ none ↦ thrown runtime_error | some g ↦ components g ]
