-- ===== src/Url.antt =====
-- interface/asio_http/url.h and implementation/url.cpp: the parts of a url, and its text.
-- The regular expression of `get_url_components` is in `Url/Match`.
pub mod Match
pub mod Decimal
pub mod Parse
pub mod Shape
mod Separator
pub mod RoundTrip
pub mod Embedded
pub mod Samples
mod Tests
use asio_http.Base.{ℕ, Bool, not, ◌&&◌, [], ◌++◌, ◌==◌, if◌then◌else◌, Bytes, codes, str_eq}
use Decimal.{print_decimal}

pub record Url : Type 0 where
  pub protocol : Bytes
  pub host : Bytes
  pub path : Bytes
  pub query : Bytes
  pub port : ℕ

abbrev pub default_port_http : ℕ
default_port_http = 80

abbrev pub default_port_https : ℕ
default_port_https = 443

abbrev pub protocol_http : Bytes
protocol_http = codes "http"

abbrev pub protocol_https : Bytes
protocol_https = codes "https"

-- The text of the port in a url, which is left out for the default of its protocol and for 0.
unfoldable pub port_suffix : Url → Bytes
port_suffix u =
    if not (str_eq u.protocol protocol_http && u.port == default_port_http)
      && (not (str_eq u.protocol protocol_https && u.port == default_port_https)
          && not (u.port == 0))
    then codes ":" ++ print_decimal u.port
    else []

unfoldable pub to_string : Url → Bytes
unfolding port_suffix
to_string u = u.protocol ++ (codes "://" ++ (u.host ++ (port_suffix u ++ (u.path ++ u.query))))

unfoldable pub url_eq : Url → Url → Bool
url_eq a b =
    str_eq a.protocol b.protocol
    && (str_eq a.host b.host
        && (a.port == b.port && (str_eq a.path b.path && str_eq a.query b.query)))

unfoldable pub url_ne : Url → Url → Bool
unfolding url_eq
url_ne a b = not (url_eq a b)
