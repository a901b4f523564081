-- ===== src/Url/Tests.antt =====
-- Runs of the url functions, and the theorems at concrete inputs.
use asio_http.Base.{arith, ◌↔◌, ◌≡◌, refl, none, some, Bytes, codes, str_eq, [], returned}
use asio_http.Url.{Url, to_string}
use asio_http.Url.Decimal.{print_decimal}
use asio_http.Url.Match.{Groups, is_host, every, strip_separator, match_tail}
use asio_http.Url.Parse.{get_url_components}
use asio_http.Url.Shape.{IsTail, match_tail_iff}
use asio_http.Url.RoundTrip.{get_url_components-to_string}
use asio_http.Url.Samples.{cast_onto, sample_url, cast_onto-print_decimal, sample_url-IsCanonical}
use asio_http.Url.Embedded.{get_url_components-last_separator}

abbrev sample : Bytes
sample = codes "https://any.host.com:1234/some/path?and_query"

parse_sample : get_url_components (cast_onto 0) sample ≡ returned sample_url
unfolding get_url_components cast_onto str_eq
parse_sample = refl

print_sample : to_string sample_url ≡ sample
unfolding to_string str_eq print_decimal
print_sample = refl

get_url_components-to_string_example :
    get_url_components (cast_onto 0) (to_string sample_url) ≡ returned sample_url
get_url_components-to_string_example =
    get_url_components-to_string (cast_onto 0) cast_onto-print_decimal sample_url
      sample_url-IsCanonical

-- A redirect target that carries another url in its query.
abbrev redirecting : Bytes
redirecting = codes "https://login.example.org/go?next=http"

abbrev target : Groups
target = record {
  protocol = none;
  host = codes "evil.example.com";
  port = [];
  path = codes "/x";
  query = [];
}

target-IsTail : IsTail (codes "evil.example.com/x") target
unfolding is_host every
target-IsTail = record {
  text = refl;
  no_protocol = refl;
  host_ne_nil = refl;
  host_bytes = refl;
  port_digits = refl;
  path_bytes = refl;
  query_bytes = refl;
}

abbrev misread : Url
misread = record {
  protocol = redirecting;
  host = codes "evil.example.com";
  path = codes "/x";
  query = [];
  port = 0;
}

get_url_components-last_separator_example :
    (misread.protocol ≡ redirecting) × (misread.host ≡ target.host) × (misread.query ≡ target.query)
unfolding get_url_components every strip_separator str_eq
get_url_components-last_separator_example =
    get_url_components-last_separator (cast_onto 0) redirecting (codes "evil.example.com/x") target
      misread refl refl (ground arith) target-IsTail refl

match_tail_iff_example :
    (match_tail (codes "evil.example.com/x") ≡ some target)
    ↔ IsTail (codes "evil.example.com/x") target
match_tail_iff_example = match_tail_iff (codes "evil.example.com/x") target
