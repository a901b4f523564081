-- ===== src/ErrorHandling/Tests.antt =====
-- The decision about a redirection.
use asio_http.Base.{ℕ, Bytes, codes, [], ◌∷◌, Option, none, some, ◌≡◌, refl, thrown, runtime_error}
use asio_http.Errors.{success, is_error}
use asio_http.Headers.{get_header}
use asio_http.Url.Parse.{get_url_components}
use asio_http.Request.{
  HttpRequest, HttpResultData, HttpMethod, CompressionPolicy, no_ssl, default_timeout_msec,
}
use asio_http.ErrorHandling.{process_errors}
use asio_http.ErrorHandling.Decision.{Decides, process_errors-Decides}

abbrev form : HttpRequest
form = record {
  http_method = HttpMethod.post;
  url = record {
    protocol = codes "http";
    host = codes "a";
    path = codes "/";
    query = [];
    port = 80;
  };
  timeout_msec = default_timeout_msec;
  certificates = no_ssl;
  http_headers = [];
  post_data = codes "x=1";
  compression_policy = CompressionPolicy.never;
}

abbrev moved_to : Bytes → HttpResultData
moved_to location = record {
  request = some form;
  headers = (codes "location", location) ∷ [];
  status_code = 302;
  content = [];
}

abbrev no_cast : Bytes → Option ℕ
no_cast s = none

process_errors-Decides_example :
    Decides no_cast success
      (moved_to (codes "http://b/c"))
      form
      (process_errors no_cast success (moved_to (codes "http://b/c")))
process_errors-Decides_example =
    process_errors-Decides no_cast success (moved_to (codes "http://b/c")) form refl

-- A location without a host cannot be parsed, and the exception leaves the handler.
relative_location : process_errors no_cast success (moved_to (codes "/c")) ≡ thrown runtime_error
unfolding process_errors is_error get_header get_url_components
relative_location = refl
