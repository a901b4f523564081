-- ===== src/Client.antt =====
-- interface/asio_http/http_client.h and implementation/http_client.cpp: what a user of the library calls.
-- A client holds the request manager, on whose strand everything is posted.
pub mod RoundTrip
mod Tests
use asio_http.Base.{ℕ, Option, List, [], ◌∷◌, Bytes, codes, Outcome, returned, ◌>>=◌}
use asio_http.Headers.{HeaderList}
use asio_http.Url.{Url}
use asio_http.Url.Parse.{get_url_components}
use asio_http.Request.{
  SslSettings, HttpMethod, CompressionPolicy, never, HttpRequest, default_timeout_msec,
  HttpClientSettings,
}
use asio_http.Manager.{
  RequestManager, request_manager, post, execute_request_task, cancel_requests_task,
}
use asio_http.Manager.Requests.{request_data}

unfoldable pub http_client : HttpClientSettings → RequestManager
unfolding request_manager
http_client settings = request_manager settings

-- The completion token has become a handler and its executor; the last argument is the value of the
-- clock.
unfoldable pub execute_request :
    (handler executor : ℕ)
    → HttpRequest
    → (cancellation_token : Bytes) → (now : ℕ) → RequestManager
    → RequestManager
execute_request handler executor request cancellation_token now m =
    post m (execute_request_task (request_data request handler executor cancellation_token now))

-- The requests that `get` and `post` make.
abbrev pub get_request : Url → SslSettings → HttpRequest
get_request url ssl = record {
  http_method = HttpMethod.get;
  url = url;
  timeout_msec = default_timeout_msec;
  certificates = ssl;
  http_headers = [];
  post_data = [];
  compression_policy = never;
}

abbrev pub post_request : Url → (content content_type : Bytes) → SslSettings → HttpRequest
post_request url content content_type ssl = record {
  http_method = HttpMethod.post;
  url = url;
  timeout_msec = default_timeout_msec;
  certificates = ssl;
  http_headers = (codes "Content-Type", content_type) ∷ [];
  post_data = content;
  compression_policy = never;
}

module _ (lexical_cast : Bytes → Option ℕ) where
  -- `get`: the url may be refused.
  unfoldable pub get_url :
      (handler executor : ℕ)
      → (url_string cancellation_token : Bytes) → SslSettings
      → (now : ℕ) → RequestManager
      → Outcome RequestManager
  unfolding execute_request
  get_url handler executor url_string cancellation_token ssl now m = do
    url ← get_url_components lexical_cast url_string
    returned (execute_request handler executor (get_request url ssl) cancellation_token now m)

  -- `post`
  unfoldable pub post_url :
      (handler executor : ℕ)
      → (url_string content content_type cancellation_token : Bytes) → SslSettings
      → (now : ℕ) → RequestManager
      → Outcome RequestManager
  unfolding execute_request
  post_url handler executor url_string content content_type cancellation_token ssl now m = do
    url ← get_url_components lexical_cast url_string
    returned (
        execute_request handler executor (post_request url content content_type ssl)
          cancellation_token now m)

unfoldable pub cancel_requests : Bytes → RequestManager → RequestManager
cancel_requests cancellation_token m = post m (cancel_requests_task cancellation_token)

-- `~http_client`
unfoldable pub destroy_client : RequestManager → RequestManager
destroy_client m = post m (cancel_requests_task [])
