-- ===== src/Client/RoundTrip.antt =====
-- What the calls of a client post, for a url that is given as its text.
use asio_http.Base.{
  ℕ, ◌<◌, [], ◌∷◌, ◌++◌, none, Option, some, Bytes, codes, ◌≡◌, refl, List, append_assoc, returned,
  ◌>>=◌,
}
use asio_http.Url.{Url, to_string}
use asio_http.Url.Decimal.{print_decimal}
use asio_http.Url.RoundTrip.{IsCanonical, get_url_components-to_string}
use asio_http.Request.{SslSettings, HttpMethod, never}
use asio_http.Manager.Requests.{RequestData, request_data, waiting}
use asio_http.Manager.{RequestManager, Task, execute_request_task, cancel_requests_task}
use asio_http.Client.{get_url, post_url, cancel_requests, destroy_client, execute_request}

-- The manager with these tasks behind those of its strand, and else as it was.
abbrev pub with_tasks : RequestManager → List Task → RequestManager
with_tasks m tasks = record m { strand = m.strand ++ tasks }

-- A new request by `GET`, which has no header and no body.
abbrev pub getting : Url → SslSettings → (handler executor : ℕ) → (token : Bytes) → ℕ → RequestData
getting u ssl handler executor token now = record {
  request_state = waiting;
  connection = none;
  http_request = record {
    http_method = HttpMethod.get;
    url = u;
    timeout_msec = 120000;
    certificates = ssl;
    http_headers = [];
    post_data = [];
    compression_policy = never;
  };
  completion_handler = handler;
  completion_executor = executor;
  cancellation_token = token;
  creation_time = now;
  retries = 0;
}

-- A new request by `POST`, with a body and its type.
abbrev pub posting :
    Url
    → (content content_type : Bytes) → SslSettings
    → (handler executor : ℕ) → (token : Bytes) → ℕ
    → RequestData
posting u content content_type ssl handler executor token now = record {
  request_state = waiting;
  connection = none;
  http_request = record {
    http_method = HttpMethod.post;
    url = u;
    timeout_msec = 120000;
    certificates = ssl;
    http_headers = (codes "Content-Type", content_type) ∷ [];
    post_data = content;
    compression_policy = never;
  };
  completion_handler = handler;
  completion_executor = executor;
  cancellation_token = token;
  creation_time = now;
  retries = 0;
}

module _ (lexical_cast : Bytes → Option ℕ)
    (casts_decimal : (n : ℕ) → n < 65536 → lexical_cast (print_decimal n) ≡ some n) where
  -- For the text of a url whose parts are well formed, if the cast of a port's digits gives the port: `get`,
  -- then `post`, then `cancel_requests`, then the end of the client post four tasks in this order and
  -- change nothing else of the manager. The first is a new request by GET for this url, with the
  -- given certificates, handler, executor, token and time, no header and no body; the second one by
  -- POST with the given body and its type as the only header; the third cancels the given token, and
  -- the last the empty one. Both requests have a timeout of two minutes and are never compressed.
  pub session-to_string :
      (u : Url) (m : RequestManager) (handler executor handler2 executor2 : ℕ)
      (token token2 token3 content content_type : Bytes) (ssl ssl2 : SslSettings) (now now2 : ℕ)
      → IsCanonical u
      → (get_url lexical_cast handler executor (to_string u) token ssl now m >>= λ m.
          post_url lexical_cast handler2 executor2
            (to_string u)
            content
            content_type
            token2
            ssl2
            now2
            m
          >>= λ m. returned (destroy_client (cancel_requests token3 m)))
        ≡ returned (
            with_tasks m (
              execute_request_task (getting u ssl handler executor token now)
              ∷ execute_request_task
                  (posting u content content_type ssl2 handler2 executor2 token2 now2)
              ∷ cancel_requests_task token3
              ∷ cancel_requests_task []
              ∷ []))
  unfolding get_url post_url cancel_requests destroy_client execute_request request_data
  session-to_string u m handler executor handler2 executor2 token token2 token3 content content_type
        ssl ssl2 now now2 canonical =
      rw (get_url_components-to_string lexical_cast casts_decimal u canonical)
        (simp append_assoc refl)
