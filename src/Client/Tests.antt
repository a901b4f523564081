-- ===== src/Client/Tests.antt =====
-- A session of a client, with the url as text.
use asio_http.Base.{[], ◌∷◌, ◌≡◌, codes, returned, ◌>>=◌}
use asio_http.Url.{to_string}
use asio_http.Url.Samples.{cast_onto, sample_url, cast_onto-print_decimal, sample_url-IsCanonical}
use asio_http.Request.{no_ssl, HttpClientSettings}
use asio_http.Manager.{execute_request_task, cancel_requests_task}
use asio_http.Client.{http_client, get_url, post_url, cancel_requests, destroy_client}
use asio_http.Client.RoundTrip.{with_tasks, getting, posting, session-to_string}

abbrev settings : HttpClientSettings
settings = record { max_parallel_requests = 1; max_attempts = 5 }

session-to_string_example :
    (get_url (cast_onto 0) 7 0 (to_string sample_url) (codes "t") no_ssl 10 (http_client settings)
      >>= λ m.
          post_url
            (cast_onto 0)
            8
            1
            (to_string sample_url)
            (codes "{}")
            (codes "text/json")
            (codes "u")
            no_ssl
            11
            m
          >>= λ m. returned (destroy_client (cancel_requests (codes "t") m)))
    ≡ returned (
        with_tasks (http_client settings) (
          execute_request_task (getting sample_url no_ssl 7 0 (codes "t") 10)
          ∷ execute_request_task
              (posting sample_url (codes "{}") (codes "text/json") no_ssl 8 1 (codes "u") 11)
          ∷ cancel_requests_task (codes "t")
          ∷ cancel_requests_task []
          ∷ []))
session-to_string_example =
    session-to_string (cast_onto 0) cast_onto-print_decimal sample_url (http_client settings) 7 0 8
      1 (codes "t") (codes "u") (codes "t") (codes "{}") (codes "text/json") no_ssl no_ssl 10 11
      sample_url-IsCanonical
