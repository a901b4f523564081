-- ===== src/Completion/Tests.antt =====
-- A coroutine that awaits two results, and the promise of a request that is cancelled before it runs.
use asio_http.Base.{
  ℕ, ◌+◌, ◌≡◌, refl, ◌⊎◌, Option, none, some, List, [], ◌∷◌, Bytes, codes, count_by, str_eq,
  returned,
}
use asio_http.Request.{
  HttpRequest, HttpClientSettings, HttpMethod, CompressionPolicy, no_ssl, default_timeout_msec,
}
use asio_http.Manager.{
  RequestManager, HttpRequestResult, request_manager, post, execute_request_task,
  cancel_requests_task, execute_request, cancel_requests, execute_waiting_requests, run_task,
  cancelled_nodes, cancel_each, cancel_request,
}
use asio_http.Manager.Requests.{request_data, insert_node, key_le, rank, is_active}
use asio_http.Manager.Steps.{Reach, submit, cancel, run, start, later}
use asio_http.Manager.Steps.Handlers.{submissions, asks, names}
use asio_http.Completion.{dispatch, shared_info, default_result}
use asio_http.Completion.Resumption.{
  Event, awaited, completed, happen, resumptions, happen-resumptions,
}
use asio_http.Completion.Promises.{dispatch-submissions}

-- A result comes too early, a coroutine awaits, two results come.
abbrev history : List Event
history =
    completed default_result ∷ awaited 3 ∷ completed default_result ∷ completed default_result ∷ []

happen-resumptions_example : (happen history shared_info).resumed ≡ resumptions none history
happen-resumptions_example = happen-resumptions history

abbrev no_cast : Bytes → Option ℕ
no_cast digits = none

abbrev none_at_a_time : HttpClientSettings
none_at_a_time = record { max_parallel_requests = 0; max_attempts = 5 }

abbrev home : HttpRequest
home = record {
  http_method = HttpMethod.get;
  url = record {
    protocol = codes "http";
    host = codes "a";
    path = codes "/";
    query = [];
    port = 80;
  };
  timeout_msec = default_timeout_msec;
  certificates = no_ssl;
  http_headers = [];
  post_data = [];
  compression_policy = CompressionPolicy.never;
}

abbrev submitted : RequestManager
submitted =
    post (request_manager none_at_a_time)
      (execute_request_task (request_data home 7 0 (codes "t") 10))

abbrev waiting : RequestManager
waiting = execute_request (record submitted { strand = [] }) (request_data home 7 0 (codes "t") 10)

abbrev cancelling : RequestManager
cancelling = post waiting (cancel_requests_task (codes "t"))

abbrev cancelled : RequestManager
cancelled = cancel_requests (record cancelling { strand = [] }) (codes "t")

-- What this history computes with.
evaluated : Unit {0}
unfolding request_manager run_task execute_request execute_waiting_requests insert_node key_le rank
    count_by is_active request_data cancel_requests cancelled_nodes cancel_each cancel_request
    str_eq submissions
evaluated = tt

cancelled_history : Reach no_cast none_at_a_time cancelled
unfolding evaluated
cancelled_history =
    later
      (later
        (later (later start (submit _ home 7 0 (codes "t") 10))
          (run _ _ (execute_request_task (request_data home 7 0 (codes "t") 10)) [] refl refl))
        (cancel _ (codes "t")))
      (run _ _ (cancel_requests_task (codes "t")) [] refl refl)

dispatch-submissions_example :
    ((dispatch 7 cancelled.effects none ≡ returned none)
      × (count_by (asks 7) cancelled.strand + count_by (names 7) cancelled.requests ≡ 1))
    ⊎ ((result : HttpRequestResult) × (dispatch 7 cancelled.effects none ≡ returned (some result))
        × (count_by (asks 7) cancelled.strand + count_by (names 7) cancelled.requests ≡ 0))
unfolding evaluated cancelled_history
dispatch-submissions_example = dispatch-submissions no_cast none_at_a_time cancelled_history 7 refl
