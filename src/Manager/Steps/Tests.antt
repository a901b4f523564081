-- ===== src/Manager/Steps/Tests.antt =====
-- A short history of a manager that runs one request at a time: two are submitted, one starts, its
-- connection calls back.
use asio_http.Base.{
  ℕ, ◌+◌, ◌≤◌, ◌<◌, false, List, [], ◌∷◌, ◌++◌, Option, none, some, Bytes, codes, ◌≡◌, refl, arith,
  All, count_by, str_eq, ◌⊎◌,
}
use asio_http.Errors.{eof, is_error}
use asio_http.Pool.{HttpStack, tcp, get_connection, release_connection, stacks_at, assign}
use asio_http.Request.{
  HttpRequest, HttpResultData, HttpClientSettings, HttpMethod, CompressionPolicy, no_ssl,
  default_timeout_msec,
}
use asio_http.Manager.Requests.{
  Node, Split, request_data, is_active, rank, key_le, insert_node, relocate, in_progress,
  find_split, find_connection,
}
use asio_http.Manager.Requests.Order.{IsBelow}
use asio_http.Manager.{
  Task, RequestManager, start_async, request_manager, post, execute_request_task,
  on_request_completed_task, execute_waiting_requests, execute_request, run_task,
  on_request_completed, complete_split, retry,
}
use asio_http.Manager.Steps.Completion.{released}
use asio_http.ErrorHandling.{process_errors}
use asio_http.Manager.Steps.{submit, complete, run, Reach, start, later}
use asio_http.Manager.Steps.Capacity.{active, wakeups}
use asio_http.Manager.Steps.Ownership.{idle, used}
use asio_http.Manager.Steps.WellFormed.{IsWellNode}
use asio_http.Manager.Steps.Handlers.{submissions, submissions-total, invokes, asks, names}
use asio_http.Manager.Steps.Safety.{
  active-le-max_parallel_requests, used-idle-le-one, waits-wakeups, requests-IsWellNode,
  completion-finds, execute_waiting_requests-first,
}

abbrev no_cast : Bytes → Option ℕ
no_cast s = none

abbrev one_at_a_time : HttpClientSettings
one_at_a_time = record { max_parallel_requests = 1; max_attempts = 2 }

abbrev home : HttpRequest
home = record {
  http_method = HttpMethod.get;
  url = record {
    protocol = codes "http";
    host = codes "a";
    path = codes "/";
    query = [];
    port = 80;
  };
  timeout_msec = default_timeout_msec;
  certificates = no_ssl;
  http_headers = [];
  post_data = [];
  compression_policy = CompressionPolicy.never;
}

abbrev first_task : Task
first_task = execute_request_task (request_data home 7 0 (codes "t") 10)

abbrev second_task : Task
second_task = execute_request_task (request_data home 8 0 (codes "u") 11)

abbrev submitted : RequestManager
submitted = post (post (request_manager one_at_a_time) first_task) second_task

submitted-Reach : Reach no_cast one_at_a_time submitted
submitted-Reach =
    later (later start (submit _ home 7 0 (codes "t") 10)) (submit _ home 8 0 (codes "u") 11)

abbrev one_runs : RequestManager
one_runs =
    execute_request (record submitted { strand = second_task ∷ [] })
      (request_data home 7 0 (codes "t") 10)

one_runs-Reach : Reach no_cast one_at_a_time one_runs
unfolding request_manager run_task
one_runs-Reach = later submitted-Reach (run _ _ first_task (second_task ∷ []) refl refl)

-- What a run of the manager computes with.
evaluated : Unit {0}
unfolding request_manager run_task execute_request execute_waiting_requests on_request_completed
    complete_split process_errors insert_node key_le rank count_by is_active get_connection
    release_connection stacks_at assign str_eq relocate request_data find_split retry is_error
evaluated = tt

abbrev one_waits : RequestManager
one_waits = execute_request (record one_runs { strand = [] }) (request_data home 8 0 (codes "u") 11)

abbrev handle : HttpStack
handle = record { address = 0; host_and_port = (codes "a", 80); transport = tcp }

abbrev no_data : HttpResultData
no_data = record { request = some home; headers = []; status_code = 0; content = [] }

abbrev called_back : RequestManager
called_back =
    post (record one_waits { running = [] }) (on_request_completed_task no_data handle eof)

one_waits-Reach : Reach no_cast one_at_a_time one_waits
unfolding evaluated
one_waits-Reach = later one_runs-Reach (run _ _ second_task [] refl refl)

called_back-Reach : Reach no_cast one_at_a_time called_back
unfolding evaluated
called_back-Reach = later one_waits-Reach (complete _ [] [] handle no_data eof refl)

active-le-max_parallel_requests_example : active one_waits ≤ 1
active-le-max_parallel_requests_example =
    active-le-max_parallel_requests no_cast one_at_a_time one_waits-Reach

used-idle-le-one_example : used 0 one_waits + idle 0 one_waits ≤ 1
used-idle-le-one_example = used-idle-le-one no_cast one_at_a_time one_waits-Reach 0

requests-IsWellNode_example : All (IsWellNode 2) one_waits.requests
requests-IsWellNode_example = requests-IsWellNode no_cast one_at_a_time one_waits-Reach

completion-finds_example : (s : Split) × (find_connection handle called_back.requests ≡ some s)
unfolding evaluated
completion-finds_example =
    completion-finds no_cast one_at_a_time called_back-Reach no_data handle eof [] refl

submissions-total_example :
    submissions 7 called_back-Reach
    ≡ count_by (invokes 7) called_back.effects
      + (count_by (asks 7) called_back.strand + count_by (names 7) called_back.requests)
submissions-total_example = submissions-total 7 called_back-Reach

-- The task of the completion has run: both requests wait, one of them to be tried again.
abbrev both_wait : RequestManager
both_wait =
    retry (released (record called_back { strand = [] }) handle eof)
      (record {
        before = [];
        found = record {
          id = 0;
          request = record (request_data home 7 0 (codes "t") 10) {
            connection = some handle;
            request_state = in_progress;
          };
        };
        after = record { id = 1; request = request_data home 8 0 (codes "u") 11 } ∷ [];
      })
      none

both_wait-Reach : Reach no_cast one_at_a_time both_wait
unfolding evaluated
both_wait-Reach = later called_back-Reach (run _ _ _ [] refl refl)

waits-wakeups_example : 0 < wakeups both_wait
unfolding evaluated
waits-wakeups_example =
    waits-wakeups no_cast one_at_a_time both_wait-Reach (omega arith) (omega arith)

execute_waiting_requests-first_example :
    ((execute_waiting_requests both_wait).effects ≡ both_wait.effects)
    ⊎ ((first : Node) × (others : List Node) × (handle : HttpStack) × (both_wait.requests
          ≡ first ∷ others)
        × (is_active first ≡ false)
        × All (IsBelow first) others
        × ((execute_waiting_requests both_wait).effects
            ≡ both_wait.effects ++ (start_async handle first.http_request ∷ [])))
execute_waiting_requests-first_example =
    execute_waiting_requests-first no_cast one_at_a_time both_wait-Reach
