-- ===== src/Manager.antt =====
-- implementation/request_manager.cpp: which requests run, wait, are tried again and are completed.
-- All of it runs on one strand, a queue of tasks that are executed one at a time in order.
pub mod Requests
pub mod Cancellation
mod Tests
pub mod Steps
use asio_http.Base.{
  ℕ, suc, ◌+◌, ◌%◌, ◌^◌, Bool, true, false, not, ◌&&◌, List, [], ◌∷◌, ◌++◌, Option, none, some, ltb,
  if◌then◌else◌, Bytes, is_empty, Outcome, returned, thrown, ◌>>=◌, count_by,
}
use asio_http.Errors.{ErrorCode, operation_aborted, is_error}
use asio_http.ErrorHandling.{process_errors}
use asio_http.Headers.{HeaderList}
use asio_http.Pool.{HttpStack, ConnectionPool, empty_pool, get_connection, release_connection}
use asio_http.Request.{HttpRequest, HttpResultData, HttpClientSettings}
use Requests.{
  RequestState, waiting_retry, in_progress, RequestData, Node, is_active, insert_node, relocate,
  Split, find_connection, find_node, by_token, from_token,
}

-- interface/asio_http/http_request_result.h, without the statistics. A result that is made from an
-- error code alone has no response code.
pub record HttpRequestResult : Type 0 where
  pub http_response_code : Option ℕ
  pub headers : HeaderList
  pub content_body : Bytes
  pub error : ErrorCode

-- What is posted to the strand.
pub data Task : Type 0 where
  execute_request_task : RequestData → Task
  cancel_requests_task : Bytes → Task
  on_request_completed_task : HttpResultData → HttpStack → ErrorCode → Task
  execute_waiting_requests_task : Task

-- What the manager has others do: a completion handler is dispatched to its executor, a connection
-- starts a request, or is asked to cancel it.
pub data Effect : Type 0 where
  invoke_handler : ℕ → ℕ → HttpRequestResult → Effect
  start_async : HttpStack → HttpRequest → Effect
  cancel_async : HttpStack → Effect

-- `running` lists the connections that hold a callback of the manager.
pub record RequestManager : Type 0 where
  pub settings : HttpClientSettings
  pub connection_pool : ConnectionPool
  pub requests : List Node
  pub next_id : ℕ
  pub strand : List Task
  pub running : List HttpStack
  pub effects : List Effect

unfoldable pub request_manager : HttpClientSettings → RequestManager
request_manager settings = record {
  settings = settings;
  connection_pool = empty_pool;
  requests = [];
  next_id = 0;
  strand = [];
  running = [];
  effects = [];
}

abbrev pub post : RequestManager → Task → RequestManager
post m task = record m { strand = m.strand ++ (task ∷ []) }

abbrev pub emit : RequestManager → Effect → RequestManager
emit m effect = record m { effects = m.effects ++ (effect ∷ []) }

-- The first node of index_state gets a connection, and the connection is started.
pub start : RequestManager → Node → List Node → RequestManager
start m first others =
    let (handle, pool) =
      get_connection m.connection_pool first.http_request.url first.http_request.certificates in
    let request = record (first.request) {
      connection = some handle;
      request_state = in_progress;
    } in
    emit
      (record m {
        connection_pool = pool;
        requests = relocate [] (record first { request = request }) others;
        running = handle ∷ m.running;
      })
      (start_async handle first.http_request)

pub execute_first : RequestManager → List Node → RequestManager
unfolding start
execute_first m [] = m
execute_first m (first ∷ others) =
    if ltb (count_by is_active m.requests) m.settings.max_parallel_requests && not (is_active first)
    then start m first others
    else m

unfoldable pub execute_waiting_requests : RequestManager → RequestManager
unfolding execute_first
execute_waiting_requests m = execute_first m m.requests

unfoldable pub execute_request : RequestManager → RequestData → RequestManager
execute_request m request = execute_waiting_requests (record m {
  requests = insert_node (record { id = m.next_id; request = request }) m.requests;
  next_id = m.next_id + 1;
})

-- The handler is called, the node is erased, and another request may start.
unfoldable pub handle_completed_request :
    RequestManager → Split → HttpRequestResult → RequestManager
handle_completed_request m s result =
    let n = s.found in
    post
      (record (emit m (invoke_handler n.completion_handler n.completion_executor result)) {
        requests = s.before ++ s.after;
      })
      execute_waiting_requests_task

abbrev pub error_result : ErrorCode → HttpRequestResult
error_result ec = record { http_response_code = none; headers = []; content_body = []; error = ec }

abbrev pub create_request_result : HttpResultData → ErrorCode → HttpRequestResult
create_request_result result ec = record {
  http_response_code = some result.status_code;
  headers = result.headers;
  content_body = result.content;
  error = ec;
}

-- A connection is asked to cancel and calls back later; a request without one completes at once.
pub cancel_split : RequestManager → Split → RequestManager
cancel_split m s = elim (s.found.connection) [
  | some handle ↦ emit m (cancel_async handle)
  | none ↦ handle_completed_request m s (error_result operation_aborted)
]

unfoldable pub cancel_request : RequestManager → Node → RequestManager
unfolding cancel_split
cancel_request m n = elim (find_node n.id m.requests) [ none ↦ m | some s ↦ cancel_split m s ]

unfoldable pub cancel_each : RequestManager → List Node → RequestManager
cancel_each m [] = m
cancel_each m (n ∷ ns) = cancel_each (cancel_request m n) ns

-- The nodes that the loop of `cancel_requests` visits.
unfoldable pub cancelled_nodes : Bytes → List Node → List Node
cancelled_nodes token nodes =
    if is_empty token then by_token nodes else from_token token (by_token nodes)

unfoldable pub cancel_requests : RequestManager → Bytes → RequestManager
unfolding cancel_each
cancel_requests m token = cancel_each m (cancelled_nodes token m.requests)

abbrev pub new_or_old : Option HttpRequest → HttpRequest → HttpRequest
new_or_old none old = old
new_or_old (some new) old = new

-- `retries` is a uint32_t.
unfoldable pub retry : RequestManager → Split → Option HttpRequest → RequestManager
retry m s new_request =
    let request = record (s.found.request) {
      http_request = new_or_old new_request s.found.http_request;
      connection = none;
      request_state = waiting_retry;
      retries = (s.found.retries + 1) % 2 ^ 32;
    } in
    post
      (record m { requests = relocate s.before (record (s.found) { request = request }) s.after })
      execute_waiting_requests_task

module _ (lexical_cast : Bytes → Option ℕ) where
  -- The part behind the lookup of the handle.
  unfoldable pub complete_split :
      RequestManager → Split → HttpResultData → ErrorCode → Outcome RequestManager
  complete_split m s result ec = do
    (again, new_request) ← process_errors lexical_cast ec result
    returned (
        if again && ltb s.found.retries m.settings.max_attempts
        then retry m s new_request
        else handle_completed_request m s (create_request_result result ec))

  unfoldable pub on_request_completed :
      RequestManager → HttpResultData → HttpStack → ErrorCode → Outcome RequestManager
  on_request_completed m result handle ec =
      let released = record m {
        connection_pool = release_connection m.connection_pool handle (is_error ec);
      } in
      elim (find_connection handle m.requests) [
        | none ↦ returned released
        | some s ↦ complete_split released s result ec
      ]

  unfoldable pub run_task : RequestManager → Task → Outcome RequestManager
  run_task m (execute_request_task request) = returned (execute_request m request)
  run_task m (cancel_requests_task token) = returned (cancel_requests m token)
  run_task m (on_request_completed_task result handle ec) = on_request_completed m result handle ec
  run_task m execute_waiting_requests_task = returned (execute_waiting_requests m)

-- The state in which a task that throws leaves the manager. Only a completion can: `process_errors` throws
-- behind the release of the connection.
unfoldable pub left_behind : RequestManager → Task → RequestManager
left_behind m (on_request_completed_task result handle ec) = record m {
  connection_pool = release_connection m.connection_pool handle (is_error ec);
}
left_behind m _ = m
