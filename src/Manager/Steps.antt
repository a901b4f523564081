-- ===== src/Manager/Steps.antt =====
-- The manager with its environment: clients post requests and cancellations, a connection that was
-- started calls back once, and the strand runs its first task. A state is reachable here if no task
-- before it threw: `process_errors` throws for a redirection to a location that is no url. The state that such a
-- task leaves is `left_behind`, of which `Thrown` has what is different, and it is not followed further.
pub mod Completion
pub mod Capacity
pub mod Wakeups
pub mod WellFormed
pub mod Ownership
pub mod Invariant
mod Settings
pub mod Handlers
pub mod Effects
pub mod Safety
mod Thrown
mod Tests
use asio_http.Base.{ℕ, List, [], ◌∷◌, ◌++◌, Option, some, Bytes, ◌≡◌, Outcome, returned}
use asio_http.Errors.{ErrorCode}
use asio_http.Pool.{HttpStack}
use asio_http.Request.{HttpRequest, HttpResultData, HttpClientSettings}
use asio_http.Manager.Requests.{RequestData, request_data}
use asio_http.Manager.{
  Task, execute_request_task, cancel_requests_task, on_request_completed_task, RequestManager,
  request_manager, post, run_task,
}

module _ (cast : Bytes → Option ℕ) where
  pub data Step : RequestManager → RequestManager → Type 0 where
    -- `execute_request_async`, with the request that the http client makes
    submit :
        (m : RequestManager) (request : HttpRequest) (handler executor : ℕ) (token : Bytes)
        (now : ℕ)
        → Step m (post m (execute_request_task (request_data request handler executor token now)))
    -- `cancel_requests_async`
    cancel : (m : RequestManager) (token : Bytes) → Step m (post m (cancel_requests_task token))
    -- `on_request_completed_async`, called by a connection that holds a callback
    complete :
        (m : RequestManager) (before after : List HttpStack) (handle : HttpStack)
        (result : HttpResultData) (ec : ErrorCode)
        → m.running ≡ before ++ (handle ∷ after)
        → Step m (
            post
              (record m { running = before ++ after })
              (on_request_completed_task result handle ec))
    -- the task in front of the strand is executed and does not throw
    run :
        (m n : RequestManager) (task : Task) (rest : List Task)
        → m.strand ≡ task ∷ rest
        → run_task cast (record m { strand = rest }) task ≡ returned n
        → Step m n

  pub data Reach (settings : HttpClientSettings) : RequestManager → Type 0 where
    start : Reach settings (request_manager settings)
    later : {m n : RequestManager} → Reach settings m → Step m n → Reach settings n
