-- ===== src/Completion.antt =====
-- interface/asio_http/coro_handler.h and future_handler.h: the completion handlers that resume a coroutine and
-- that set a promise.
pub mod Resumption
pub mod Promises
mod Tests
use asio_http.Base.{
  ℕ, Bool, true, false, Option, none, some, List, [], ◌∷◌, ◌++◌, if◌then◌else◌, Outcome, returned,
  thrown, future_error, ◌>>=◌, ◌==◌,
}
use asio_http.Errors.{ErrorCode, success}
use asio_http.Manager.{HttpRequestResult, Effect, invoke_handler}

-- A result as its default constructor leaves it.
abbrev pub default_result : HttpRequestResult
default_result = record {
  http_response_code = none;
  headers = [];
  content_body = [];
  error = success;
}

-- `shared_info`. A coroutine is known by a number; `resumed` lists those that were resumed, each with
-- the result that is there for its `await_resume`.
pub record SharedInfo : Type 0 where
  pub coro : Option ℕ
  pub has_handle : Bool
  pub result : HttpRequestResult
  pub has_result : Bool
  pub resumed : List (ℕ × HttpRequestResult)

abbrev pub shared_info : SharedInfo
shared_info = record {
  coro = none;
  has_handle = false;
  result = default_result;
  has_result = false;
  resumed = [];
}

unfoldable pub await_ready : SharedInfo → Bool
await_ready info = info.has_result

unfoldable pub await_resume : SharedInfo → HttpRequestResult
await_resume info = info.result

unfoldable pub await_suspend : ℕ → SharedInfo → SharedInfo
await_suspend coro info = record info { coro = some coro; has_handle = true }

-- `resume` of the handle that is there. A handle that is not is never resumed, since `has_handle` is
-- set with it.
unfoldable pub resume : SharedInfo → SharedInfo
unfolding await_resume
resume info = elim info.coro [
  | none ↦ info
  | some coro ↦ record info { resumed = info.resumed ++ ((coro, await_resume info) ∷ []) }
]

-- The completion handler.
unfoldable pub complete : HttpRequestResult → SharedInfo → SharedInfo
unfolding resume
complete result info =
    let stored = record info { result = result } in
    if stored.has_handle then resume stored else stored

-- `co_await`, as the language defines it: a coroutine goes on at once if the awaiter is ready, and
-- suspends itself if not.
unfoldable pub await : ℕ → SharedInfo → SharedInfo
unfolding await_ready await_suspend await_resume
await coro info =
    if await_ready info
    then record info { resumed = info.resumed ++ ((coro, await_resume info) ∷ []) }
    else await_suspend coro info

-- `std::promise` with its future: the value once it is set. A second value is refused.
abbrev pub Promise : Type 0
Promise = Option HttpRequestResult

unfoldable pub set_value : HttpRequestResult → Promise → Outcome Promise
set_value result none = returned (some result)
set_value result (some old) = thrown future_error

-- The calls of one handler among the effects of the manager, dispatched in order.
unfoldable pub dispatch : (handler : ℕ) → List Effect → Promise → Outcome Promise
unfolding set_value
dispatch handler [] promise = returned promise
dispatch handler (invoke_handler k executor result ∷ effects) promise =
    (if k == handler then set_value result promise else returned promise) >>= λ after.
    dispatch handler effects after
dispatch handler (_ ∷ effects) promise = dispatch handler effects promise
