-- ===== src/ErrorHandling.antt =====
-- implementation/http_error_handling.cpp: whether a request that came back is to be tried again,
-- and with which request.
pub mod Decision
mod Tests
use asio_http.Base.{
  ℕ, Bool, true, false, ◌&&◌, ◌||◌, List, [], ◌∷◌, Option, none, some, leb, ◌==◌, if◌then◌else◌,
  Bytes, codes, is_empty, Outcome, returned, thrown, null_dereference, ◌>>=◌,
}
use asio_http.Headers.{get_header}
use asio_http.Url.{Url}
use asio_http.Url.Parse.{get_url_components}
use asio_http.Request.{HttpRequest, HttpResultData}
use asio_http.Errors.{
  ErrorCode, success, broken_pipe, connection_reset, eof, operation_aborted, timed_out, system,
  http_parser, hpe_invalid_eof_state, is_error,
}

-- The errors after which the same request is sent again: the server closed the connection.
pub is_retriable : ErrorCode → Bool
is_retriable broken_pipe = true
is_retriable connection_reset = true
is_retriable eof = true
is_retriable (http_parser n) = n == hpe_invalid_eof_state
is_retriable _ = false

-- The cases 301 to 308 of the switch.
abbrev pub is_redirection : ℕ → Bool
is_redirection status = leb 301 status && leb status 308

-- `*pointer`
abbrev pub dereference {ℓ} : {A : Type ℓ} → Option A → Outcome A
dereference none = thrown null_dereference
dereference (some a) = returned a

-- `{ static_cast<bool>(new_request), new_request }`
abbrev pub with_request : Option HttpRequest → Bool × Option HttpRequest
with_request none = (false, none)
with_request (some r) = (true, some r)

module _ (lexical_cast : Bytes → Option ℕ) where
  -- The same request at another url.
  redirect : Bytes → HttpRequest → Outcome (Option HttpRequest)
  redirect location request = do
    target ← get_url_components lexical_cast location
    returned (some (record request { url = target }))

  unfoldable pub create_redirection : HttpResultData → Outcome (Option HttpRequest)
  unfolding redirect
  create_redirection result = do
    request ← dereference result.request
    let location = get_header result.headers (codes "Location")
    if is_empty location then returned none else redirect location request

  pub follow : HttpResultData → Outcome (Bool × Option HttpRequest)
  unfolding create_redirection
  follow result = do new_request ← create_redirection result; returned (with_request new_request)

  -- Whether to retry, and the request to use instead of the old one.
  unfoldable pub process_errors : ErrorCode → HttpResultData → Outcome (Bool × Option HttpRequest)
  unfolding is_retriable follow
  process_errors ec result =
      if is_error ec && is_retriable ec
      then returned (true, none)
      else if is_redirection result.status_code
      then follow result
      else returned (false, none)
