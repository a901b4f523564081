-- ===== src/Socket.antt =====
-- internal/socket.h: how a plain and a tls socket connect, by the handlers of the resolver, of one attempt
-- after another, and of the handshake. The endpoints and the outcomes are asio's. Device has the sockets
-- with all their operations.
pub mod Attempts
pub mod Device
pub mod Kinds
pub mod Answers
mod Tests
use asio_http.Base.{
  ℕ, zero, suc, Bool, true, false, not, ◌||◌, Option, none, some, List, [], ◌∷◌, if◌then◌else◌,
  is_empty, Outcome, returned, thrown, null_dereference,
}
use asio_http.Errors.{ErrorCode, is_error}

-- What a handler does last. An iterator is the list of the endpoints from it on, so `*it++` takes the
-- first.
pub data Action {ℓ} (E : Type ℓ) : Type ℓ where
  on_connected : ErrorCode → Action E
  async_connect : E → (it : List E) → Action E
  async_handshake : Action E

module _ {ℓ} {E : Type ℓ} where
  -- `resolve_handler` of both sockets. The iterator is dereferenced without a test.
  unfoldable pub resolve_handler : ErrorCode → List E → Outcome (Action E)
  resolve_handler ec it = if is_error ec then returned (on_connected ec) else next it
    where
      next : List E → Outcome (Action E)
      next [] = thrown null_dereference
      next (ep ∷ it) = returned (async_connect ep it)

  -- `connect_handler` of generic_stream.
  unfoldable pub connect_handler : ErrorCode → List E → Action E
  connect_handler ec [] = on_connected ec
  connect_handler ec (ep ∷ it) = if not (is_error ec) then on_connected ec else async_connect ep it

  -- `connect_handler` of ssl_socket.
  unfoldable pub ssl_connect_handler : ErrorCode → List E → Action E
  ssl_connect_handler ec [] = if not (is_error ec) then async_handshake else on_connected ec
  ssl_connect_handler ec (ep ∷ it) =
      if not (is_error ec) then async_handshake else async_connect ep it

  unfoldable pub handshake_handler : ErrorCode → Action E
  handshake_handler ec = on_connected ec

  abbrev pub prepend : E → Option (List E × Action E) → Option (List E × Action E)
  prepend ep none = none
  prepend ep (some (eps, action)) = some (ep ∷ eps, action)

  -- What follows the action of a handler, given the attempts from another endpoint on.
  abbrev pub after_attempt :
      (E → List E → Option (List E × Action E)) → E → Action E → Option (List E × Action E)
  after_attempt again ep (on_connected ec) = some (ep ∷ [], on_connected ec)
  after_attempt again ep async_handshake = some (ep ∷ [], async_handshake)
  after_attempt again ep (async_connect next rest) = prepend ep (again next rest)

  -- The attempts on an endpoint and those that follow, with what becomes of each: the endpoints tried,
  -- and the action that ends them.
  unfoldable pub connect_all :
      (ErrorCode → List E → Action E)
      → (E → ErrorCode)
      → ℕ
      → E
      → List E
      → Option (List E × Action E)
  connect_all handler attempt zero ep it = none
  connect_all handler attempt (suc fuel) ep it =
      after_attempt (connect_all handler attempt fuel) ep (handler (attempt ep) it)
