-- ===== src/Socket/Device.antt =====
-- internal/socket.h: a socket with the operations it has asked asio for, and what it tells the layer above.
use asio_http.Base.{
  ℕ, zero, suc, Bool, true, false, Option, none, some, List, [], ◌∷◌, ◌++◌, if◌then◌else◌, Bytes,
  is_empty, take, Outcome, returned, ◌>>=◌,
}
use asio_http.Errors.{ErrorCode}
use asio_http.Request.{SslSettings}
use asio_http.Socket.{
  Action, on_connected, async_connect, async_handshake, resolve_handler, connect_handler,
  ssl_connect_handler, handshake_handler,
}

-- What the constructor of a tls socket sets up, in order.
pub data SslSetup : Type 0 where
  set_default_verify_paths set_verify_peer : SslSetup
  use_certificate_file use_private_key_file use_certificate_chain_file set_rfc2818_verification :
      Bytes → SslSetup

abbrev if_given : (file : Bytes) → SslSetup → List SslSetup
if_given file setup = if is_empty file then [] else setup ∷ []

unfoldable pub ssl_socket : (host : Bytes) → SslSettings → List SslSetup
ssl_socket host ssl =
    set_default_verify_paths
    ∷ (if_given ssl.client_certificate_file (use_certificate_file ssl.client_certificate_file)
        ++ (if_given ssl.client_private_key_file (use_private_key_file ssl.client_private_key_file)
            ++ (if_given ssl.certificate_authority_bundle_file
                  (use_certificate_chain_file ssl.certificate_authority_bundle_file)
                ++ (set_verify_peer ∷ set_rfc2818_verification host ∷ []))))

-- An operation that asio was asked for and has not completed. A connection attempt has the endpoints
-- that are left; a write is of the write buffer, as it is when the write is done.
pub data Pending (E : Type 0) : Type 0 where
  resolving : (host port : Bytes) → Pending E
  connecting : (it : List E) → Pending E
  handshaking writing reading : Pending E

-- What the layer above is told.
pub data Told : Type 0 where
  told_connected told_written : ErrorCode → Told
  told_read : Bytes → ErrorCode → Told

pub record Socket (E : Type 0) : Type 0 where
  pub is_open : Bool
  pub write_buffer : Bytes
  pub pending : List (Pending E)
  pub told : List Told

module _ {E : Type 0} where
  abbrev pub generic_stream : Socket E
  generic_stream = record { is_open = false; write_buffer = []; pending = []; told = [] }

  abbrev pub pend : Pending E → Socket E → Socket E
  pend operation s = record s { pending = s.pending ++ (operation ∷ []) }

  abbrev pub tell : Told → Socket E → Socket E
  tell t s = record s { told = s.told ++ (t ∷ []) }

  unfoldable pub connect : (host port : Bytes) → Socket E → Socket E
  connect host port s = pend (resolving host port) s

  unfoldable pub write : Bytes → Socket E → Socket E
  write bytes s = pend writing (record s { write_buffer = bytes })

  unfoldable pub read : Socket E → Socket E
  read s = pend reading s

  -- asio then completes what is pending, with an error.
  unfoldable pub close : Socket E → Socket E
  close s = if s.is_open then record s { is_open = false } else s

  -- What a handler does last. asio opens a socket that is to be connected.
  unfoldable pub act : Action E → Socket E → Socket E
  act (on_connected ec) s = tell (told_connected ec) s
  act (async_connect ep it) s = pend (connecting it) (record s { is_open = true })
  act async_handshake s = pend handshaking s

  unfoldable pub write_handler : ErrorCode → Socket E → Socket E
  write_handler ec s = tell (told_written ec) s

  -- The read buffer has 1024 bytes.
  unfoldable pub read_handler : ErrorCode → Bytes → Socket E → Socket E
  read_handler ec bytes s = tell (told_read (take 1024 bytes) ec) s

  -- The handler of an operation, with the error, the endpoints and the bytes that asio gives it.
  unfoldable pub handle_pending :
      (ssl : Bool) → Pending E → ErrorCode → List E → Bytes → Socket E → Outcome (Socket E)
  unfolding act write_handler read_handler connect_handler ssl_connect_handler
  handle_pending ssl (resolving host port) ec it bytes s =
      resolve_handler ec it >>= λ a. returned (act a s)
  handle_pending ssl (connecting it) ec found bytes s =
      returned (act (if ssl then ssl_connect_handler ec it else connect_handler ec it) s)
  handle_pending ssl handshaking ec it bytes s = returned (act (handshake_handler ec) s)
  handle_pending ssl writing ec it bytes s = returned (write_handler ec s)
  handle_pending ssl reading ec it bytes s = returned (read_handler ec bytes s)

-- The layer above calls, and asio completes the pending operation at a place.
pub data SocketEvent (E : Type 0) : Type 0 where
  connect_called : (host port : Bytes) → SocketEvent E
  write_called : Bytes → SocketEvent E
  read_called close_called : SocketEvent E
  completes : (place : ℕ) → ErrorCode → (it : List E) → Bytes → SocketEvent E

module _ {E : Type 0} where
  abbrev pub behind_first :
      Pending E → Option (Pending E × List (Pending E)) → Option (Pending E × List (Pending E))
  behind_first first none = none
  behind_first first (some (picked, others)) = some (picked, first ∷ others)

  unfoldable pub pick : ℕ → List (Pending E) → Option (Pending E × List (Pending E))
  pick place [] = none
  pick zero (operation ∷ others) = some (operation, others)
  pick (suc place) (operation ∷ others) = behind_first operation (pick place others)

  module _ (ssl : Bool) where
    abbrev pub handle_picked :
        Option (Pending E × List (Pending E))
        → ErrorCode
        → List E
        → Bytes
        → Socket E
        → Outcome (Socket E)
    handle_picked none ec it bytes s = returned s
    handle_picked (some (operation, others)) ec it bytes s =
        handle_pending ssl operation ec it bytes (record s { pending = others })

    unfoldable pub happen : SocketEvent E → Socket E → Outcome (Socket E)
    unfolding connect write read close pick handle_pending
    happen (connect_called host port) s = returned (connect host port s)
    happen (write_called bytes) s = returned (write bytes s)
    happen read_called s = returned (read s)
    happen close_called s = returned (close s)
    happen (completes place ec it bytes) s = handle_picked (pick place s.pending) ec it bytes s

    unfoldable pub happen_all : List (SocketEvent E) → Socket E → Outcome (Socket E)
    unfolding happen
    happen_all [] s = returned s
    happen_all (event ∷ events) s = happen event s >>= λ t. happen_all events t
