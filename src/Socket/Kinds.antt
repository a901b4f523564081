-- ===== src/Socket/Kinds.antt =====
-- Which calls of the layer above, which pending operations and which answers belong together.
use asio_http.Base.{ℕ, ◌≡◌, refl, Bool, true, false, List, Bytes, is_empty}
use asio_http.Errors.{ErrorCode, is_error}
use asio_http.Socket.Device.{
  Pending, resolving, connecting, handshaking, writing, reading, Told, told_connected, told_written,
  told_read, SocketEvent, connect_called, write_called, read_called, close_called, completes,
}

-- The three kinds of calls that are answered.
pub data Kind : Type 0 where
  connects writes reads : Kind

abbrev pub asks : {E : Type 0} → Kind → SocketEvent E → Bool
asks connects (connect_called host port) = true
asks writes (write_called bytes) = true
asks reads read_called = true
asks _ _ = false

-- A resolution, an attempt and a handshake are all on behalf of one call.
abbrev pub awaits : {E : Type 0} → Kind → Pending E → Bool
awaits connects (resolving host port) = true
awaits connects (connecting it) = true
awaits connects handshaking = true
awaits writes writing = true
awaits reads reading = true
awaits _ _ = false

abbrev pub answers : Kind → Told → Bool
answers connects (told_connected ec) = true
answers writes (told_written ec) = true
answers reads (told_read bytes ec) = true
answers _ _ = false

-- A resolver that succeeds has found an endpoint.
abbrev pub IsDocumented : {E : Type 0} → SocketEvent E → Type 0
IsDocumented (completes place ec it bytes) = is_empty it ≡ true → is_error ec ≡ true
IsDocumented _ = Unit

-- That a call to connect is meant.
abbrev pub is_connects : Kind → Bool
is_connects connects = true
is_connects _ = false

pub same_told : (k : Kind) (ec : ErrorCode) → answers k (told_connected ec) ≡ is_connects k
same_told connects ec = refl
same_told writes ec = refl
same_told reads ec = refl

pub same_handshake : (E : Type 0) (k : Kind) → awaits {E = E} k handshaking ≡ is_connects k
same_handshake E connects = refl
same_handshake E writes = refl
same_handshake E reads = refl

pub same_attempt : {E : Type 0} (k : Kind) (it : List E) → awaits k (connecting it) ≡ is_connects k
same_attempt connects it = refl
same_attempt writes it = refl
same_attempt reads it = refl

pub same_resolution :
    (E : Type 0) (k : Kind) (host port : Bytes)
    → awaits {E = E} k (resolving host port) ≡ is_connects k
same_resolution E connects host port = refl
same_resolution E writes host port = refl
same_resolution E reads host port = refl

pub same_write :
    (E : Type 0) (k : Kind) (ec : ErrorCode)
    → answers k (told_written ec) ≡ awaits {E = E} k writing
same_write E connects ec = refl
same_write E writes ec = refl
same_write E reads ec = refl

pub same_read :
    (E : Type 0) (k : Kind) (ec : ErrorCode) (bytes : Bytes)
    → answers k (told_read bytes ec) ≡ awaits {E = E} k reading
same_read E connects ec bytes = refl
same_read E writes ec bytes = refl
same_read E reads ec bytes = refl

-- Neither a completion nor a call to close is answered.
pub asks-completes :
    {E : Type 0} (k : Kind) (place : ℕ) (ec : ErrorCode) (it : List E) (bytes : Bytes)
    → asks k (completes place ec it bytes) ≡ false
asks-completes connects place ec it bytes = refl
asks-completes writes place ec it bytes = refl
asks-completes reads place ec it bytes = refl

pub asks_close : (E : Type 0) (k : Kind) → asks {E = E} k close_called ≡ false
asks_close E connects = refl
asks_close E writes = refl
asks_close E reads = refl

pub asks_connect :
    (E : Type 0) (k : Kind) (host port : Bytes)
    → asks {E = E} k (connect_called host port) ≡ awaits {E = E} k (resolving host port)
asks_connect E connects host port = refl
asks_connect E writes host port = refl
asks_connect E reads host port = refl

pub asks_write :
    (E : Type 0) (k : Kind) (bytes : Bytes)
    → asks {E = E} k (write_called bytes) ≡ awaits {E = E} k writing
asks_write E connects bytes = refl
asks_write E writes bytes = refl
asks_write E reads bytes = refl

pub asks_read : (E : Type 0) (k : Kind) → asks {E = E} k read_called ≡ awaits {E = E} k reading
asks_read E connects = refl
asks_read E writes = refl
asks_read E reads = refl
