-- ===== src/Stack.antt =====
-- The layers of one connection, joined as implementation/connection_pool.cpp does: the exchange of
-- http_client_connection.h, the pass-through layer of encoding.h, and the request in progress of
-- http_content.h. Of what lies outside, the socket, the timer and the callback, there is a log of the
-- calls made. http_parser is a parameter.
pub mod Content
pub mod Encoding
pub mod Connection
pub mod Start
pub mod Kept
pub mod Callbacks
pub mod Pieces
pub mod HeaderAssembly
pub mod Writing
pub mod Samples
mod Tests
use asio_http.Base.{ℕ, Bool, true, false, Option, none, some, List, [], ◌∷◌, ◌++◌, Bytes}
use asio_http.Headers.{HeaderList}
use asio_http.Url.{Url}
use asio_http.Request.{HttpMethod, get, HttpRequest, HttpResultData}
use asio_http.Errors.{ErrorCode}
use asio_http.Body.{DataSource, DataSink}

pub data ConnectionState : Type 0 where
  in_progress writing_body done : ConnectionState

pub record RequestBuffers : Type 0 where
  pub http_method : HttpMethod
  pub request_headers : HeaderList
  pub headers : HeaderList
  pub url : Url
  pub current_header : Bytes × Bytes
  pub state : ConnectionState

-- What the parser calls back, with what the callback reads of the parser.
pub data ParserEvent : Type 0 where
  on_status on_header_field on_header_value on_body : Bytes → ParserEvent
  on_headers_complete : (status_code : ℕ) → ParserEvent
  on_message_complete : (should_keep_alive : Bool) → ParserEvent

-- One call of http_parser_execute: callbacks, on whose results the parser goes on, and at the end the
-- number of bytes parsed and the parser left.
pub data Parse (P : Type 0) : Type 0 where
  called : ParserEvent → (ℕ → Parse P) → Parse P
  finished : ℕ → P → Parse P

-- What the connection calls of http_parser.
pub record HttpParser : Type 1 where
  pub State : Type 0
  pub init : State
  pub execute : State → Bytes → Parse State
  pub errno : State → ℕ

pub record HttpClientConnection (P : Type 0) : Type 0 where
  pub current_request : RequestBuffers
  pub parser : P
  pub not_reusable : Bool

-- The callback is known by a number, and the timer by the log.
pub record HttpContent : Type 0 where
  pub request : Option HttpRequest
  pub completed_request_callback : Option ℕ
  pub result : HttpResultData
  pub body_sink : Option DataSink
  pub body_source : Option DataSource
  pub host : Bytes × ℕ

pub data Call : Type 0 where
  connect : (host port : Bytes) → Call
  write : Bytes → Call
  read shutdown_and_close cancel_timer : Call
  start_timer : ℕ → Call
  callback : ℕ → HttpResultData → ErrorCode → Call

pub record Stack (P : Type 0) : Type 0 where
  pub content : HttpContent
  pub connection : HttpClientConnection P
  pub is_open : Bool
  pub log : List Call

abbrev pub empty_result : HttpResultData
empty_result = record { request = none; headers = []; status_code = 0; content = [] }

abbrev pub post_call : {P : Type 0} → Call → Stack P → Stack P
post_call call s = record s { log = s.log ++ (call ∷ []) }
