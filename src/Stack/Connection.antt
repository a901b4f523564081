-- ===== src/Stack/Connection.antt =====
-- The exchange on one connection, with http_client_connection.h: the text of a request, the callbacks
-- of the parser, and the handlers of the socket.
use asio_http.Base.{
  crlf, ℕ, Bool, true, false, not, ◌&&◌, ◌||◌, ◌==◌, [], ◌∷◌, ◌++◌, Bytes, codes, if◌then◌else◌,
  is_empty, length, Outcome, returned, ◌>>=◌,
}
use asio_http.Headers.{HeaderList}
use asio_http.Url.{Url}
use asio_http.Url.Decimal.{print_decimal}
use asio_http.Request.{HttpMethod, get, post, put, head}
use asio_http.Errors.{ErrorCode, is_error, make_error_code}
use asio_http.Compression.{Zlib}
use asio_http.Stack.{
  RequestBuffers, ConnectionState, in_progress, done, ParserEvent, on_status, on_header_field,
  on_header_value, on_body, on_headers_complete, on_message_complete, Parse, called, finished,
  HttpParser, Stack, connect, write, read, post_call,
}
use asio_http.Stack.Encoding

abbrev pub http_method_to_string : HttpMethod → Bytes
http_method_to_string get = codes "GET"
http_method_to_string head = codes "HEAD"
http_method_to_string put = codes "PUT"
http_method_to_string post = codes "POST"

abbrev pub new_buffers : HttpMethod → HeaderList → Url → RequestBuffers
new_buffers method request_headers url = record {
  http_method = method;
  request_headers = request_headers;
  headers = [];
  url = url;
  current_header = ([], []);
  state = in_progress;
}

-- One of "\n\r\t ".
abbrev pub is_blank : ℕ → Bool
is_blank c = c == 10 || (c == 13 || (c == 9 || c == 32))

-- `s.erase(s.find_last_not_of("\n\r\t ") + 1)`: from after the last byte that is not blank.
unfoldable pub trim : Bytes → Bytes
trim [] = []
trim (c ∷ s) = let rest = trim s in if is_empty rest && is_blank c then [] else c ∷ rest

unfoldable pub push_current_header : RequestBuffers → RequestBuffers
unfolding trim
push_current_header b =
    let (name, value) = b.current_header in
    record b { headers = b.headers ++ ((name, trim value) ∷ []); current_header = ([], []) }

unfoldable pub print_headers : HeaderList → Bytes
print_headers [] = []
print_headers ((name, value) ∷ headers) =
    name ++ (codes ": " ++ (value ++ (crlf ++ print_headers headers)))

unfoldable pub print_request_headers : RequestBuffers → Bytes
unfolding print_headers
print_request_headers b =
    http_method_to_string b.http_method
    ++ (codes " "
        ++ (b.url.path
            ++ (codes " HTTP/1.1" ++ (crlf ++ (print_headers b.request_headers ++ crlf)))))

-- `on_header_field` and `on_header_value` of the parser.
unfoldable pub header_field : Bytes → RequestBuffers → RequestBuffers
unfolding push_current_header
header_field at b =
    let pushed = if is_empty b.current_header.1 then b else push_current_header b in
    record pushed { current_header = (pushed.current_header.0 ++ at, pushed.current_header.1) }

unfoldable pub header_value : Bytes → RequestBuffers → RequestBuffers
unfolding push_current_header
header_value at b =
    let (name, value) = b.current_header in
    let appended = record b { current_header = (name, value ++ at) } in
    if is_empty (value ++ at) then push_current_header appended else appended

-- The size of the chunks in which a body is written.
abbrev pub write_size : ℕ
write_size = 1024

abbrev pub is_done : ConnectionState → Bool
is_done done = true
is_done _ = false

abbrev pub is_head : HttpMethod → Bool
is_head head = true
is_head _ = false

module _ {P : Type 0} where
  abbrev pub with_buffers : RequestBuffers → Stack P → Stack P
  with_buffers b s = record s { connection = record (s.connection) { current_request = b } }

  unfoldable pub send_headers : Stack P → Stack P
  unfolding print_request_headers
  send_headers s = post_call (write (print_request_headers s.connection.current_request)) s

  unfoldable pub write_headers : HttpMethod → Url → HeaderList → Stack P → Stack P
  unfolding send_headers
  write_headers method url headers s =
      let t = with_buffers (new_buffers method headers url) s in
      if s.is_open then send_headers t else post_call (connect url.host (print_decimal url.port)) t

  -- The callbacks of the parser, each with the result that the parser gets.
  module _ (z : Zlib) where
    unfoldable pub headers_complete : ℕ → Stack P → Outcome (ℕ × Stack P)
    unfolding push_current_header Encoding.on_headers
    headers_complete status_code s =
        let b = s.connection.current_request in
        let pushed = if is_empty b.current_header.0 then b else push_current_header b in
        Encoding.on_headers status_code pushed.headers (with_buffers pushed s) >>= λ t.
        returned (if is_head b.http_method then 1 else 0, t)

    unfoldable pub response_complete : Bool → Stack P → Outcome (ℕ × Stack P)
    unfolding Encoding.message_complete
    response_complete should_keep_alive s =
        let c = s.connection in
        Encoding.message_complete z (record s {
          connection = record c {
            not_reusable = not should_keep_alive || c.not_reusable;
            current_request = record (c.current_request) { state = done };
          };
        })
        >>= λ t. returned (0, t)

    unfoldable pub call_back : ParserEvent → Stack P → Outcome (ℕ × Stack P)
    unfolding headers_complete response_complete header_field header_value Encoding.on_body
    call_back (on_status at) s = returned (0, s)
    call_back (on_header_field at) s =
        returned (0, with_buffers (header_field at s.connection.current_request) s)
    call_back (on_header_value at) s =
        returned (0, with_buffers (header_value at s.connection.current_request) s)
    call_back (on_headers_complete status_code) s = headers_complete status_code s
    call_back (on_body at) s = Encoding.on_body at s >>= λ t. returned (0, t)
    call_back (on_message_complete should_keep_alive) s = response_complete should_keep_alive s

    -- A call of http_parser_execute, with the callbacks answered: the bytes that were parsed.
    unfoldable pub run_parser : Parse P → Stack P → Outcome (ℕ × Stack P)
    unfolding call_back
    run_parser (finished nsize p) s =
        returned (nsize, record s { connection = record (s.connection) { parser = p } })
    run_parser (called event resume) s =
        call_back event s >>= λ r. let (code, t) = r in run_parser (resume code) t

  unfoldable pub on_connected : Zlib → ErrorCode → Stack P → Outcome (Stack P)
  unfolding send_headers Encoding.on_error
  on_connected z ec s =
      if not (is_error ec) then returned (send_headers s) else Encoding.on_error z ec s

  -- After an error, the handler goes on.
  unfoldable pub on_write : Zlib → ErrorCode → Stack P → Outcome (Stack P)
  unfolding Encoding.on_error Encoding.get_body_data
  on_write z ec s = (if is_error ec then Encoding.on_error z ec s else returned s) >>= λ t.
      Encoding.get_body_data write_size t >>= λ r.
      let (buf, u) = r in
      returned (if is_empty buf then post_call read u else post_call (write buf) u)

module _ (z : Zlib) (h : HttpParser) where
  -- The second test of the state in `on_read`.
  unfoldable pub after_parser :
      Bytes → ErrorCode → (nsize : ℕ) → Stack (h.State) → Outcome (Stack (h.State))
  unfolding Encoding.on_error
  after_parser received ec nsize s =
      if not (is_done s.connection.current_request.state)
      then if not (nsize == length received) && not (is_empty received)
        then Encoding.on_error z (make_error_code (h.errno s.connection.parser)) s
        else if not (is_error ec)
        then returned (post_call read s)
        else Encoding.on_error z ec s
      else returned s

  -- The code leaves `nsize` without a value if it does not run the parser, and reads it only if it
  -- did, or next to a test that fails.
  unfoldable pub on_read : Bytes → ErrorCode → Stack (h.State) → Outcome (Stack (h.State))
  unfolding run_parser after_parser
  on_read received ec s =
      let c = s.connection in
      let t : Stack (h.State) = record s {
        connection = record c { not_reusable = is_error ec || c.not_reusable };
      } in
      (if not (is_empty received) && not (is_done c.current_request.state)
        then run_parser z (h.execute c.parser received) t
        else returned (0, t))
      >>= λ r. after_parser received ec r.0 r.1
