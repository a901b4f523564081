-- ===== src/TestServer/Handlers.antt =====
-- test_server.h: the handlers of a `web_client` that are called with what was read.
pub mod Kept
use asio_http.Base.{
  crlf, ℕ, zero, suc, ◌+◌, ◌-◌, ◌*◌, ◌%◌, ◌^◌, Bool, true, false, not, Option, none, some, List, [],
  ◌∷◌, ◌++◌, ltb, leb, ◌==◌, ◌&&◌, ◌||◌, if◌then◌else◌, Bytes, codes, is_empty, length, take, drop,
  Outcome, returned, thrown, ◌>>=◌, invalid_argument, out_of_range,
}
use asio_http.Errors.{ErrorCode, eof, connection_reset}
use asio_http.Url.Decimal.{print_digits}
use asio_http.TestServer.Search.{mystrnstr}
use asio_http.TestServer.Resource.{is_space}
use asio_http.TestServer.Reply.{
  start_reading, send_http_reply, write_each, line, not_found, size_minus,
}
use asio_http.TestServer.Client.{
  WebClient, Asked, reading, writing, closed, timer_set, timer_cancelled, ask, offset, get_header,
  get_request_resource,
}

-- `std::stol`, converted to std::size_t.
unfoldable pub digits_value : (value : ℕ) → Bytes → ℕ
digits_value value [] = value
digits_value value (c ∷ text) =
    let further = digits_value (value * 10 + (c - b'0')) text in
    if leb b'0' c && leb c b'9' then further else value

unfoldable pub stol_digits : (limit : ℕ) → Bytes → Outcome ℕ
unfolding digits_value
stol_digits limit [] = thrown invalid_argument
stol_digits limit (c ∷ text) =
    let value = digits_value 0 (c ∷ text) in
    if leb b'0' c && leb c b'9'
    then if ltb limit value then thrown out_of_range else returned value
    else thrown invalid_argument

unfoldable pub stol : Bytes → Outcome ℕ
unfolding stol_digits is_space
stol [] = thrown invalid_argument
stol (c ∷ text) =
    let further = stol text in
    if is_space c
    then further
    else if c == b'-'
    then (stol_digits (2 ^ 63) text >>= λ value. returned ((2 ^ 64 - value) % 2 ^ 64))
    else if c == b'+'
    then stol_digits (2 ^ 63 - 1) text
    else stol_digits (2 ^ 63 - 1) (c ∷ text)

abbrev pub header_at : WebClient → Option Bytes → WebClient
header_at c none = c
header_at c (some tmp) = record c {
  header_size = offset c.request_buffer tmp;
  http_head = c.request_buffer;
}

-- The header is looked for until it has come, and its place kept.
unfoldable pub note_header : WebClient → Outcome WebClient
unfolding mystrnstr
note_header c =
    if c.header_size == 0
    then (mystrnstr c.request_buffer (crlf ++ crlf) (length c.request_buffer) >>= λ tmp.
        returned (header_at c tmp))
    else returned c

unfoldable pub note_content_size : WebClient → Outcome WebClient
unfolding get_header stol
note_content_size c =
    if c.content_size == 0
    then (let (content_length, after) = get_header (codes "Content-Length") c in
        if is_empty content_length
        then returned after
        else stol content_length >>= λ size. returned (record after { content_size = size }))
    else returned c

abbrev pub is_lost : ErrorCode → Bool
is_lost eof = true
is_lost connection_reset = true
is_lost _ = false

module _ (handlers : Bytes → Option (WebClient → WebClient)) (beyond : Bytes) (ii : ℕ) where
  unfoldable pub process_client : WebClient → Outcome WebClient
  unfolding get_request_resource send_http_reply write_each
  process_client c = get_request_resource beyond ii c >>= λ resource. elim (handlers resource) [
    | none ↦ returned (
        write_each
          (line (codes "HTTP/1.1 404 Not Found")
            ∷ line (codes "Server: Test server")
            ∷ not_found
            ∷ [])
          c)
    | some handler ↦
        let served = handler c in
        if is_empty served.response_buffer
        then returned (ask timer_set served)
        else send_http_reply served
  ]

  -- The handler of the timer calls `process_client` again, unless it was cancelled.
  unfoldable pub timer_fired : WebClient → Outcome WebClient
  unfolding process_client
  timer_fired c = process_client c

  -- The request has come when what follows the blank line is as long as the header says.
  unfoldable pub read_client : ErrorCode → (read : Bytes) → WebClient → Outcome WebClient
  unfolding note_header note_content_size process_client start_reading
  read_client error read c =
      if is_lost error
      then returned c
      else note_header (record c { request_buffer = c.request_buffer ++ read }) >>= λ noted.
          if noted.header_size == 0
          then returned (start_reading noted)
          else note_content_size noted >>= λ sized.
              if sized.content_size
                == size_minus (size_minus (length sized.request_buffer) sized.header_size) 4
              then process_client sized
              else returned (start_reading sized)
