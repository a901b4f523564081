-- ===== src/TestServer/Reply.antt =====
-- test_server.h: what a `web_client` writes.
pub mod Writing
pub mod Wire
pub mod Whole
use asio_http.Base.{
  crlf, ℕ, zero, suc, ◌+◌, ◌-◌, ◌*◌, ◌%◌, ◌^◌, Bool, true, false, not, Option, none, some, List, [],
  ◌∷◌, ◌++◌, ltb, leb, ◌==◌, ◌&&◌, ◌||◌, if◌then◌else◌, Bytes, codes, is_empty, length, take, drop,
  Outcome, returned, thrown, ◌>>=◌, invalid_argument, out_of_range,
}
use asio_http.Errors.{ErrorCode, eof, connection_reset}
use asio_http.Url.Decimal.{print_digits}
use asio_http.TestServer.Search.{mystrnstr}
use asio_http.TestServer.Resource.{is_space}
use asio_http.TestServer.Client.{
  WebClient, Asked, reading, writing, closed, timer_set, timer_cancelled, ask, offset, get_header,
  get_request_resource,
}

unfoldable pub start_reading : WebClient → WebClient
start_reading c = ask reading c

unfoldable pub client_data_cleanup : WebClient → WebClient
client_data_cleanup c = ask timer_cancelled (record c {
  can_close = false;
  close_connection = false;
  response_buffer = [];
  output_buffer = [];
  write_buffer = [];
  request_buffer = [];
  http_head = [];
  header_size = 0;
  content_size = 0;
  requested_range = 0;
})

unfoldable pub client_send : WebClient → WebClient
unfolding client_data_cleanup start_reading
client_send c =
    if is_empty c.write_buffer && not (is_empty c.output_buffer)
    then ask writing (record c { output_buffer = c.write_buffer; write_buffer = c.output_buffer })
    else if c.can_close
    then if c.close_connection then ask closed c else start_reading (client_data_cleanup c)
    else c

-- The text is as `vsnprintf` prints it, of which the buffer of 1024 bytes holds 1023.
unfoldable pub web_client_writef : (text : Bytes) → WebClient → WebClient
unfolding client_send
web_client_writef text c =
    client_send (record c { output_buffer = c.output_buffer ++ take 1023 text })

-- The socket took `size` bytes. The error is not looked at.
unfoldable pub write_client : (error : ErrorCode) → (size : ℕ) → WebClient → WebClient
unfolding client_send
write_client error size c =
    let rest = record c {
      wire = c.wire ++ take size c.write_buffer;
      write_buffer = drop size c.write_buffer;
    } in
    if is_empty rest.write_buffer then client_send rest else ask writing rest

-- `response_printf`, with the text as `vsnprintf` prints it.
unfoldable pub response_printf : (text : Bytes) → WebClient → WebClient
response_printf text c = record c { response_buffer = c.response_buffer ++ text }

-- Subtraction on std::size_t.
abbrev pub size_minus : ℕ → ℕ → ℕ
size_minus a b = (a + 2 ^ 64 - b) % 2 ^ 64

abbrev pub server : Bytes
server = codes "HTTP Server"

abbrev pub not_found : Bytes
not_found =
    codes "Content-type: text/html"
    ++ (crlf
        ++ (crlf
            ++ (codes
                  "<HTML><title>not found</title><body bgcolor=FFFFFF><font size=6>404 Not found...</font><BR><BR><HR><small><i>"
                ++ (server ++ (codes "</i></small></body></html>" ++ (10 ∷ 13 ∷ []))))))

abbrev pub range_msg : Bytes
range_msg =
    codes "Content-type: text/html"
    ++ (crlf
        ++ (crlf
            ++ (codes
                  "<HTML><title>Requested Range Not Satisfiable</title><body bgcolor=FFFFFF><font size=6>416 Requested Range Not Satisfiable</font><BR><BR></body></html>"
                ++ (10 ∷ 13 ∷ []))))

abbrev pub line : Bytes → Bytes
line text = text ++ crlf

-- Each text with a call of `web_client_writef`.
unfoldable pub write_each : List Bytes → WebClient → WebClient
unfolding web_client_writef
write_each [] c = c
write_each (text ∷ texts) c = write_each texts (web_client_writef text c)

-- `wheaderSize`
abbrev pub header_end : (response : Bytes) → Option Bytes → ℕ
header_end response none = 0
header_end response (some tmp) = offset response tmp + 4

abbrev pub is_found : Option Bytes → Bool
is_found none = false
is_found (some tmp) = true

abbrev pub status_line : (requested_range : ℕ) → (location : Bool) → Bytes
status_line requested_range location =
    if ltb 0 requested_range
    then codes "HTTP/1.1 206 Partial Content"
    else if location
    then codes "HTTP/1.1 301 Moved Permanently"
    else codes "HTTP/1.1 200 OK"

-- What is printed before the response: `size` is `writeLength - wheaderSize`. After the text for a range
-- that cannot be satisfied it goes on as for any other.
unfoldable pub head_of : (size requested_range : ℕ) → (location : Bool) → List Bytes
head_of size requested_range location =
    (if ltb size requested_range && ltb 0 requested_range
      then line (codes "HTTP/1.1 416 Requested Range Not Satisfiable")
        ∷ line (codes "Server: " ++ server)
        ∷ range_msg
        ∷ []
      else [])
    ++ (line (status_line requested_range location)
        ∷ line (codes "Server: " ++ server)
        ∷ line (codes "Accept-Ranges: bytes")
        ∷ (let left = size_minus size requested_range in
            if left == 0
            then []
            else line (codes "Content-length: " ++ print_digits 20 left []) ∷ []))

unfoldable pub send_http_reply : WebClient → Outcome WebClient
unfolding mystrnstr head_of write_each client_send
send_http_reply c = do
  tmp ← mystrnstr c.response_buffer (crlf ++ crlf) (length c.response_buffer)
  location ← mystrnstr c.response_buffer (codes "Location") (length c.response_buffer)
  let size = size_minus (length c.response_buffer) (header_end c.response_buffer tmp)
  let written = write_each (head_of size c.requested_range (is_found location)) c
  let sent =
      client_send
        (record written { output_buffer = written.output_buffer ++ written.response_buffer })
  returned (record sent { can_close = true })
