-- ===== src/TestServer/Reply/Whole.antt =====
-- A reply as a whole, from the handler's response to the wire.
use asio_http.Base.{◌≡◌, true, Option, List, ◌++◌, Bytes, length}
use asio_http.TestServer.Client.{WebClient}
use asio_http.TestServer.Reply.{client_send, write_each, head_of, header_end, size_minus, is_found}
use asio_http.TestServer.Reply.Writing.{queued, IsMoving}

-- What is printed for a response before it.
abbrev pub reply_head : (c : WebClient) (tmp location : Option Bytes) → List Bytes
reply_head c tmp location =
    head_of (size_minus (length c.response_buffer) (header_end c.response_buffer tmp))
      c.requested_range (is_found location)

abbrev pub replied : (c : WebClient) (tmp location : Option Bytes) → WebClient
replied c tmp location =
    let written = write_each (reply_head c tmp location) c in
    record (client_send
      (record written { output_buffer = written.output_buffer ++ written.response_buffer })) {
        can_close = true;
      }

record Replied (c d : WebClient) (text : Bytes) : Type 0 where
  pub whole : queued d ≡ c.wire ++ text
  pub moving : IsMoving d
  pub took : d.wire ≡ c.wire
  pub closes : d.close_connection ≡ c.close_connection
