-- ===== src/Stack/Start.antt =====
-- The calls that come from above, down through the layers, with http_content.h and encoding.h, and
-- the events that a stack reacts to.
use asio_http.Base.{
  ℕ, Bool, false, none, some, List, [], ◌∷◌, ◌++◌, Bytes, codes, ◌==◌, if◌then◌else◌, Outcome,
  returned, ◌>>=◌,
}
use asio_http.Headers.{HeaderList}
use asio_http.Url.{Url}
use asio_http.Url.Decimal.{print_digits}
use asio_http.Request.{HttpMethod, get, HttpRequest}
use asio_http.Errors.{ErrorCode, operation_aborted}
use asio_http.Compression.{Zlib}
use asio_http.Body.{data_source, data_sink}
use asio_http.Stack.{empty_result, Stack, HttpParser, start_timer, shutdown_and_close, post_call}
use asio_http.Stack.Content.{complete_request, on_timer}
use asio_http.Stack.Connection
use asio_http.Stack.Connection.{new_buffers}
use asio_http.Stack.Connection.{on_connected, on_write, on_read}

-- The headers as the request has them, then Host, then Content-Length if there is a body. Twenty
-- digits hold every std::size_t.
unfoldable pub request_headers : HttpRequest → ℕ → HeaderList
request_headers request size =
    request.http_headers
    ++ ((codes "Host", request.url.host)
        ∷ (if size == 0 then [] else (codes "Content-Length", print_digits 20 size []) ∷ []))

module _ {P : Type 0} where
  -- `write_headers` and `close` of the layer between.
  unfoldable pub encode_headers : HttpMethod → Url → HeaderList → Stack P → Stack P
  unfolding Connection.write_headers
  encode_headers method url headers s = Connection.write_headers method url headers s

  -- `close` of the layers, down to the socket.
  unfoldable pub close : Stack P → Stack P
  close s = if s.is_open then post_call shutdown_and_close (record s { is_open = false }) else s

  module _ (z : Zlib) where
    unfoldable pub start : HttpRequest → ℕ → Stack P → Stack P
    unfolding encode_headers request_headers
    start request k s =
        let source = data_source z request.post_data request.compression_policy in
        encode_headers request.http_method request.url (request_headers request source.size) (
          post_call (start_timer request.timeout_msec) (record s {
            content = record (s.content) {
              request = some request;
              body_source = some source;
              body_sink = some data_sink;
              completed_request_callback = some k;
            };
          }))

    unfoldable pub cancel : Stack P → Outcome (Stack P)
    unfolding complete_request close
    cancel s = complete_request z operation_aborted s >>= λ t. returned (close t)

-- A new stack with its layers, as `create_stack` and `allocate_layers` of connection_pool.cpp make it.
-- The constructors leave the status code of the result without a value, here `garbage`, and also the
-- method, the url and the state of the buffers, which nothing reads before `write_headers` sets them.
abbrev pub new_stack : (h : HttpParser) → (garbage : ℕ) → Bytes × ℕ → Stack (h.State)
new_stack h garbage host = record {
  content = record {
    request = none;
    completed_request_callback = none;
    result = record empty_result { status_code = garbage };
    body_sink = none;
    body_source = none;
    host = host;
  };
  connection = record {
    current_request =
        new_buffers get [] (record { protocol = []; host = []; path = []; query = []; port = 0 });
    parser = h.init;
    not_reusable = false;
  };
  is_open = false;
  log = [];
}

-- What reaches a stack on its strand: the posted calls of its owner, the completions of the socket,
-- and the timer. The end of a connect comes with what `is_open` of the socket is from then on.
pub data Event : Type 0 where
  started : HttpRequest → (callback : ℕ) → Event
  cancelled : Event
  connected : ErrorCode → (is_open : Bool) → Event
  written timer_fired : ErrorCode → Event
  received : Bytes → ErrorCode → Event

module _ (z : Zlib) (h : HttpParser) where
  unfoldable pub react : Event → Stack (h.State) → Outcome (Stack (h.State))
  unfolding start cancel on_connected on_write on_read on_timer
  react (started request k) s = returned (start z request k s)
  react cancelled s = cancel z s
  react (connected ec open_) s = on_connected z ec (record s { is_open = open_ })
  react (written ec) s = on_write z ec s
  react (timer_fired ec) s = on_timer z ec s
  react (received bytes ec) s = on_read z h bytes ec s

  unfoldable pub react_all : List Event → Stack (h.State) → Outcome (Stack (h.State))
  unfolding react
  react_all [] s = returned s
  react_all (e ∷ events) s = react e s >>= λ t. react_all events t
