-- ===== src/Stack/Content.antt =====
-- The request in progress, with http_content.h: the calls that come from below.
use asio_http.Base.{
  ℕ, ◌%◌, ◌^◌, Option, none, some, Bytes, length, if◌then◌else◌, Outcome, returned, thrown,
  null_dereference,
}
use asio_http.Headers.{HeaderList}
use asio_http.Errors.{ErrorCode, success, timed_out, is_error}
use asio_http.Compression.{Zlib}
use asio_http.Body.{DataSink, read_callback, write_callback, header_callback, get_data}
use asio_http.Stack.{Stack, cancel_timer, callback, post_call, empty_result}

module _ {P : Type 0} where
  module _ (z : Zlib) where
    unfoldable pub complete_request : ErrorCode → Stack P → Outcome (Stack P)
    complete_request ec s = elim s.content.completed_request_callback [
      | none ↦ returned s
      | some k ↦ completed k s.content.body_sink ec s
    ]
      where
        -- The body of the if: what the timer, the sink and the callback are asked, and the reset.
        completed : ℕ → Option DataSink → ErrorCode → Stack P → Outcome (Stack P)
        completed k none ec s = thrown null_dereference
        completed k (some sink) ec s =
            let result = record (s.content.result) {
              content = get_data z sink;
              request = s.content.request;
            } in
            returned (record (post_call (callback k result ec) (post_call cancel_timer s)) {
              content = record (s.content) {
                result = empty_result;
                completed_request_callback = none;
              };
            })

    unfoldable pub on_error : ErrorCode → Stack P → Outcome (Stack P)
    unfolding complete_request
    on_error ec s = complete_request ec s

    unfoldable pub message_complete : Stack P → Outcome (Stack P)
    unfolding complete_request
    message_complete s = complete_request success s

    -- The handler of the timer that `start` sets.
    unfoldable pub on_timer : ErrorCode → Stack P → Outcome (Stack P)
    unfolding complete_request
    on_timer ec s = if is_error ec then returned s else complete_request timed_out s

  unfoldable pub get_body_data : ℕ → Stack P → Outcome (Bytes × Stack P)
  get_body_data n s = elim s.content.body_source [
    | none ↦ thrown null_dereference
    | some source ↦
        let (chunk, after) = read_callback source n in
        returned (chunk, record s { content = record (s.content) { body_source = some after } })
  ]

  unfoldable pub on_headers : ℕ → HeaderList → Stack P → Outcome (Stack P)
  on_headers status_code headers s = elim s.content.body_sink [
    | none ↦ thrown null_dereference
    | some sink ↦ returned (record s {
      content = record (s.content) {
        result = record (s.content.result) { status_code = status_code; headers = headers };
        body_sink = some (header_callback sink headers);
      };
    })
  ]

  -- The length is cut to a std::uint32_t as the sink takes it.
  unfoldable pub on_body : Bytes → Stack P → Outcome (Stack P)
  on_body at s = elim s.content.body_sink [
    | none ↦ thrown null_dereference
    | some sink ↦ returned (record s {
      content = record (s.content) {
        body_sink = some (write_callback sink at (length at % 2 ^ 32) 1).1;
      };
    })
  ]
