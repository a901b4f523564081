-- ===== src/Stack/Encoding.antt =====
-- The layer of encoding.h, which hands every call on as it is.
use asio_http.Base.{ℕ, Bytes, Outcome}
use asio_http.Headers.{HeaderList}
use asio_http.Errors.{ErrorCode}
use asio_http.Compression.{Zlib}
use asio_http.Stack.{Stack}
use asio_http.Stack.Content

module _ {P : Type 0} where
  unfoldable pub on_error : Zlib → ErrorCode → Stack P → Outcome (Stack P)
  unfolding Content.on_error
  on_error z ec s = Content.on_error z ec s

  unfoldable pub on_headers : ℕ → HeaderList → Stack P → Outcome (Stack P)
  unfolding Content.on_headers
  on_headers status_code headers s = Content.on_headers status_code headers s

  unfoldable pub on_body : Bytes → Stack P → Outcome (Stack P)
  unfolding Content.on_body
  on_body at s = Content.on_body at s

  unfoldable pub message_complete : Zlib → Stack P → Outcome (Stack P)
  unfolding Content.message_complete
  message_complete z s = Content.message_complete z s

  unfoldable pub get_body_data : ℕ → Stack P → Outcome (Bytes × Stack P)
  unfolding Content.get_body_data
  get_body_data n s = Content.get_body_data n s
