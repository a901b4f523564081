-- ===== src/Errors.antt =====
-- `boost::system::error_code` as far as the program looks at it, with interface/asio_http/error.h,
-- by which an http_errno of the parser converts to an error code of a category of its own.
use asio_http.Base.{ℕ, Bool, true, false, not, ◌==◌, Bytes, codes}

-- `system n` is any error of another value or category that the program does not name.
pub data ErrorCode : Type 0 where
  success broken_pipe connection_reset eof operation_aborted timed_out : ErrorCode
  system : ℕ → ErrorCode
  http_parser : ℕ → ErrorCode

-- The values of http_errno that the program relies on.
abbrev pub hpe_ok : ℕ
hpe_ok = 0

abbrev pub hpe_invalid_eof_state : ℕ
hpe_invalid_eof_state = 11

-- `make_error_code(http_errno)`
pub make_error_code : ℕ → ErrorCode
make_error_code e = http_parser e

-- The conversion of an error code to bool: its value is not 0.
unfoldable pub is_error : ErrorCode → Bool
is_error success = false
is_error (http_parser n) = not (n == hpe_ok)
is_error _ = true

-- `http_parser_category`, with the names that http_parser gives to its errors.
abbrev pub category_name : Bytes
category_name = codes "HTTP parser error"

unfoldable pub message : (http_errno_name : ℕ → Bytes) → (value : ℕ) → Bytes
message http_errno_name value = http_errno_name value
