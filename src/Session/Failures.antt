-- ===== src/Session/Failures.antt =====
-- core/error.hpp and session/http.hpp: error codes, failures, and what a session makes of them.
use boost_taar.Common.{ℕ, Bool, true, false, ◌==◌, if◌then◌else◌, Bytes}

-- The enumeration `error`.
pub data Error : Type 0 where
  success no_absolute_template invalid_template argument_not_found argument_ambiguous
        invalid_argument_format invalid_request_format invalid_url_format invalid_content_type
        invalid_cookie_format invalid_boolean_format invalid_number_format late_chunk_metadata
        constraint_violated unknown_exception :
      Error

-- An error code: one of this library, one of those of Boost that the session tells apart, or any other.
pub data ErrorCode : Type 0 where
  of_taar : Error → ErrorCode
  eof connection_reset operation_aborted end_of_stream body_limit header_limit timeout : ErrorCode
  other : ℕ → ErrorCode

-- A failure with its code and what `text()` renders. One that stands for several exceptions, of waits that the
-- awaitable operators join, keeps the failure of the first.
pub data Failure : Type 0 where
  coded : ErrorCode → Bytes → Failure
  joined : Bytes → Failure → Failure

unfoldable pub code_of : Failure → ErrorCode
code_of (coded e s) = e
code_of (joined s f) = of_taar unknown_exception

abbrev pub text_of : Failure → Bytes
text_of (coded e s) = s
text_of (joined s f) = s

unfoldable pub is_clean_close : ErrorCode → Bool
is_clean_close eof = true
is_clean_close operation_aborted = true
is_clean_close end_of_stream = true
is_clean_close e = false

unfoldable pub is_transport_error : ErrorCode → Bool
is_transport_error eof = true
is_transport_error connection_reset = true
is_transport_error operation_aborted = true
is_transport_error end_of_stream = true
is_transport_error e = false

unfoldable pub is_timeout : ErrorCode → Bool
is_timeout timeout = true
is_timeout e = false

unfoldable pub is_aborted : ErrorCode → Bool
is_aborted operation_aborted = true
is_aborted e = false

unfoldable pub is_operation_aborted : Failure → Bool
is_operation_aborted (coded e s) = is_aborted e
is_operation_aborted (joined s f) = is_operation_aborted f

abbrev pub status_of_error : Error → ℕ
status_of_error argument_not_found = 400
status_of_error argument_ambiguous = 400
status_of_error invalid_argument_format = 400
status_of_error invalid_request_format = 400
status_of_error invalid_url_format = 400
status_of_error invalid_content_type = 400
status_of_error invalid_cookie_format = 400
status_of_error invalid_boolean_format = 400
status_of_error invalid_number_format = 400
status_of_error constraint_violated = 400
status_of_error e = 500

abbrev pub status_of_code : ErrorCode → ℕ
status_of_code (of_taar e) = status_of_error e
status_of_code body_limit = 413
status_of_code header_limit = 431
status_of_code timeout = 408
status_of_code e = 500

unfoldable pub http_status_for : Failure → ℕ
unfolding code_of
http_status_for f = status_of_code (code_of f)

unfoldable pub protocol_error_status : Failure → ℕ
protocol_error_status f = let status = http_status_for f in if status == 500 then 400 else status
