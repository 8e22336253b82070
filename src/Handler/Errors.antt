-- ===== src/Handler/Errors.antt =====
-- internal/handler/middleware/error_handler.go: CustomHTTPErrorHandler. A failure to send the answer
-- is only logged.
-- What errors.As finds in the error: an *AppError, an *echo.HTTPError, whose message is `none` where
-- it is no string, or neither.
use cargohold.Failure.{GoError}
use cargohold.Prelude.{Bool, Option, String, false, if◌then◌else◌, leb, none, some, true, ℕ}
use cargohold.Prelude.Text.{Text, codes, has_prefix}

pub data HandlerError : Type 0 where
  app_err : ℕ → String → Option GoError → HandlerError
  http_err : ℕ → Option String → HandlerError
  other_err : GoError → HandlerError

pub data LogLevel : Type 0 where
  log_silent log_warn log_error : LogLevel

pub data ErrorBody : Type 0 where
  -- {"error": message}
  json_error : String → ErrorBody
  -- LFSErrorResponse, with the content type of Git LFS
  lfs_body : String → ErrorBody

pub record ErrorAnswer : Type 0 where
  pub status : ℕ
  pub content : ErrorBody
  pub level : LogLevel
  -- whether the log line has the attribute "error"
  pub logs_cause : Bool

abbrev internal_message : String
internal_message = "サーバー内部エラーが発生しました"

pub status_of : HandlerError → ℕ
status_of (app_err status message cause) = status
status_of (http_err code message) = code
status_of (other_err e) = 500

pub message_of : HandlerError → String
message_of (app_err status message cause) = message
message_of (http_err code (some message)) = message
message_of (http_err code none) = internal_message
message_of (other_err e) = internal_message

-- originalErr != nil
pub has_cause : HandlerError → Bool
has_cause (app_err status message none) = false
has_cause (app_err status message (some e)) = true
has_cause _ = true

pub level_of : ℕ → LogLevel
level_of status =
    if leb 500 status then log_error else if leb 400 status then log_warn else log_silent

-- Nothing is sent where the response is committed.
unfoldable pub custom_http_error_handler : Bool → Text → HandlerError → Option ErrorAnswer
unfolding status_of message_of has_cause level_of has_prefix
custom_http_error_handler committed path e =
    if committed
    then none
    else some (record {
      status = status_of e;
      content =
          if has_prefix path (codes "/auth/")
          then json_error (message_of e)
          else lfs_body (message_of e);
      level = level_of (status_of e);
      logs_cause = has_cause e;
    })
