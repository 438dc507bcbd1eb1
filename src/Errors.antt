-- ===== src/Errors.antt =====
-- errors/errors.go: error values with their chains of causes, and the HTTP error replies. An error
-- of the Go program is a message with the errors that `Unwrap` reaches. `backoff.Permanent` of the
-- backoff library is a parameter: of its result only what `Unwrap` gives is used.
pub mod Chains
use dms_api.Prelude.{ℕ, String, concat, Bool, true, false, Option, none, some, ◌==◌, if◌then◌else◌}

pub data Error : Type 0 where
  -- `errors.New`, and `fmt.Errorf` with no `%w`
  plain : String → Error
  -- `fmt.Errorf("…%w", err)`: the text in front of the cause, and the cause
  wrapped : String → Error → Error
  -- an error of another package, with an `Unwrap` of its own
  foreign : String → Error → Error
  -- `unretriableError`
  unretriable_error : Error → Error
  -- `ObjectNotFoundError`, with no cause and with one
  object_not_found : String → Error
  object_not_found_of : String → Error → Error

-- `errors.Unwrap`
unfoldable pub unwrap : Error → Option Error
unwrap (plain msg) = none
unwrap (wrapped msg e) = some e
unwrap (foreign msg e) = some e
unwrap (unretriable_error e) = some e
unwrap (object_not_found msg) = none
unwrap (object_not_found_of msg e) = some e

-- The method `Error` of each type.
unfoldable pub message : Error → String
message (plain msg) = msg
message (wrapped msg e) = concat msg (message e)
message (foreign msg e) = msg
message (unretriable_error e) = message e
message (object_not_found msg) = msg
message (object_not_found_of msg e) = msg

-- `IsUnretriable`: `errors.As` walks the chain of causes.
unfoldable pub is_unretriable : Error → Bool
is_unretriable (plain msg) = false
is_unretriable (wrapped msg e) = is_unretriable e
is_unretriable (foreign msg e) = is_unretriable e
is_unretriable (unretriable_error e) = true
is_unretriable (object_not_found msg) = false
is_unretriable (object_not_found_of msg e) = is_unretriable e

-- `IsObjectNotFound`
unfoldable pub is_object_not_found : Error → Bool
is_object_not_found (plain msg) = false
is_object_not_found (wrapped msg e) = is_object_not_found e
is_object_not_found (foreign msg e) = is_object_not_found e
is_object_not_found (unretriable_error e) = is_object_not_found e
is_object_not_found (object_not_found msg) = true
is_object_not_found (object_not_found_of msg e) = true

-- `NewObjectNotFoundError`; a nil cause is `none`.
unfoldable pub new_object_not_found_error : String → Option Error → Error
new_object_not_found_error msg none =
    unretriable_error (object_not_found (concat "ObjectNotFoundError: " msg))
new_object_not_found_error msg (some cause) = unretriable_error (
    object_not_found_of (concat "ObjectNotFoundError: " (concat msg (concat ": " (message cause))))
      cause)

module _ (permanent : Error → Error) where
  -- `Unretriable`
  unfoldable pub unretriable : Error → Error
  unretriable err = permanent (unretriable_error err)

-- The reply that `writeHttpError` writes, with the `APIError` that it returns.
pub record HttpReply : Type 0 where
  pub status : ℕ
  pub error : String
  pub error_detail : String

pub record ApiError : Type 0 where
  pub msg : String
  pub status : ℕ
  pub err : Option Error

abbrev pub status_internal_server_error : ℕ
status_internal_server_error = 500

error_detail_of : ℕ → Option Error → String
error_detail_of status none = ""
error_detail_of status (some err) =
    if status == status_internal_server_error then "" else message err

unfoldable pub write_http_error : String → ℕ → Option Error → HttpReply × ApiError
unfolding error_detail_of
write_http_error msg status err = (
  record { status = status; error = msg; error_detail = error_detail_of status err },
  record { msg = msg; status = status; err = err },
)

unfoldable pub write_http_unauthorized : String → Option Error → HttpReply × ApiError
unfolding write_http_error
write_http_unauthorized msg err = write_http_error msg 401 err

unfoldable pub write_http_bad_request : String → Option Error → HttpReply × ApiError
unfolding write_http_error
write_http_bad_request msg err = write_http_error msg 400 err

unfoldable pub write_http_unsupported_media_type : String → Option Error → HttpReply × ApiError
unfolding write_http_error
write_http_unsupported_media_type msg err = write_http_error msg 415 err

unfoldable pub write_http_not_found : String → Option Error → HttpReply × ApiError
unfolding write_http_error
write_http_not_found msg err = write_http_error msg 404 err

unfoldable pub write_http_internal_server_error : String → Option Error → HttpReply × ApiError
unfolding write_http_error
write_http_internal_server_error msg err = write_http_error msg status_internal_server_error err
