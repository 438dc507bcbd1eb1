-- ===== src/Middleware/Auth.antt =====
-- middleware/auth.go: the check of the API token. The next handler is called where `is_authorized`
-- is `none`; otherwise the reply is the one that it gives.
pub mod Bearer
use dms_api.Prelude.{String, Option, none, some, not, str_eq, if◌then◌else◌}
use Prim.Native.String.{slice, len}
use text.Mathlib.Text.{starts_with}
use dms_api.Errors.{HttpReply, ApiError, write_http_unauthorized}

-- `strings.TrimPrefix`
unfoldable pub trim_prefix : String → String → String
trim_prefix s prefix = if starts_with s prefix then slice s (len prefix) (len s) else s

-- `IsAuthorized`, for the API token and the request's Authorization header.
unfoldable pub is_authorized : String → String → Option (HttpReply × ApiError)
is_authorized api_token auth_header =
    if str_eq auth_header ""
    then some (write_http_unauthorized "No authorization header" none)
    else (if not (str_eq (trim_prefix auth_header "Bearer ") api_token)
        then some (write_http_unauthorized "Invalid Token" none)
        else none)
