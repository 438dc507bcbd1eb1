-- ===== src/AccessControl/Gate.antt =====
-- handlers/accesscontrol/access-control.go, `QueryGate`. The HTTP client and the JSON and
-- Cache-Control parsers are what `Answer` stands for: how the call of `Client.Do` ended, and what
-- the parsers made of the response.
use dms_api.Prelude.{ℕ, ◌/◌, String, Bool, true, Option, none, some, ◌==◌, if◌then◌else◌, length}
use dms_api.Prelude.Int.{ℤ, pos}
use dms_api.Errors.{Error, plain}
use dms_api.Result.{Result, ok, err, ◌>>=◌}

-- An error of `Client.Do`: a sentinel, or a `*url.Error` with its cause.
pub data DoError : Type 0 where
  deadline_exceeded : DoError
  url_error : DoError → DoError
  other_error : String → DoError

pub data Json : Type 0 where
  -- a number, converted to `int32`
  number : ℤ → Json
  text : String → Json
  other_json : Json

-- The three keys of the body that the program reads; a missing one is `none`.
pub record Body : Type 0 where
  pub refresh_interval : Option Json
  pub user_viewer_limit : Option Json
  pub user_id : Option Json

pub record Response : Type 0 where
  pub status_code : ℕ
  -- `max-age` and `stale-while-revalidate`, where the header parses
  pub cache_control : Result (ℤ × ℤ)
  pub content_length : ℕ
  pub body : Result Body

pub data Answer : Type 0 where
  -- the request could not be built
  bad_request : Error → Answer
  do_error : DoError → Answer
  response : Response → Answer

pub record GateConfig : Type 0 where
  pub max_age : ℤ
  pub stale_while_revalidate : ℤ
  pub refresh_interval : ℤ
  pub user_viewer_limit : ℤ
  pub user_id : String

abbrev pub empty_config : GateConfig
empty_config = record {
  max_age = pos 0;
  stale_while_revalidate = pos 0;
  refresh_interval = pos 0;
  user_viewer_limit = pos 0;
  user_id = "";
}

number_or : String → Option Json → Result ℤ
number_or msg none = ok (pos 0)
number_or msg (some (number n)) = ok n
number_or msg (some _) = err (plain msg)

text_or : String → Option Json → Result String
text_or msg none = ok ""
text_or msg (some (text s)) = ok s
text_or msg (some _) = err (plain msg)

-- The body, read only where the response has one: the refresh interval, viewer limit and user.
unfoldable pub read_body : ℕ → Result Body → Result (ℤ × ℤ × String)
unfolding number_or text_or
read_body length body = if length == 0 then ok (pos 0, pos 0, "") else do
  b ← body
  interval ← number_or "refresh_interval is not a number" b.refresh_interval
  limit ← number_or "user_viewer_limit is not a number" b.user_viewer_limit
  user ← text_or "user_id is not a string" b.user_id
  ok (interval, limit, user)

-- The status, then the two ages of the header, then what the body says.
unfoldable pub with_config :
    Bool → Result (ℤ × ℤ) → Result (ℤ × ℤ × String) → Result (Bool × GateConfig)
with_config success ages body = do
  (max_age, stale) ← ages
  (interval, limit, user) ← body
  ok (
    success,
    record {
      max_age = max_age;
      stale_while_revalidate = stale;
      refresh_interval = interval;
      user_viewer_limit = limit;
      user_id = user;
    },
  )

unfoldable pub read_response : Response → Result (Bool × GateConfig)
read_response res =
    with_config (res.status_code / 100 == 2) res.cache_control
      (read_body res.content_length res.body)

unfoldable pub do_message : DoError → String
do_message deadline_exceeded = "context deadline exceeded"
do_message (url_error e) = do_message e
do_message (other_error s) = s

-- `QueryGate`: the test of the error is `err == context.DeadlineExceeded`.
unfoldable pub query_gate : Answer → Result (Bool × GateConfig)
unfolding read_response
query_gate (bad_request e) = err e
query_gate (do_error deadline_exceeded) = ok (
  true,
  record empty_config {
    max_age = pos 120;
    stale_while_revalidate = pos 600;
    refresh_interval = pos 60;
  },
)
query_gate (do_error (url_error e)) = err (plain (do_message e))
query_gate (do_error (other_error s)) = err (plain s)
query_gate (response res) = read_response res
