-- ===== src/MistClient.antt =====
-- clients/mist_client.go: the client of Mist's API. The server is a parameter, with a state of its
-- own, as are the JSON decoders and the MD5 digest. A reply is a body and an error.
pub mod TriggerConfig
pub mod Operations
pub mod Laws
use dms_api.Prelude.{
  ℕ, String, concat, Bool, true, false, Option, none, some, List, str_eq, ◌==◌, if◌then◌else◌,
}
use dms_api.Prelude.Dict.{Dict, get, put}
use dms_api.Errors.{Error, plain, wrapped, message}
use dms_api.Result.{Result, ok, err, ◌>>=◌}
use dms_api.Mapic.{MistState}
use dms_api.MistClient.TriggerConfig.{
  ConfigTrigger, Triggers, command_add_trigger, command_delete_trigger, check_added, check_deleted,
}

-- An element of a list that Mist has sent: a text or some other value.
pub data Param : Type 0 where
  text : String → Param
  value : String → Param

-- The commands that are sent to Mist.
pub data MistCommand : Type 0 where
  authorize_command : String → String → MistCommand
  add_stream_command : String → String → MistCommand
  invalidate_sessions_command : String → MistCommand
  delete_stream_command : String → MistCommand
  nuke_stream_command : String → MistCommand
  stop_sessions_command : String → MistCommand
  push_auto_add_command : String → String → MistCommand
  push_auto_remove_command : List Param → MistCommand
  push_stop_command : ℕ → MistCommand
  get_triggers_command : MistCommand
  set_triggers_command : Triggers → MistCommand
  state_command : MistCommand

abbrev pub Reply : Type 0
Reply = String × Option Error

-- `AuthorizationResponse`
pub record Authorization : Type 0 where
  pub status : String
  pub challenge : String

-- What the client is made of: its user, the server behind HTTP, the decoders of replies and MD5.
pub record Setup (World : Type 0) : Type 0 where
  pub username : String
  pub password : String
  pub exchange : MistCommand → World → Reply × World
  pub authorization_of : String → Result Authorization
  -- how many streams a reply lists
  pub stream_count_of : String → Result ℕ
  -- `none` for a reply without triggers
  pub triggers_of : String → Result (Option Triggers)
  pub state_of : String → Result MistState
  pub md5 : String → String

module _ {World : Type 0} (c : Setup World) where
  unfoldable pub auth_status : Result Authorization → Option Error
  auth_status (err e) = some e
  auth_status (ok a) =
      if str_eq a.status "OK" then none else some (plain "authorization to Mist API failed")

  -- `validateAuth`
  unfoldable pub validate_auth : Reply → Option Error
  unfolding auth_status
  validate_auth (resp, some e) = some e
  validate_auth (resp, none) = auth_status (c.authorization_of resp)

  unfoldable pub login : Result Authorization → World → Option Error × World
  unfolding validate_auth
  login (err e) w = (some e, w)
  login (ok a) w =
      let r =
        c.exchange (authorize_command c.username (c.md5 (concat (c.md5 c.password) a.challenge)))
          w in
      (validate_auth r.0, r.1)

  -- `authorize`
  unfoldable pub authorize : String → World → Option Error × World
  unfolding login
  authorize unauth_resp w = login (c.authorization_of unauth_resp) w

  unfoldable pub after_login : MistCommand → Reply → Option Error × World → Reply × World
  after_login cmd r (some e, w) = (r, w)
  after_login cmd r (none, w) = c.exchange cmd w

  unfoldable pub retry : MistCommand → Option Error → Reply × World → Reply × World
  unfolding after_login authorize
  retry cmd none (r, w) = (r, w)
  retry cmd (some e) (r, w) = after_login cmd r (authorize r.0 w)

  -- `sendCommand`
  unfoldable pub send_command : MistCommand → World → Reply × World
  unfolding retry validate_auth
  send_command cmd w = let r = c.exchange cmd w in retry cmd (validate_auth r.0) r

  -- `err != validateAuth(resp, err)` for an error and what `validateAuth` makes of it: without an
  -- error, this is whether the validation fails, and with one it is false.
  unfoldable pub skips_validation : Reply → Bool
  unfolding validate_auth
  skips_validation (resp, some e) = false
  skips_validation (resp, none) = elim (validate_auth (resp, none)) [ none ↦ false | some e ↦ true ]

  count_streams : Result ℕ → Option Error
  count_streams (err e) = some e
  count_streams (ok n) = if n == 0 then some (plain "adding stream failed") else none

  -- `validateAddStream`
  unfoldable pub validate_add_stream : Reply → Option Error
  unfolding skips_validation count_streams
  validate_add_stream r = if skips_validation r then r.1 else count_streams (c.stream_count_of r.0)

  unfoldable pub check_reply :
      (Triggers → Option Error) → Option Error → Result (Option Triggers) → Option Error
  check_reply check missing (err e) = some e
  check_reply check missing (ok none) = missing
  check_reply check missing (ok (some ts)) = check ts

  -- `validateAddTrigger`
  unfoldable pub validate_add_trigger : List String → String → Bool → Reply → Option Error
  unfolding skips_validation check_reply check_added
  validate_add_trigger streams name sync r =
      if skips_validation r
      then r.1
      else check_reply (check_added streams name sync)
          (some (plain "adding trigger failed, nil triggers value in response")) (c.triggers_of r.0)

  unfoldable pub authorised_then : Option Error → Option Error → Option Error
  authorised_then (some e) rest = some e
  authorised_then none rest = rest

  -- `validateDeleteTrigger`
  unfoldable pub validate_delete_trigger : List String → String → Reply → Option Error
  unfolding validate_auth check_reply check_deleted authorised_then
  validate_delete_trigger streams name r =
      authorised_then (validate_auth r)
        (check_reply (check_deleted streams name) none (c.triggers_of r.0))
