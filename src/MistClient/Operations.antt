-- ===== src/MistClient/Operations.antt =====
-- clients/mist_client.go: the methods of the client. A method returns its error, if any, and the
-- state of the server. `GetState` keeps its answer until the cache drops it.
pub mod Denied
use dms_api.Prelude.{ℕ, String, concat, Bool, Option, none, some, List, [], ◌∷◌}
use dms_api.Errors.{Error, plain, wrapped, message}
use dms_api.Result.{Result, ok, err}
use dms_api.Mapic.{MistState}
use dms_api.MistClient.{
  Param, text, value, MistCommand, add_stream_command, invalidate_sessions_command,
  delete_stream_command, nuke_stream_command, stop_sessions_command, push_auto_add_command,
  push_auto_remove_command, push_stop_command, get_triggers_command, set_triggers_command,
  state_command, Reply, Setup, send_command, validate_auth, validate_add_stream,
  validate_add_trigger, validate_delete_trigger,
}
use dms_api.MistClient.TriggerConfig.{Triggers, command_add_trigger, command_delete_trigger}

-- `wrapErr`
unfoldable pub wrap_err : String → Option Error → Option Error
wrap_err stream_name none = none
wrap_err stream_name (some e) =
    some (wrapped (concat "error in processing stream '" (concat stream_name "': ")) e)

abbrev pub message_of : Option Error → String
message_of none = "<nil>"
message_of (some e) = message e

module _ {World : Type 0} (c : Setup World) where
  abbrev pub Done : Type 0
  Done = Option Error × World

  pub sent : (Reply → Option Error) → MistCommand → World → Done
  unfolding send_command
  sent check cmd w = let r = send_command c cmd w in (check r.0, r.1)

  pub wrap : String → Done → Done
  unfolding wrap_err
  wrap stream_name d = (wrap_err stream_name d.0, d.1)

  -- `AddStream`
  unfoldable pub add_stream : String → String → World → Done
  unfolding sent wrap validate_add_stream
  add_stream name source_url w =
      wrap name (sent (validate_add_stream c) (add_stream_command name source_url) w)

  -- `PushAutoAdd`
  unfoldable pub push_auto_add : String → String → World → Done
  unfolding sent wrap validate_auth
  push_auto_add name target_url w =
      wrap name (sent (validate_auth c) (push_auto_add_command name target_url) w)

  -- `PushAutoRemove`
  unfoldable pub push_auto_remove : List Param → World → Done
  unfolding sent wrap validate_auth
  push_auto_remove [] w = (some (plain "streamParams cannot be empty"), w)
  push_auto_remove (value v ∷ ps) w =
      (some (plain "first param in streamParams must be the stream name"), w)
  push_auto_remove (text name ∷ ps) w =
      wrap name (sent (validate_auth c) (push_auto_remove_command (text name ∷ ps)) w)

  -- `PushStop`
  unfoldable pub push_stop : ℕ → World → Done
  unfolding sent validate_auth
  push_stop id w = sent (validate_auth c) (push_stop_command id) w

  -- `InvalidateSessions`
  unfoldable pub invalidate_sessions : String → World → Done
  unfolding sent wrap validate_auth
  invalidate_sessions name w =
      wrap name (sent (validate_auth c) (invalidate_sessions_command name) w)

  pub both_failed : Option Error → Option Error → Option Error
  both_failed none none = none
  both_failed d n = some (
      plain (
        concat "deleting stream failed, 'deletestream' command err: "
          (concat (message_of d) (concat ", 'nuke_stream' command err: " (message_of n)))))

  -- `DeleteStream`: both commands are sent, whatever the first one gives.
  unfoldable pub delete_stream : String → World → Done
  unfolding sent wrap validate_auth both_failed message
  delete_stream name w =
      let d = wrap name (sent (validate_auth c) (delete_stream_command name) w) in
      let n = wrap name (sent (validate_auth c) (nuke_stream_command name) d.1) in
      (both_failed d.0 n.0, n.1)

  -- `NukeStream`
  unfoldable pub nuke_stream : String → World → Done
  unfolding sent validate_auth
  nuke_stream name w = sent (validate_auth c) (nuke_stream_command name) w

  -- `StopSessions`
  unfoldable pub stop_sessions : String → World → Done
  unfolding sent validate_auth
  stop_sessions name w = sent (validate_auth c) (stop_sessions_command name) w

  no_triggers : Result (Option Triggers) → Result Triggers
  no_triggers (err e) = err e
  no_triggers (ok none) = ok []
  no_triggers (ok (some ts)) = ok ts

  pub read_triggers : Option Error → String → Result Triggers
  unfolding no_triggers
  read_triggers (some e) resp = err e
  read_triggers none resp = no_triggers (c.triggers_of resp)

  -- `getCurrentTriggers`
  unfoldable pub get_current_triggers : World → Result Triggers × World
  unfolding read_triggers send_command validate_auth
  get_current_triggers w =
      let r = send_command c get_triggers_command w in
      (read_triggers (validate_auth c r.0) r.0.0, r.1)

  unfoldable pub replace_triggers :
      (Reply → Option Error) → (Triggers → Triggers) → Result Triggers × World → Done
  unfolding sent
  replace_triggers check update (err e, w) = (some e, w)
  replace_triggers check update (ok ts, w) = sent check (set_triggers_command (update ts)) w

  -- `AddTrigger`
  unfoldable pub add_trigger : List String → String → String → Bool → World → Done
  unfolding replace_triggers get_current_triggers command_add_trigger validate_add_trigger
  add_trigger streams name callback sync w =
      replace_triggers (validate_add_trigger c streams name sync)
        (λ ts. command_add_trigger streams name callback ts sync) (get_current_triggers w)

  -- `DeleteTrigger`
  unfoldable pub delete_trigger : List String → String → World → Done
  unfolding replace_triggers get_current_triggers command_delete_trigger validate_delete_trigger
  delete_trigger streams name w =
      replace_triggers (validate_delete_trigger c streams name)
        (λ ts. command_delete_trigger streams name ts) (get_current_triggers w)

  -- The state of Mist that the cache holds, if any, and the server.
  abbrev pub Cached : Type 0
  Cached = Option MistState × World

  read_state : Result MistState → World → Result MistState × Cached
  read_state (err e) w = (err e, (none, w))
  read_state (ok s) w = (ok s, (some s, w))

  store_state : Option Error → String → World → Result MistState × Cached
  unfolding read_state
  store_state (some e) resp w = (err e, (none, w))
  store_state none resp w = read_state (c.state_of resp) w

  -- `GetState`
  unfoldable pub get_state : Cached → Result MistState × Cached
  unfolding store_state send_command validate_auth
  get_state (some s, w) = (ok s, (some s, w))
  get_state (none, w) =
      let r = send_command c state_command w in store_state (validate_auth c r.0) r.0.0 r.1
