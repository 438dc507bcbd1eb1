-- ===== src/Mapic/Handlers.antt =====
-- mapic/mistapiconnector_app.go: the handlers of Mist's triggers. A handler is a function of the
-- map of the streams; what it asks of Mist, of the Livepeer API and of the message queue is a list
-- of actions, in order. The answers to these are only logged.
pub mod Store
pub mod Sound
pub mod Laws
pub mod Runs
pub mod Ingest
use dms_api.Prelude.{
  ℕ, String, concat, Bool, true, false, ◌&&◌, ◌||◌, not, Option, none, some, List, [], ◌∷◌, ◌++◌,
  str_eq, ◌==◌, if◌then◌else◌, length,
}
use dms_api.Prelude.Dict.{Dict, get, put, delete}
use dms_api.Prelude.Text.{split}
use dms_api.Errors.{Error, plain, message}
use dms_api.Result.{Result, ok, err}
use dms_api.Mapic.{
  Api, PushEvent, disconnected, Stream, StreamInfo, StreamInfos, PushStatus, Target, MistState,
}
use dms_api.Mapic.Names.{mist_stream_name_to_playback_id, wildcard_playback_id, is_ingest_source}
use dms_api.Mapic.Push.{Outcome, wait_over, end_push, disconnect, is_wait_increased}
use dms_api.Mapic.Streams.{get_stream_info, refresh_stream_info, remove_info}

-- `MultistreamTargetInfo`
pub record TargetInfo : Type 0 where
  pub id : String
  pub name : String
  pub profile : String

pub data Action : Type 0 where
  -- `lapi.SetActive`: the stream's id, whether it is active, and its start
  set_active : String → Bool → ℕ → Action
  -- the event `stream.state.` of a user's stream
  state_event : String → String → Bool → Action
  -- a webhook event of a stream and its session
  webhook : PushEvent → String → String → String → TargetInfo → Action
  -- `removeInfoDelayed`
  remove_later : String → Action
  -- `waitPush` of a push, and whether its wait is the longer one
  wait_push : String → String → Bool → Action
  -- the commands of Mist's client
  nuke_action : String → Action
  stop_action : String → Action
  invalidate_action : String → Action

abbrev pub stream_of_session : Stream → String
stream_of_session s = if str_eq s.parent_id "" then s.id else s.parent_id

-- `pushToMultistreamTargetInfo`
unfoldable pub push_to_multistream_target_info : PushStatus → TargetInfo
push_to_multistream_target_info p = record {
  id = p.target.id;
  name = p.target.name;
  profile = p.profile;
}

-- `emitWebhookEventAsync` of the event sent, if any, with the target as it is when the event is
-- raised
unfoldable pub emit_webhook : Stream → Outcome → List Action
unfolding push_to_multistream_target_info
emit_webhook s (p, none) = []
emit_webhook s (p, some e) =
    webhook e (stream_of_session s) s.user_id s.id (push_to_multistream_target_info p) ∷ []

-- `emitStreamStateEvent`
unfoldable pub emit_stream_state_event : Stream → Bool → Action
emit_stream_state_event s active = state_event s.user_id (stream_of_session s) active

-- Whether STREAM_BUFFER makes the stream active, for the two states that matter.
active_of : String → Option Bool
active_of state =
    if str_eq state "EMPTY" then some false else if str_eq state "FULL" then some true else none

abbrev pub Handled : Type 0
Handled = StreamInfos × List Action

unfoldable pub mark_stopped : StreamInfo → StreamInfo
mark_stopped si = record si { stopped = true }

unfoldable pub set_state : Bool → String → Result StreamInfo × StreamInfos → Handled
unfolding emit_stream_state_event put mark_stopped mist_stream_name_to_playback_id
set_state active playback_id (err e, infos) = (infos, [])
set_state active playback_id (ok si, infos) =
    let sent =
      set_active si.id active si.started_at ∷ emit_stream_state_event si.stream active ∷ [] in
    if active then (infos, sent) else (
      put (mist_stream_name_to_playback_id playback_id) (mark_stopped si) infos,
      sent ++ remove_later playback_id ∷ [],
    )

unfoldable pub buffer_changed : Api → String → Option Bool → StreamInfos → Handled
unfolding set_state get_stream_info
buffer_changed api playback_id none infos = (infos, [])
buffer_changed api playback_id (some active) infos =
    set_state active playback_id (get_stream_info api playback_id infos)

-- `handleStreamBuffer`, with the state and the name of the payload
unfoldable pub handle_stream_buffer : Api → String → String → String → StreamInfos → Handled
unfolding active_of buffer_changed mist_stream_name_to_playback_id
handle_stream_buffer api base_stream_name state name infos =
    let playback_id =
      if str_eq base_stream_name "" then name else mist_stream_name_to_playback_id name in
    buffer_changed api playback_id (active_of state) infos

-- What the Livepeer API answers about a stream key.
pub data KeyAnswer : Type 0 where
  found : Stream → KeyAnswer
  not_exists : KeyAnswer
  nil_stream : KeyAnswer
  key_failed : Error → KeyAnswer

-- The configuration of the connector.
pub record Config : Type 0 where
  pub base_stream_name : String
  pub balancer_host : String

unfoldable pub response_name : Config → Stream → String
unfolding wildcard_playback_id
response_name c s =
    let key =
      if str_eq c.balancer_host "" then s.playback_id else concat "playback_" s.playback_id in
    if str_eq c.base_stream_name "" then key else wildcard_playback_id c.base_stream_name s

-- The entry of a stream that is pushed to this node.
abbrev pub ingest_info : Stream → ℕ → StreamInfo
ingest_info s now = record {
  id = s.id;
  is_lazy = false;
  stream = s;
  started_at = now;
  stopped = false;
  pushes = [];
}

unfoldable pub accept : Config → Stream → ℕ → StreamInfos → Result String × StreamInfos
unfolding response_name put remove_info
accept c s now infos =
    let m =
      if str_eq s.playback_id ""
      then infos
      else put s.playback_id (ingest_info s now) (remove_info s.playback_id infos) in
    let name = if str_eq s.playback_id "" then "" else response_name c s in
    (ok (if s.deleted || s.suspended then "" else name), m)

key_text : String → String
key_text stream_key =
    concat "Error getting stream info from Livepeer API streamKey=" (concat stream_key " err=")

unfoldable pub answer_key :
    Config → String → ℕ → StreamInfos → KeyAnswer → Result String × StreamInfos
unfolding accept key_text message
answer_key c stream_key now infos (found s) = accept c s now infos
answer_key c stream_key now infos not_exists = (ok "", infos)
answer_key c stream_key now infos nil_stream =
    (err (plain (concat (key_text stream_key) "<nil>")), infos)
answer_key c stream_key now infos (key_failed e) =
    (err (plain (concat (key_text stream_key) (message e))), infos)

-- `handlePushRewrite`, with the scheme and the path of the URL
unfoldable pub handle_push_rewrite :
    (String → KeyAnswer)
    → Config
    → String
    → String
    → String
    → ℕ
    → StreamInfos
    → Result String × StreamInfos
unfolding answer_key split
handle_push_rewrite by_key c scheme path stream_key now infos =
    if str_eq scheme "rtmp" && not (length (split 47 path) == 3)
    then (ok "", infos)
    else answer_key c stream_key now infos (by_key stream_key)
