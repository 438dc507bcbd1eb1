-- ===== src/Callback/Status.antt =====
-- clients/callback_client_status.go
pub mod Bands
pub mod Json
use dms_api.Prelude.{
  ℕ, String, Bool, true, false, Option, none, some, List, [], str_eq, if◌then◌else◌,
}
use dms_api.Callback.Ratio.{Ratio, minus, frac, zero_ratio, one_ratio, clamp, scale_progress}
use dms_api.Video.Tracks.{InputVideo, OutputVideo, empty_input_video}

pub data TranscodeStatus : Type 0 where
  preparing preparing_completed transcoding completed failed : TranscodeStatus

-- The method `String` of a status.
unfoldable pub to_string : TranscodeStatus → String
to_string preparing = "preparing"
to_string preparing_completed = "preparing-completed"
to_string transcoding = "transcoding"
to_string completed = "success"
to_string failed = "error"

-- `MarshalJSON`: none of the five texts holds a character that JSON escapes.
unfoldable pub marshal_json : TranscodeStatus → String
unfolding to_string
marshal_json preparing = "\"preparing\""
marshal_json preparing_completed = "\"preparing-completed\""
marshal_json transcoding = "\"transcoding\""
marshal_json completed = "\"success\""
marshal_json failed = "\"error\""

-- `UnmarshalJSON`; `none` is the error "invalid transcode status".
unfoldable pub unmarshal_json : String → Option TranscodeStatus
unmarshal_json b =
    if str_eq b "\"preparing\""
    then some preparing
    else if str_eq b "\"preparing-completed\""
    then some preparing_completed
    else if str_eq b "\"transcoding\""
    then some transcoding
    else if str_eq b "\"success\""
    then some completed
    else if str_eq b "\"error\""
    then some failed
    else none

-- `TranscodeStatusMessage`
pub record Message : Type 0 where
  pub url : String
  pub request_id : String
  pub completion_ratio : Ratio
  pub status : TranscodeStatus
  pub timestamp : ℕ
  pub error : String
  pub unretriable : Bool
  pub type_name : String
  pub input_video : InputVideo
  pub outputs : List OutputVideo
  pub source_playback : Option OutputVideo

-- The part of `OverallCompletionRatio` behind the clamping and the switch to 1 at a stage's end.
unfoldable pub stage_ratio : TranscodeStatus → Ratio → Ratio
unfolding scale_progress
stage_ratio preparing r = scale_progress r 0 4
stage_ratio preparing_completed r = scale_progress one_ratio 0 4
stage_ratio transcoding r = scale_progress r 4 9
stage_ratio completed r = scale_progress one_ratio 9 10
stage_ratio failed r = minus 0 1

unfoldable pub overall_completion_ratio : TranscodeStatus → Ratio → Ratio
unfolding stage_ratio clamp
overall_completion_ratio status r = stage_ratio status (clamp r)

-- The constructors of messages take the clock's reading, `config.Clock.GetTimestampUTC()`, as
-- `now`.
unfoldable pub new_source_playback :
    ℕ → String → String → TranscodeStatus → Ratio → Option OutputVideo → Message
new_source_playback now url request_id status r playback = record {
  url = url;
  request_id = request_id;
  completion_ratio = overall_completion_ratio status r;
  status = status;
  timestamp = now;
  error = "";
  unretriable = false;
  type_name = "";
  input_video = empty_input_video;
  outputs = [];
  source_playback = playback;
}

unfoldable pub new_progress : ℕ → String → String → TranscodeStatus → Ratio → Message
unfolding new_source_playback
new_progress now url request_id status r = new_source_playback now url request_id status r none

unfoldable pub new_error : ℕ → String → String → String → Bool → Message
new_error now url request_id msg unretriable = record {
  url = url;
  request_id = request_id;
  completion_ratio = zero_ratio;
  status = failed;
  timestamp = now;
  error = msg;
  unretriable = unretriable;
  type_name = "";
  input_video = empty_input_video;
  outputs = [];
  source_playback = none;
}

unfoldable pub new_completed : ℕ → String → String → InputVideo → List OutputVideo → Message
new_completed now url request_id iv ov = record {
  url = url;
  request_id = request_id;
  completion_ratio = overall_completion_ratio completed one_ratio;
  status = completed;
  timestamp = now;
  error = "";
  unretriable = false;
  type_name = "video";
  input_video = iv;
  outputs = ov;
  source_playback = none;
}

unfoldable pub status_is_terminal : TranscodeStatus → Bool
status_is_terminal failed = true
status_is_terminal completed = true
status_is_terminal _ = false

-- `IsTerminal`
unfoldable pub is_terminal : Message → Bool
unfolding status_is_terminal
is_terminal m = status_is_terminal m.status
