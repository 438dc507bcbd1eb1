-- ===== src/Scenarios/Jobs.antt =====
-- Upload jobs at concrete inputs.
use dms_api.Prelude.{
  ℕ, ◌+◌, ◌≡◌, ◌≢◌, refl, String, true, false, Option, none, some, List, [], ◌∷◌, ◌++◌, eq_iff,
  if◌then◌else◌, ◌↔◌, All,
}
use dms_api.Prelude.Int.{is_zero}
use dms_api.Cache
use dms_api.Cache.{Cache}
use dms_api.Cache.Laws.{count_key}
use dms_api.Errors.{Error, plain, wrapped}
use dms_api.Result.{ok, err}
use dms_api.Callback.Status.{Message, new_error}
use dms_api.Video.Tracks.{InputTrack, InputVideo, empty_input_track, empty_input_video}
use dms_api.Pipeline.Strategy.{
  fallback_external, other, is_valid, check_livepeer_compatible, is_h264,
  check_display_aspect_ratio,
}
use dms_api.Pipeline.Strategy.Compat.{has_video, IsSupported, compatible_iff}
use dms_api.Pipeline.Job.{
  UploadJobPayload, returns, panics, Pipe, pipe_ffmpeg, pipe_external, chan, State, Handle,
}
use dms_api.Pipeline.Coordinator.{Finish, finished, blocked, final_message, is_none}
use dms_api.Pipeline.Run.{finish_job, run_strategy, start_pipelines}
use dms_api.Pipeline.Run.Finishing.{finish_job_lem}
use dms_api.Pipeline.Run.Callbacks.{count_final, concludes, fails, IsHandler}
use dms_api.Pipeline.Run.Callbacks.Runs.{outcome_of}
use dms_api.Pipeline.Run.Fallback.{is_true, first_ok, fallback_callbacks, one_final_callback}
use dms_api.Pipeline.Upload.{
  Sources, fetch_source, new_job, start_upload_job, segmenting_stream_name,
}
use dms_api.Pipeline.Upload.Failure.{IsReport, fetch_failure-blocked}

abbrev video : InputTrack
video = record empty_input_track { type_name = "video"; codec = "H264" }

abbrev clip : InputVideo
clip = record empty_input_video { tracks = video ∷ [] }

abbrev no_floats : String → Option ℕ
no_floats s = none

video-IsSupported : IsSupported no_floats video
unfolding is_h264 check_display_aspect_ratio is_zero
video-IsSupported = record { codec = λ _. refl; rotation = λ _. refl; ratio = refl }

compatible_iff_example :
    ((check_livepeer_compatible no_floats fallback_external clip).0 ≡ true)
    ↔ ((has_video clip.tracks ≡ true) × All (IsSupported no_floats) clip.tracks)
compatible_iff_example = compatible_iff no_floats fallback_external clip

abbrev payload : UploadJobPayload
payload = record {
  source_file = "http://host/in.mp4";
  callback_url = "http://studio";
  hls_target_url = none;
  mp4_target_url = none;
  frag_mp4_target_url = none;
  clip_target_url = none;
  thumbnails_target_url = none;
  mp4_only_short = false;
  access_token = "";
  transcode_api_url = "";
  hardcoded_broadcasters = "";
  request_id = "r1";
  external_id = "";
  profiles = none;
  pipeline_strategy = other "";
  target_segment_size_secs = 10;
  generate_mp4 = false;
  encryption = none;
  input_file_info = clip;
  source_copy = false;
  clip_strategy = record { enabled = false; start_time = 0; end_time = 0; playback_id = "" };
  c2pa = false;
}

abbrev start : State
start = record {
  job = new_job 7 "region" 0 payload;
  jobs = record { cache = [] };
  sent = [];
  rows = [];
  samples = [];
  jobs_in_flight = 0;
}

-- The first pipeline fails and the second succeeds.
abbrev handlers : Pipe → Handle
handlers pipe_ffmpeg s = (panics "boom", s)
handlers pipe_external s = (
  returns
      (some (record {
        continue = false;
        result = some (record { input_video = empty_input_video; outputs = [] });
      }))
      none,
  s,
)

abbrev clock : State → ℕ
clock s = 5

abbrev accepts : List Message → Message → Option Error
accepts ms m = none

ffmpeg : IsHandler (handlers pipe_ffmpeg)
unfolding concludes
ffmpeg = record {
  ends = λ s. refl;
  quiet = λ s. refl;
  result = λ s. refl;
  has_fallback = λ s. refl;
  callback_url = λ s. refl;
  stream_name = λ s. refl;
}

external : IsHandler (handlers pipe_external)
unfolding concludes
external = record {
  ends = λ s. refl;
  quiet = λ s. refl;
  result = λ s. refl;
  has_fallback = λ s. refl;
  callback_url = λ s. refl;
  stream_name = λ s. refl;
}

has_url : payload.callback_url ≢ ""
has_url e = cc ((eq_iff payload.callback_url "").1 e)

one_final_callback_example :
    ((start_pipelines accepts clock true handlers no_floats fallback_external start).0 ≡ finished)
    × (count_final
          (start_pipelines accepts clock true handlers no_floats fallback_external start).1.sent
        ≡ count_final start.sent + 1)
unfolding new_job is_valid
one_final_callback_example =
    one_final_callback accepts clock true handlers ffmpeg external (λ ms m. refl) no_floats
      fallback_external start refl has_url

fallback_callbacks_example :
    ((run_strategy accepts clock true handlers fallback_external start).0 ≡ finished)
    × (count_final (run_strategy accepts clock true handlers fallback_external start).1.sent
        ≡ count_final start.sent
          + (if fails (outcome_of clock handlers pipe_ffmpeg true start)
              then 1
              else if is_true (first_ok accepts clock true handlers start)
              then 1
              else 2))
unfolding new_job
fallback_callbacks_example =
    fallback_callbacks accepts clock true handlers ffmpeg external start has_url

abbrev with_channel : State
with_channel = record start {
  job = record (start.job) { info = record (start.job.info) { result = chan none false } };
}

abbrev last_message : Message × String
last_message = elim (final_message 5 with_channel.job none (some (plain "boom"))) [
  | some m ↦ m
  | none ↦ (new_error 0 "" "" "" false, "")
]

finish_job_lem_example :
    ((finish_job accepts clock true none (some (plain "boom")) with_channel).0 ≡ finished)
    × ((finish_job accepts clock true none (some (plain "boom")) with_channel).1.job.info.result
        ≡ chan (some false) true)
    × ((finish_job accepts clock true none (some (plain "boom")) with_channel).1.job.info.state
        ≡ "failed")
    × ((finish_job accepts clock true none (some (plain "boom")) with_channel).1.sent
        ≡ with_channel.sent ++ last_message.0 ∷ [])
    × (count_key with_channel.job.stream_name (
          Cache.get_keys
            (finish_job accepts clock true none (some (plain "boom")) with_channel).1.jobs)
        ≡ 0)
unfolding final_message is_none
finish_job_lem_example =
    finish_job_lem accepts clock true none (some (plain "boom")) with_channel last_message.0
      last_message.1 refl refl

abbrev no_sources : Sources
no_sources = record {
  parse_url = λ s. err (plain "bad url");
  transfer_url = λ a b. record { path = a; text = b };
  join_path = λ u s. u;
  recording_backup_check = λ r u v. ok u;
  clip_input_manifest = λ n p u. ok u;
  is_permanent = λ e. false;
  copy_input = λ r u v k. err (plain "no copy");
  probe_file = λ s. err (plain "no probe");
}

abbrev bad_start : Finish × State
bad_start =
    start_upload_job accepts clock true handlers no_floats fallback_external no_sources false 7
      "region" payload start

abbrev bad_url : Error
bad_url = wrapped "error parsing source as url: " (plain "bad url")

fetch_failure-blocked_example :
    (first : Message) × (m : Message) × (bad_start.0 ≡ blocked)
    × (bad_start.1.sent ≡ (start.sent ++ first ∷ []) ++ m ∷ [])
    × (first.url ≡ payload.callback_url)
    × IsReport payload bad_url m
    × (count_key (segmenting_stream_name "r1") (Cache.get_keys bad_start.1.jobs) ≡ 0)
unfolding fetch_source
fetch_failure-blocked_example =
    fetch_failure-blocked accepts clock true handlers no_floats fallback_external no_sources false 7
      "region" payload start bad_url refl
