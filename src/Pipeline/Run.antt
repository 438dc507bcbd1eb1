-- ===== src/Pipeline/Run.antt =====
-- pipeline/coordinator.go: `finishJob`, `runHandlerAsync`, `startOneUploadJob` and `startUploadJob`
-- as steps of the state around one job.
-- Parameters: the status client's delivery of a message, after those that were sent before it; the
-- clock; whether a metrics database is configured; and the `HandleStartUploadJob` of each handler.
pub mod Finishing
pub mod Callbacks
pub mod Fallback
use dms_api.Prelude.{
  ℕ, ◌+◌, ◌*◌, ◌/◌, String, Bool, true, false, ◌&&◌, Option, none, some, List, [], ◌∷◌, ◌++◌,
  if◌then◌else◌, length,
}
use dms_api.Prelude.Int.{ℤ, pos, negsuc}
use dms_api.Cache
use dms_api.Cache.{Cache}
use dms_api.Errors.{Error}
use dms_api.Callback.Ratio.{Ratio, zero_ratio}
use dms_api.Callback.Status.{Message, TranscodeStatus, preparing, new_progress}
use dms_api.Video.Tracks.{
  InputTrack, InputVideo, TrackResult, found, track_error, empty_input_track, track_type_video,
  track_type_audio, get_track,
}
use dms_api.Pipeline.Strategy.{
  Strategy, external_dominance, catalyst_ffmpeg_dominance, fallback_external, other, is_valid,
  check_livepeer_compatible,
}
use dms_api.Pipeline.Job.{
  HandlerOutput, Outcome, returns, panics, Pipe, pipe_ffmpeg, pipe_external, Channel, nil_channel,
  chan, JobInfo, Row, Labels, State, Handle, SourceInfo,
}
use dms_api.Pipeline.Coordinator.{
  recovered, Finish, unfinished, finished, blocked, panicked, send_result, close_channel,
  with_state, with_result, row_of, labels_of, is_none, final_message,
}

-- The method `Name` of each handler, with the name that the metrics use.
unfoldable pub pipeline_name : Pipe → String
pipeline_name pipe_ffmpeg = "catalyst_ffmpeg"
pipeline_name pipe_external = "aws-mediaconvert"

-- A track, or the zero value that `GetTrack` returns beside an error.
track_or_empty : TrackResult → InputTrack
track_or_empty (found t) = t
track_or_empty (track_error e) = empty_input_track

codec_or_none : TrackResult → String
codec_or_none (found t) = t.codec
codec_or_none (track_error e) = "n/a"

-- -1 second where there is no such track.
start_time_or_none : TrackResult → ℤ
start_time_or_none (found t) = t.start_time_us
start_time_or_none (track_error e) = negsuc 999999

-- `math.Round(duration) * 1000`, from microseconds to milliseconds.
unfoldable pub rounded_ms : ℕ → ℕ
rounded_ms us = (us + 500000) / 1000000 * 1000

-- What `startOneUploadJob` notes of the source. The number of source segments is set elsewhere.
unfoldable pub source_info : JobInfo → SourceInfo
unfolding track_or_empty codec_or_none start_time_or_none rounded_ms
source_info job =
    let iv = job.payload.input_file_info in
    let video = track_or_empty (get_track iv track_type_video) in
    let audio = track_or_empty (get_track iv track_type_audio) in
    record {
      target_segment_size_secs = job.payload.target_segment_size_secs;
      bytes = iv.size_bytes;
      segments = job.source.segments;
      duration_ms = rounded_ms iv.duration_us;
      codec_video = codec_or_none (get_track iv track_type_video);
      codec_audio = codec_or_none (get_track iv track_type_audio);
      width = video.video_track.width;
      height = video.video_track.height;
      fps = video.video_track.fps;
      bitrate_video = video.bitrate;
      bitrate_audio = audio.bitrate;
      channels = audio.audio_track.channels;
      sample_rate = audio.audio_track.sample_rate;
      sample_bits = audio.audio_track.sample_bits;
      video_start_time_us = start_time_or_none (get_track iv track_type_video);
      audio_start_time_us = start_time_or_none (get_track iv track_type_audio);
    }

-- `JobInfo.ReportProgress`: an error of the delivery is ignored.
unfoldable pub report_progress : ℕ → TranscodeStatus → Ratio → State → State
report_progress time stage ratio s = record s {
  sent =
      s.sent
      ++ new_progress time s.job.payload.callback_url s.job.payload.request_id stage ratio ∷ [];
}

-- `Jobs.Store(si.StreamName, si)`, and the gauge of jobs in flight.
unfoldable pub store_job : State → State
store_job s =
    let jobs' = Cache.store s.job.stream_name s.job.address s.jobs in
    record s { jobs = jobs'; jobs_in_flight = length (Cache.get_keys jobs') }

-- The assignments of `startOneUploadJob` to the job.
unfoldable pub prepare_job : ℕ → Pipe → Bool → JobInfo → JobInfo
prepare_job time pipe has_fallback job = record job {
  info = record {
    start_time = time;
    result = chan none false;
    handler = some pipe;
    has_fallback = has_fallback;
    transcoded_segments = 0;
    pipeline = pipeline_name pipe;
    state = "segmenting";
  };
  source = source_info job;
}

-- What the receive from the result channel gives: the value sent, false from a closed channel, and
-- `none` where it waits for ever.
unfoldable pub receive : Channel → Option Bool
receive nil_channel = none
receive (chan (some v) closed) = some v
receive (chan none true) = some false
receive (chan none false) = none

module _ (deliver : List Message → Message → Option Error) (now : State → ℕ) (has_db : Bool) where
  -- `finishJob` from the sending of the final message on.
  unfoldable pub conclude :
      Message → String → Option HandlerOutput → Option Error → State → Finish × State
  unfolding is_none
  conclude tsm final_state out err s =
      let err2 = deliver s.sent tsm in
      let job' = with_state (if is_none err2 then final_state else "failed") s.job in
      let success = is_none err && is_none err2 in
      let jobs' = Cache.remove job'.stream_name s.jobs in
      let (fin, ch) = send_result success job'.info.result in
      (
        fin,
        record {
          job = with_result ch job';
          jobs = jobs';
          sent = s.sent ++ tsm ∷ [];
          rows = if has_db then s.rows ++ row_of job' out ∷ [] else s.rows;
          samples = s.samples ++ labels_of job' ∷ [];
          jobs_in_flight = length (Cache.get_keys jobs');
        },
      )

  unfoldable pub finish_job : Option HandlerOutput → Option Error → State → Finish × State
  finish_job out err s = elim (final_message (now s) s.job out err) [
    | none ↦ (panicked, record s { job = with_result (close_channel s.job.info.result) s.job })
    | some (tsm, final_state) ↦ conclude tsm final_state out err s
  ]

  -- The test of `runHandlerAsync`, `err != nil || (out != nil && !out.Continue)`, and what follows.
  unfoldable pub settle : Option HandlerOutput × Option Error → State → Finish × State
  settle (out, some err) s = finish_job out (some err) s
  settle (none, none) s = (unfinished, s)
  settle (some out, none) s = if out.continue then (unfinished, s) else finish_job (some out) none s

  -- The background run of `runHandlerAsync`.
  unfoldable pub run_handler : Handle → State → Finish × State
  unfolding settle
  run_handler h s = let (outcome, s') = h s in settle (recovered outcome) s'

-- The strategy of the job if it has a valid one, and else the coordinator's.
unfoldable pub job_strategy : Strategy → State → Strategy
job_strategy strategy s =
    if is_valid s.job.payload.pipeline_strategy then s.job.payload.pipeline_strategy else strategy

-- `startOneUploadJob` up to the start of the handler.
unfoldable pub ready : (State → ℕ) → Pipe → Bool → State → State
ready now pipe has_fallback s =
    let s1 = record s { job = prepare_job (now s) pipe has_fallback s.job } in
    store_job (report_progress (now s1) preparing zero_ratio s1)

module _ (deliver : List Message → Message → Option Error) (now : State → ℕ) (has_db : Bool)
    (handle : Pipe → Handle) where
  unfoldable pub start_one_upload_job : Pipe → Bool → State → Finish × State
  start_one_upload_job pipe has_fallback s =
      run_handler deliver now has_db (handle pipe) (ready now pipe has_fallback s)

  -- The branch of the fallback strategy, behind the receive.
  unfoldable pub after_ffmpeg : Option Bool → Finish × State → Finish × State
  after_ffmpeg none r = (blocked, r.1)
  after_ffmpeg (some true) r = r
  after_ffmpeg (some false) r =
      start_one_upload_job pipe_external false
        (record (r.1) { job = record (r.1.job) { in_fallback_mode = true } })

  unfoldable pub run_strategy : Strategy → State → Finish × State
  unfolding receive after_ffmpeg
  run_strategy external_dominance s = start_one_upload_job pipe_external false s
  run_strategy catalyst_ffmpeg_dominance s = start_one_upload_job pipe_ffmpeg false s
  run_strategy fallback_external s =
      let r = start_one_upload_job pipe_ffmpeg true s in
      after_ffmpeg (receive r.1.job.info.result) r
  run_strategy (other name) s = (unfinished, s)

  module _ (parse_float : String → Option ℕ) (strategy : Strategy) where
    -- `startUploadJob`
    unfoldable pub start_pipelines : State → Finish × State
    unfolding run_strategy job_strategy
    start_pipelines s =
        let (supported, chosen) =
          check_livepeer_compatible parse_float (job_strategy strategy s)
            s.job.payload.input_file_info in
        run_strategy chosen (record s { job = record (s.job) { livepeer_supported = supported } })
