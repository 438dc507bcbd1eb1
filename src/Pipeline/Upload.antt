-- ===== src/Pipeline/Upload.antt =====
-- pipeline/coordinator.go, `StartUploadJob`: the job is stored, its source is fetched, and then its
-- pipelines are started. Everything outside this file is a field of `Sources`: URLs, the check for
-- a backup bucket, the clipping of a manifest, the copy to storage, and the probe.
pub mod Failure
use dms_api.Prelude.{
  ℕ, zero, suc, ◌+◌, String, concat, Bool, false, not, ◌&&◌, Option, none, some, List, ltb,
  if◌then◌else◌, length,
}
use dms_api.Prelude.Int.{pos}
use dms_api.Video.Profiles.{EncodedProfile}
use dms_api.Errors.{Error, plain, wrapped}
use dms_api.Result.{Result, ok, err, ◌>>=◌}
use dms_api.Callback.Ratio.{Ratio, zero_ratio}
use dms_api.Callback.Status.{Message, preparing}
use dms_api.Video.Tracks.{
  InputTrack, InputVideo, TrackResult, found, track_error, track_type_video, get_track, set_track,
}
use dms_api.Pipeline.Strategy.{Strategy}
use dms_api.Pipeline.Mp4.{Url, is_hls_input, should_generate_mp4}
use dms_api.Pipeline.Job.{
  UploadJobPayload, HandlerOutput, Pipe, Channel, nil_channel, PipelineInfo, SourceInfo, JobInfo,
  Row, Labels, State, Handle,
}
use dms_api.Pipeline.Coordinator.{Finish}
use dms_api.Pipeline.Run.{report_progress, store_job, finish_job, start_pipelines}

pub record Sources : Type 0 where
  pub parse_url : String → Result Url
  -- `SourceOutputURL.JoinPath(requestID, "transfer", path.Base(path))`
  pub transfer_url : String → String → Url
  pub join_path : Url → String → Url
  -- `RecordingBackupCheck`
  pub recording_backup_check : String → Url → Url → Result Url
  -- `ClipInputManifest`, on each attempt
  pub clip_input_manifest : ℕ → UploadJobPayload → Url → Result Url
  -- `backoff.Permanent`: an error that ends the retries
  pub is_permanent : Error → Bool
  -- `CopyInputToS3`, with the encrypted key of a decryptor
  pub copy_input : String → Url → Url → Option String → Result (InputVideo × String)
  -- `Probe.ProbeFile`
  pub probe_file : String → Result InputVideo

-- The outcome of one attempt, and what `backoff.Retry` does next.
next_attempt : Sources → Result Url → Result Url → Result Url
next_attempt src (ok url) later = ok url
next_attempt src (err e) later = if src.is_permanent e then err e else later

-- `backoff.Retry`: until an attempt succeeds, or fails for good, or no retry is left.
unfoldable pub clip_with_retries : Sources → UploadJobPayload → Url → ℕ → ℕ → Result Url
unfolding next_attempt
clip_with_retries src p source zero attempt = src.clip_input_manifest attempt p source
clip_with_retries src p source (suc retries) attempt =
    let later = clip_with_retries src p source retries (attempt + 1) in
    next_attempt src (src.clip_input_manifest attempt p source) later

-- `ClippingRetryBackoff`
abbrev pub max_clip_retries : ℕ
max_clip_retries = 10

-- The source URL of an HLS input: of its backup, or of its clip.
unfoldable pub hls_source : Sources → UploadJobPayload → Url → Url → Result Url
unfolding clip_with_retries
hls_source src p source transfer =
    if p.clip_strategy.enabled
    then clip_with_retries src p source max_clip_retries 0
    else src.recording_backup_check p.request_id source (src.join_path transfer "..")

-- `fmt.Errorf("…%w", err)` on the error.
with_context {ℓ} : {A : Type ℓ} → String → Result A → Result A
with_context msg (ok a) = ok a
with_context msg (err e) = err (wrapped msg e)

-- `HlsTargetURL.JoinPath("video")`, which panics for a nil URL; `recovered` makes that an error.
copy_target : Sources → Option Url → Result Url
copy_target src (some u) = ok (src.join_path u "video")
copy_target src none =
    err (plain "panic in pipeline handler: invalid memory address or nil pointer dereference")

-- The source URL and the URL to copy it to.
unfoldable pub locate : Sources → UploadJobPayload → Url → Url → Result (Url × Url)
unfolding hls_source copy_target
locate src p source transfer =
    if is_hls_input source
    then (do u ← hls_source src p source transfer; ok (u, u))
    else if p.source_copy
    then (do u ← copy_target src p.hls_target_url; ok (source, u))
    else ok (source, transfer)

-- The size of the first video track of the original manifest, put into the probed track.
with_size_of : InputVideo → InputTrack → Result InputVideo → InputVideo
with_size_of iv track (err e) = iv
with_size_of iv track (ok original) = elim (get_track original track_type_video) [
  | track_error e ↦ iv
  | found new ↦ (set_track iv track_type_video (record track { video_track = new.video_track })).0
]

-- `checkClipResolution`
unfoldable pub check_clip_resolution : Sources → UploadJobPayload → InputVideo → Url → InputVideo
unfolding with_size_of
check_clip_resolution src p iv original =
    if not p.clip_strategy.enabled then iv else elim (get_track iv track_type_video) [
      | track_error e ↦ iv
      | found track ↦
          if ltb 0 track.video_track.height && ltb 0 track.video_track.width
          then iv
          else with_size_of iv track (src.probe_file original.text)
    ]

-- What the handler of `StartUploadJob` writes to the job before it starts the pipelines.
unfoldable pub with_source : Bool → ℕ → Url → Url → InputVideo → String → JobInfo → JobInfo
with_source has_c2pa time source transfer iv signed job =
    let p = job.payload in
    let mp4 =
      (should_generate_mp4 source p.mp4_target_url p.frag_mp4_target_url p.mp4_only_short
        iv.duration_us).0 in
    record job {
      c2pa = if p.c2pa then has_c2pa else job.c2pa;
      payload = record p { source_file = transfer.text; input_file_info = iv; generate_mp4 = mp4 };
      signed_source_url = signed;
      download_done = time;
    }

-- The handler of `StartUploadJob` up to the call of `startUploadJob`.
unfoldable pub fetch_source : Sources → Bool → ℕ → JobInfo → Result JobInfo
unfolding locate with_context check_clip_resolution with_source
fetch_source src has_c2pa time job = do
  original ← with_context "error parsing source as url: " (src.parse_url job.payload.source_file)
  (source, transfer) ←
      locate src job.payload original (src.transfer_url job.payload.request_id original.path)
  (probed, signed) ←
      with_context "error copying input to storage: "
        (src.copy_input job.payload.request_id source transfer job.payload.encryption)
  ok (
      with_source has_c2pa time source transfer
        (check_clip_resolution src job.payload probed original) signed job)

-- config/stream_names.go
abbrev pub segmenting_prefix : String
segmenting_prefix = "catalyst_vod_"

unfoldable pub segmenting_stream_name : String → String
segmenting_stream_name request_id = concat segmenting_prefix request_id

count_profiles : Option (List EncodedProfile) → ℕ
count_profiles none = 0
count_profiles (some ps) = length ps

abbrev no_source : SourceInfo
no_source = record {
  target_segment_size_secs = 0;
  bytes = 0;
  segments = 0;
  duration_ms = 0;
  codec_video = "";
  codec_audio = "";
  width = 0;
  height = 0;
  fps = (0, 1);
  bitrate_video = 0;
  bitrate_audio = 0;
  channels = 0;
  sample_rate = 0;
  sample_bits = 0;
  video_start_time_us = pos 0;
  audio_start_time_us = pos 0;
}

-- The job that `StartUploadJob` makes: its result channel is nil until a pipeline starts.
unfoldable pub new_job : ℕ → String → ℕ → UploadJobPayload → JobInfo
unfolding count_profiles segmenting_stream_name
new_job address region time p = record {
  address = address;
  payload = p;
  info = record {
    start_time = time;
    result = nil_channel;
    handler = none;
    has_fallback = false;
    transcoded_segments = 0;
    pipeline = "";
    state = "segmenting";
  };
  source = no_source;
  stream_name = segmenting_stream_name p.request_id;
  segmenting_target_url = "";
  download_done = 0;
  segmenting_done = 0;
  transcoding_done = 0;
  source_playback_done = 0;
  catalyst_region = region;
  num_profiles = count_profiles p.profiles;
  in_fallback_mode = false;
  signed_source_url = "";
  livepeer_supported = false;
  c2pa = false;
}

-- The new job, announced to the caller and stored: the state in which its source is fetched.
unfoldable pub stored : (State → ℕ) → ℕ → String → UploadJobPayload → State → State
stored now address region p s =
    let s1 = record s { job = new_job address region (now s) p } in
    store_job (report_progress (now s1) preparing zero_ratio s1)

module _ (deliver : List Message → Message → Option Error) (now : State → ℕ) (has_db : Bool)
    (handle : Pipe → Handle) (parse_float : String → Option ℕ) (strategy : Strategy) (src : Sources)
    (has_c2pa : Bool) where
  -- What the background run does with the outcome of the handler: an error finishes the job, and
  -- otherwise the handler itself has started the pipelines.
  unfoldable pub after_fetch : Result JobInfo → State → Finish × State
  after_fetch (err e) s = finish_job deliver now has_db none (some e) s
  after_fetch (ok job) s =
      start_pipelines deliver now has_db handle parse_float strategy (record s { job = job })

  -- `StartUploadJob`, with the state that the coordinator has before: of its job nothing is read.
  unfoldable pub start_upload_job : ℕ → String → UploadJobPayload → State → Finish × State
  start_upload_job address region p s =
      let s' = stored now address region p s in
      after_fetch (fetch_source src has_c2pa (now s') s'.job) s'
