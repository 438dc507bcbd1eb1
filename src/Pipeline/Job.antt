-- ===== src/Pipeline/Job.antt =====
-- pipeline/coordinator.go and pipeline/handler.go: the data of an upload job, the handlers of the
-- pipelines, and the state that the coordinator keeps around one job.
use dms_api.Prelude.{ℕ, String, Bool, Option, List}
use dms_api.Prelude.Int.{ℤ}
use dms_api.Cache.{Cache}
use dms_api.Errors.{Error}
use dms_api.Callback.Status.{Message}
use dms_api.Video.Tracks.{InputVideo, OutputVideo}
use dms_api.Video.Profiles.{EncodedProfile}
use dms_api.Pipeline.Strategy.{Strategy}
use dms_api.Pipeline.Mp4.{Url}

-- video/clip.go, with times in milliseconds.
pub record ClipStrategy : Type 0 where
  pub enabled : Bool
  pub start_time : ℕ
  pub end_time : ℕ
  pub playback_id : String

-- A nil URL, slice or pointer is `none`.
pub record UploadJobPayload : Type 0 where
  pub source_file : String
  pub callback_url : String
  pub hls_target_url : Option Url
  pub mp4_target_url : Option Url
  pub frag_mp4_target_url : Option Url
  pub clip_target_url : Option Url
  pub thumbnails_target_url : Option Url
  pub mp4_only_short : Bool
  pub access_token : String
  pub transcode_api_url : String
  pub hardcoded_broadcasters : String
  pub request_id : String
  pub external_id : String
  pub profiles : Option (List EncodedProfile)
  pub pipeline_strategy : Strategy
  pub target_segment_size_secs : ℕ
  pub generate_mp4 : Bool
  -- the encrypted key of an `EncryptionPayload`
  pub encryption : Option String
  pub input_file_info : InputVideo
  pub source_copy : Bool
  pub clip_strategy : ClipStrategy
  pub c2pa : Bool

pub record UploadJobResult : Type 0 where
  pub input_video : InputVideo
  pub outputs : List OutputVideo

pub record HandlerOutput : Type 0 where
  pub continue : Bool
  pub result : Option UploadJobResult

-- How a handler ends: it returns an output and an error, nil or not, or it panics.
pub data Outcome : Type 0 where
  returns : Option HandlerOutput → Option Error → Outcome
  panics : String → Outcome

-- The two handlers of a coordinator.
pub data Pipe : Type 0 where
  pipe_ffmpeg pipe_external : Pipe

-- `chan bool` with room for one value: nil, or made, with what it holds and whether it is closed.
pub data Channel : Type 0 where
  nil_channel : Channel
  chan : Option Bool → Bool → Channel

pub record PipelineInfo : Type 0 where
  pub start_time : ℕ
  pub result : Channel
  pub handler : Option Pipe
  pub has_fallback : Bool
  pub transcoded_segments : ℕ
  pub pipeline : String
  pub state : String

-- What `startOneUploadJob` notes of the source for the metrics.
pub record SourceInfo : Type 0 where
  pub target_segment_size_secs : ℕ
  pub bytes : ℕ
  pub segments : ℕ
  pub duration_ms : ℕ
  pub codec_video : String
  pub codec_audio : String
  pub width : ℕ
  pub height : ℕ
  pub fps : ℕ × ℕ
  pub bitrate_video : ℕ
  pub bitrate_audio : ℕ
  pub channels : ℕ
  pub sample_rate : ℕ
  pub sample_bits : ℕ
  pub video_start_time_us : ℤ
  pub audio_start_time_us : ℤ

-- A `JobInfo`; `address` stands for the pointer to it, which the cache of jobs holds.
pub record JobInfo : Type 0 where
  pub address : ℕ
  pub payload : UploadJobPayload
  pub info : PipelineInfo
  pub source : SourceInfo
  pub stream_name : String
  pub segmenting_target_url : String
  pub download_done : ℕ
  pub segmenting_done : ℕ
  pub transcoding_done : ℕ
  pub source_playback_done : ℕ
  pub catalyst_region : String
  pub num_profiles : ℕ
  pub in_fallback_mode : Bool
  pub signed_source_url : String
  pub livepeer_supported : Bool
  pub c2pa : Bool

-- The columns of a row of `vod_completed` that the program computes from more than one field.
pub record Row : Type 0 where
  pub request_id : String
  pub pipeline : String
  pub state : String
  pub profiles_count : ℕ
  pub transcoded_segment_count : ℕ
  pub in_fallback_mode : Bool
  pub is_clip : Bool
  pub is_thumbs : Bool

-- The labels of a sample of `VODPipelineMetrics`.
pub record Labels : Type 0 where
  pub codec_video : String
  pub codec_audio : String
  pub pipeline : String
  pub region : String
  pub num_profiles : ℕ
  pub state : String
  pub in_fallback_mode : Bool
  pub livepeer_supported : Bool
  pub is_clip : Bool
  pub is_thumbs : Bool

-- The state around one job: the job, the cache of jobs, the status messages handed to the status
-- client, oldest first, the rows written, the metrics samples, and the gauge of jobs in flight.
pub record State : Type 0 where
  pub job : JobInfo
  pub jobs : Cache ℕ
  pub sent : List Message
  pub rows : List Row
  pub samples : List Labels
  pub jobs_in_flight : ℕ

-- `HandleStartUploadJob` of a handler.
abbrev pub Handle : Type 0
Handle = State → Outcome × State
