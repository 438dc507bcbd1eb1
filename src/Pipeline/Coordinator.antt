-- ===== src/Pipeline/Coordinator.antt =====
-- pipeline/coordinator.go: running a handler, finishing a job, and the choice of pipelines with the
-- fallback. A handler runs with the job's lock held, and the next one starts when the lock is given
-- back, so a job's handlers run one after another and each is one function on the state. `blocked`
-- is a goroutine that waits for ever.
use dms_api.Prelude.{
  ℕ, String, concat, Bool, true, false, Option, none, some, [], ◌∷◌, if◌then◌else◌, length,
}
use dms_api.Errors.{Error, plain, message, is_unretriable}
use dms_api.Callback.Status.{Message, new_error, new_completed}
use dms_api.Pipeline.Mp4.{is_set}
use dms_api.Pipeline.Job.{
  HandlerOutput, Outcome, returns, panics, Channel, nil_channel, chan, JobInfo, Row, Labels,
}

-- `recovered`: a panic becomes an error.
unfoldable pub recovered : Outcome → Option HandlerOutput × Option Error
recovered (returns out err) = (out, err)
recovered (panics rec) = (none, some (plain (concat "panic in pipeline handler: " rec)))

-- How a background run of a handler ends: the job goes on, is finished, waits for ever on a nil
-- channel, or the code that finishes it panicked.
pub data Finish : Type 0 where
  unfinished finished blocked panicked : Finish

-- `job.result <- success`, then the deferred `close(job.result)`. A send on a nil channel, or on a
-- full one, waits for ever; a send on a closed one panics.
unfoldable pub send_result : Bool → Channel → Finish × Channel
send_result success nil_channel = (blocked, nil_channel)
send_result success (chan held true) = (panicked, chan held true)
send_result success (chan none false) = (finished, chan (some success) true)
send_result success (chan (some held) false) = (blocked, chan (some held) false)

-- The deferred `close(job.result)` while the function panics.
unfoldable pub close_channel : Channel → Channel
close_channel nil_channel = nil_channel
close_channel (chan held closed) = chan held true

unfoldable pub get_profile_count : Option HandlerOutput → ℕ
get_profile_count none = 0
get_profile_count (some out) = elim out.result [
  | none ↦ 0
  | some r ↦ elim r.outputs [ [] ↦ 0 | o ∷ os ↦ length o.videos ]
]

unfoldable pub with_state : String → JobInfo → JobInfo
with_state st j = record j { info = record (j.info) { state = st } }

unfoldable pub with_result : Channel → JobInfo → JobInfo
with_result ch j = record j { info = record (j.info) { result = ch } }

unfoldable pub row_of : JobInfo → Option HandlerOutput → Row
row_of job out = record {
  request_id =
      if job.in_fallback_mode then concat "fb_" job.payload.request_id else job.payload.request_id;
  pipeline = job.info.pipeline;
  state = job.info.state;
  profiles_count = get_profile_count out;
  transcoded_segment_count = job.info.transcoded_segments;
  in_fallback_mode = job.in_fallback_mode;
  is_clip = job.payload.clip_strategy.enabled;
  is_thumbs = is_set job.payload.thumbnails_target_url;
}

unfoldable pub labels_of : JobInfo → Labels
labels_of job = record {
  codec_video = job.source.codec_video;
  codec_audio = job.source.codec_audio;
  pipeline = job.info.pipeline;
  region = job.catalyst_region;
  num_profiles = job.num_profiles;
  state = job.info.state;
  in_fallback_mode = job.in_fallback_mode;
  livepeer_supported = job.livepeer_supported;
  is_clip = job.payload.clip_strategy.enabled;
  is_thumbs = is_set job.payload.thumbnails_target_url;
}

unfoldable pub is_none {ℓ} : {A : Type ℓ} → Option A → Bool
is_none none = true
is_none (some _) = false

-- The final message of `finishJob` with the state that the job gets, or `none` where `out.Result`
-- is nil and its use panics.
unfoldable pub final_message :
    ℕ → JobInfo → Option HandlerOutput → Option Error → Option (Message × String)
final_message now job out (some err) = some (
  new_error now (if job.info.has_fallback then "" else job.payload.callback_url)
      job.payload.request_id (message err) (is_unretriable err),
  "failed",
)
final_message now job none none = none
final_message now job (some out) none = elim out.result [
  | none ↦ none
  | some r ↦ some (
    new_completed now job.payload.callback_url job.payload.request_id r.input_video r.outputs,
    "completed",
  )
]
