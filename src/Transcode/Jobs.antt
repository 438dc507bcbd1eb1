-- ===== src/Transcode/Jobs.antt =====
-- transcode/transcode_jobs.go: `ParallelTranscoding`, a queue of segments and workers that take
-- from it in parallel. A worker is a small state machine, one state for each point at which others
-- may run between its accesses to what is shared; a schedule says which worker moves next, and what
-- the work function returned where it is at its call. The work function itself is not modelled: of
-- its effects only its error counts here.
pub mod Accounts
pub mod Ending
pub mod Termination
use dms_api.Prelude.{
  ℕ, zero, suc, ◌+◌, ◌-◌, ◌≡◌, String, Bool, true, false, Option, none, some, List, [], ◌∷◌, ◌++◌,
  ◌==◌, if◌then◌else◌, length,
}
use dms_api.Errors.{Error}

-- `segmentInfo`, with the segment's URL.
pub record SegmentInfo : Type 0 where
  pub input : String
  pub index : ℕ
  pub is_last_segment : Bool

-- What the workers share. The channel `errors` has room for a hundred errors, and a worker sends
-- one at most: with no more than a hundred workers no send waits.
pub record Shared : Type 0 where
  pub queue : List SegmentInfo
  pub errors : List Error
  pub is_running : Bool
  pub total_segments : ℕ
  pub completed_segments : ℕ

-- The loop of `NewParallelTranscoding`: the segments from an index on.
unfoldable pub post_segments : ℕ → ℕ → List String → List SegmentInfo
post_segments total i [] = []
post_segments total i (u ∷ us) =
    record { input = u; index = i; is_last_segment = i == total - 1 }
    ∷ post_segments total (i + 1) us

unfoldable pub new_parallel_transcoding : List String → Shared
unfolding post_segments
new_parallel_transcoding urls = record {
  queue = post_segments (length urls) 0 urls;
  errors = [];
  is_running = true;
  total_segments = length urls;
  completed_segments = 0;
}

-- Where a worker is in `workerRoutine`: before the receive, before the test of `IsRunning`, at the
-- call of the work function, before `segmentCompleted`, before `Stop`, before the send of its
-- error, and behind its end.
pub data Worker : Type 0 where
  idle : Worker
  received working succeeded : SegmentInfo → Worker
  failing reporting : Error → Worker
  finished : Worker

-- `Stop`
unfoldable pub stop : Shared → Shared
stop s = record s { is_running = false }

-- `segmentCompleted`: in case of error further progress is denied.
unfoldable pub segment_completed : Shared → Shared
segment_completed s =
    if s.is_running then record s { completed_segments = s.completed_segments + 1 } else s

-- The receive from the closed queue: its end ends the loop.
receive : List SegmentInfo → Shared → Worker × Shared
receive [] s = (finished, s)
receive (segment ∷ queue) s = (received segment, record s { queue = queue })

-- The result of the work function.
worked : SegmentInfo → Option Error → Worker
worked segment none = succeeded segment
worked segment (some e) = failing e

-- One step of `workerRoutine`.
unfoldable pub worker_step : Option Error → Worker → Shared → Worker × Shared
unfolding receive worked stop segment_completed
worker_step r idle s = receive s.queue s
worker_step r (received segment) s = if s.is_running then (working segment, s) else (finished, s)
worker_step r (working segment) s = (worked segment r, s)
worker_step r (succeeded segment) s = (idle, segment_completed s)
worker_step r (failing e) s = (reporting e, stop s)
worker_step r (reporting e) s = (finished, record s { errors = s.errors ++ e ∷ [] })
worker_step r finished s = (finished, s)

pub record System : Type 0 where
  pub workers : List Worker
  pub shared : Shared

-- A move of one worker of the list; no worker stands at a number past its end.
unfoldable pub step_at : ℕ → Option Error → List Worker → Shared → List Worker × Shared
step_at i r [] s = ([], s)
step_at zero r (w ∷ ws) s = let (w', s') = worker_step r w s in (w' ∷ ws, s')
step_at (suc i) r (w ∷ ws) s = let (ws', s') = step_at i r ws s in (w ∷ ws', s')

unfoldable pub move : ℕ × Option Error → System → System
move (i, r) t = let (ws, s) = step_at i r t.workers t.shared in record { workers = ws; shared = s }

unfoldable pub run : List (ℕ × Option Error) → System → System
run [] t = t
run (m ∷ ms) t = run ms (move m t)

repeat_idle : ℕ → List Worker
repeat_idle zero = []
repeat_idle (suc n) = idle ∷ repeat_idle n

-- `Start`, with its number of workers (`config.TranscodingParallelJobs`).
unfoldable pub start : ℕ → List String → System
unfolding repeat_idle new_parallel_transcoding
start n urls = record { workers = repeat_idle n; shared = new_parallel_transcoding urls }

unfoldable pub all_finished : List Worker → Bool
all_finished [] = true
all_finished (finished ∷ ws) = all_finished ws
all_finished (_ ∷ ws) = false

-- What `Wait` may return: nil when every worker is finished, and the first error when there is one.
-- When both hold, `select` takes either.
pub data WaitReturns (t : System) : Option Error → Type 0 where
  completed : all_finished t.workers ≡ true → WaitReturns t none
  first_error : (e : Error) (es : List Error) → t.shared.errors ≡ e ∷ es → WaitReturns t (some e)
