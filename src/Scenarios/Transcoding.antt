-- ===== src/Scenarios/Transcoding.antt =====
-- Parallel transcoding at a concrete schedule.
use dms_api.Prelude.{
  ℕ, ◌+◌, ◌*◌, ◌≤◌, ◌<◌, ◌≡◌, ◌≢◌, refl, String, true, false, Option, none, some, List, [], ◌∷◌,
  length,
}
use dms_api.Errors.{Error, plain}
use dms_api.Transcode.Jobs.{
  System, run, start, move, step_at, worker_step, all_finished, WaitReturns,
}
use dms_api.Transcode.Jobs.Accounts.{IsSound, run-start-IsSound}
use dms_api.Transcode.Jobs.Ending.{all_done_iff}
use dms_api.Transcode.Jobs.Termination.{is_active, is_busy, work_ends}

abbrev segments : List String
segments = "0.ts" ∷ "1.ts" ∷ "2.ts" ∷ []

-- Worker 1 fails on its segment while worker 0 has received another.
abbrev failing_schedule : List (ℕ × Option Error)
failing_schedule =
    (1, none)
    ∷ (1, none)
    ∷ (1, some (plain "no transcoder"))
    ∷ (0, none)
    ∷ (1, none)
    ∷ (0, none)
    ∷ (1, none)
    ∷ []

abbrev failed_system : System
failed_system = run failing_schedule (start 2 segments)

run-start-IsSound_example : IsSound failed_system.workers failed_system.shared
run-start-IsSound_example = run-start-IsSound 2 segments failing_schedule

all_done_iff_example :
    (failed_system.shared.errors ≡ [] → failed_system.shared.completed_segments ≡ length segments)
    × (failed_system.shared.errors ≢ []
        → (failed_system.shared.completed_segments < length segments)
          × WaitReturns failed_system none)
unfolding all_finished run move step_at start worker_step
all_done_iff_example = all_done_iff 1 segments failing_schedule all_over
  where
    all_over : all_finished failed_system.workers ≡ true
    all_over = refl

work_ends_example :
    (length failing_schedule ≤ 6 * length segments + 2)
    × (all_finished failed_system.workers ≡ false
        → (i : ℕ) × (is_active i failed_system.workers ≡ true))
unfolding is_busy is_active start move step_at worker_step
work_ends_example = work_ends 2 segments failing_schedule refl
