-- ===== src/Transcode/Jobs/Ending.antt =====
-- How the parallel work ends.
use dms_api.Prelude.{
  ℕ, zero, suc, ◌≤◌, ◌<◌, ◌≡◌, ◌≢◌, refl, ap, ◌∙◌, String, true, Option, none, List, [], ◌∷◌, arith,
  length,
}
use dms_api.Errors.{Error}
use dms_api.Transcode.Jobs.{
  receive, SegmentInfo, Shared, Worker, idle, finished, System, worker_step, step_at, move, run,
  start, repeat_idle, new_parallel_transcoding, all_finished, WaitReturns,
}
use dms_api.Transcode.Jobs.Accounts.{holds, reports, ends, sum_of, IsBalanced, run-start-IsSound}

-- Finished workers hold and report nothing.
finished_sums :
    (ws : List Worker)
    → all_finished ws ≡ true
    → (sum_of holds ws ≡ 0) × (sum_of reports ws ≡ 0) × (sum_of ends ws ≡ length ws)
unfolding all_finished sum_of
finished_sums [] h = (refl, refl, refl)
finished_sums (finished ∷ ws) h = omega (arith, finished_sums ws h)
finished_sums (_ ∷ ws) h = cc

length-step_at :
    (i : ℕ) (x : Option Error) (ws : List Worker) (s : Shared)
    → length (step_at i x ws s).0 ≡ length ws
unfolding step_at
length-step_at i x [] s = refl
length-step_at zero x (w ∷ ws) s = refl
length-step_at (suc i) x (w ∷ ws) s = ap suc (length-step_at i x ws s)

length-run :
    (ms : List (ℕ × Option Error)) (t : System) → length (run ms t).workers ≡ length t.workers
unfolding run move
length-run [] t = refl
length-run ((i, x) ∷ ms) t = length-run ms (move (i, x) t) ∙ length-step_at i x t.workers t.shared

total-step :
    (x : Option Error) (w : Worker) (s : Shared)
    → (worker_step x w s).1.total_segments ≡ s.total_segments
unfolding worker_step
total-step x idle s = received_total s.queue
  where
    received_total : (q : List SegmentInfo) → (receive q s).1.total_segments ≡ s.total_segments
    received_total [] = refl
    received_total (g ∷ q) = refl
total-step x _ s = ground arith

total-step_at :
    (i : ℕ) (x : Option Error) (ws : List Worker) (s : Shared)
    → (step_at i x ws s).1.total_segments ≡ s.total_segments
unfolding step_at
total-step_at i x [] s = refl
total-step_at zero x (w ∷ ws) s = total-step x w s
total-step_at (suc i) x (w ∷ ws) s = total-step_at i x ws s

pub total-run :
    (ms : List (ℕ × Option Error)) (t : System)
    → (run ms t).shared.total_segments ≡ t.shared.total_segments
unfolding run move
total-run [] t = refl
total-run ((i, x) ∷ ms) t = total-run ms (move (i, x) t) ∙ total-step_at i x t.workers t.shared

length-repeat_idle : (n : ℕ) → length (repeat_idle n) ≡ n
unfolding repeat_idle
length-repeat_idle zero = refl
length-repeat_idle (suc n) = ap suc (length-repeat_idle n)

length-ne_nil : (es : List Error) → es ≢ [] → 1 ≤ length es
length-ne_nil [] n = absurd (n refl)
length-ne_nil (e ∷ es) n = omega arith

final_count :
    (h r e : ℕ) (s : Shared)
    → IsBalanced h r e s
    → h ≡ 0
    → r ≡ 0
    → 1 ≤ e
    → (s.errors ≡ [] → s.completed_segments ≡ s.total_segments)
      × (s.errors ≢ [] → s.completed_segments < s.total_segments)
final_count h r e s b p q k =
    (λ n. ground (arith, ap (length {0}) n), λ n. ground (arith, length-ne_nil s.errors n))

-- When all the workers, one at least, are finished, every segment is counted as completed exactly
-- if no error was reported; with an error some segment is missing, and then `Wait` may return nil
-- as well as the error.
pub all_done_iff :
    (n : ℕ) (urls : List String) (ms : List (ℕ × Option Error))
    → all_finished (run ms (start (suc n) urls)).workers ≡ true
    → ((run ms (start (suc n) urls)).shared.errors ≡ []
        → (run ms (start (suc n) urls)).shared.completed_segments ≡ length urls)
      × ((run ms (start (suc n) urls)).shared.errors ≢ []
          → ((run ms (start (suc n) urls)).shared.completed_segments < length urls)
            × WaitReturns (run ms (start (suc n) urls)) none)
unfolding start new_parallel_transcoding
all_done_iff n urls ms h =
    let t = run ms (start (suc n) urls) in
    let b = run-start-IsSound (suc n) urls ms in
    let sums = finished_sums t.workers h in
    let len = length-run ms (start (suc n) urls) ∙ ap suc (length-repeat_idle n) in
    let total = total-run ms (start (suc n) urls) in
    let counts =
      final_count (sum_of holds t.workers) (sum_of reports t.workers) (sum_of ends t.workers)
        t.shared b sums.0 sums.1 (omega (arith, sums.2, len)) in
    (λ e. counts.0 e ∙ total, λ e. (omega (arith, counts.1 e, total), WaitReturns.completed h))
