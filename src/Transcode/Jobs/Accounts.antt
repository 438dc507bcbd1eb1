-- ===== src/Transcode/Jobs/Accounts.antt =====
-- Every segment is accounted for, at each moment of every schedule.
use dms_api.Prelude.{
  ℕ, zero, suc, ◌+◌, ◌≤◌, ◌≡◌, refl, ap, String, true, false, Option, none, some, List, [], ◌∷◌,
  arith, if◌then◌else◌, length, length-append,
}
use dms_api.Errors.{Error}
use dms_api.Transcode.Jobs.{
  receive, SegmentInfo, Shared, Worker, idle, received, working, succeeded, failing, reporting,
  finished, System, worker_step, step_at, move, run, start, repeat_idle, post_segments,
  new_parallel_transcoding,
}

-- A worker that holds a segment, or has just failed at one.
abbrev pub holds : Worker → ℕ
holds idle = 0
holds (received s) = 1
holds (working s) = 1
holds (succeeded s) = 1
holds (failing e) = 1
holds (reporting e) = 0
holds finished = 0

-- A worker with an error that is not sent yet, behind `Stop`.
abbrev pub reports : Worker → ℕ
reports (reporting e) = 1
reports _ = 0

abbrev pub ends : Worker → ℕ
ends finished = 1
ends _ = 0

unfoldable pub sum_of : (Worker → ℕ) → List Worker → ℕ
sum_of f [] = 0
sum_of f (w ∷ ws) = f w + sum_of f ws

abbrev pub stopped : Shared → ℕ
stopped s = if s.is_running then 0 else 1

-- `h`, `r`, `e` count the workers that hold a segment, report an error, and are finished.
pub record IsBalanced (h r e : ℕ) (s : Shared) : Type 0 where
  -- Segments are in the queue, held, or counted as completed; an error has used up another one.
  pub bound : length s.queue + h + s.completed_segments + stopped s ≤ s.total_segments
  pub exact : s.is_running ≡ true → length s.queue + h + s.completed_segments ≡ s.total_segments
  -- A stopped system has an error, sent or about to be.
  pub cause : s.is_running ≡ false → 1 ≤ r + length s.errors
  pub quiet : s.is_running ≡ true → (r ≡ 0) × (length s.errors ≡ 0)
  -- While nothing failed, a worker ends only with the queue empty.
  pub drained : s.is_running ≡ true → 1 ≤ e → length s.queue ≡ 0

receive-IsBalanced :
    (q : List SegmentInfo) (s : Shared) (h r e : ℕ)
    → s.queue ≡ q
    → IsBalanced h r e s
    → IsBalanced
        (holds (receive q s).0 + h)
        (reports (receive q s).0 + r)
        (ends (receive q s).0 + e)
        (receive q s).1
unfolding receive
receive-IsBalanced [] s h r e p b = ground arith
receive-IsBalanced (g ∷ q) s h r e p b = ground (arith, ap (length {0}) p)

worker-IsBalanced :
    (x : Option Error) (w : Worker) (s : Shared) (h r e : ℕ)
    → IsBalanced (holds w + h) (reports w + r) (ends w + e) s
    → IsBalanced
        (holds (worker_step x w s).0 + h)
        (reports (worker_step x w s).0 + r)
        (ends (worker_step x w s).0 + e)
        (worker_step x w s).1
unfolding worker_step
worker-IsBalanced x idle s h r e b = receive-IsBalanced s.queue s h r e refl (ground arith)
worker-IsBalanced none (working g) s h r e b = ground arith
worker-IsBalanced (some x) (working g) s h r e b = ground arith
worker-IsBalanced x (reporting g) s h r e b = ground (arith, length-append s.errors (g ∷ []))
worker-IsBalanced x _ s h r e b = ground arith

-- The workers of a system and what they share are balanced.
abbrev pub IsSound : List Worker → Shared → Type 0
IsSound ws s = IsBalanced (sum_of holds ws) (sum_of reports ws) (sum_of ends ws) s

recount :
    (h r e h' r' e' : ℕ) (s : Shared)
    → h ≡ h'
    → r ≡ r'
    → e ≡ e'
    → IsBalanced h r e s
    → IsBalanced h' r' e' s
recount h r e h' r' e' s p q k b = ground arith

-- The same with workers that stand before the list.
step_at-IsBalanced :
    (i : ℕ) (x : Option Error) (ws : List Worker) (s : Shared) (h r e : ℕ)
    → IsBalanced (sum_of holds ws + h) (sum_of reports ws + r) (sum_of ends ws + e) s
    → IsBalanced
        (sum_of holds (step_at i x ws s).0 + h)
        (sum_of reports (step_at i x ws s).0 + r)
        (sum_of ends (step_at i x ws s).0 + e)
        (step_at i x ws s).1
unfolding step_at sum_of
step_at-IsBalanced i x [] s h r e b = b
step_at-IsBalanced zero x (w ∷ ws) s h r e b =
    recount _ _ _ _ _ _ (worker_step x w s).1 (omega arith) (omega arith) (omega arith) (
      worker-IsBalanced x w s (sum_of holds ws + h) (sum_of reports ws + r) (sum_of ends ws + e)
        (recount _ _ _ _ _ _ s (omega arith) (omega arith) (omega arith) b))
step_at-IsBalanced (suc i) x (w ∷ ws) s h r e b =
    recount _ _ _ _ _ _ (step_at i x ws s).1 (omega arith) (omega arith) (omega arith) (
      step_at-IsBalanced i x ws s (holds w + h) (reports w + r) (ends w + e)
        (recount _ _ _ _ _ _ s (omega arith) (omega arith) (omega arith) b))

move-IsSound :
    (m : ℕ × Option Error) (t : System)
    → IsSound t.workers t.shared
    → IsSound (move m t).workers (move m t).shared
unfolding move
move-IsSound (i, x) t b =
    recount _ _ _ _ _ _ (step_at i x t.workers t.shared).1 (omega arith) (omega arith) (omega arith)
      (step_at-IsBalanced i x t.workers t.shared 0 0 0
        (recount _ _ _ _ _ _ t.shared (omega arith) (omega arith) (omega arith) b))

run-IsSound :
    (ms : List (ℕ × Option Error)) (t : System)
    → IsSound t.workers t.shared
    → IsSound (run ms t).workers (run ms t).shared
unfolding run
run-IsSound [] t b = b
run-IsSound (m ∷ ms) t b = run-IsSound ms (move m t) (move-IsSound m t b)

pub length-post_segments :
    (total i : ℕ) (us : List String) → length (post_segments total i us) ≡ length us
unfolding post_segments
length-post_segments total i [] = refl
length-post_segments total i (u ∷ us) = ap suc (length-post_segments total (i + 1) us)

idle_sums :
    (n : ℕ)
    → (sum_of holds (repeat_idle n) ≡ 0)
      × (sum_of reports (repeat_idle n) ≡ 0)
      × (sum_of ends (repeat_idle n) ≡ 0)
unfolding repeat_idle sum_of
idle_sums zero = (refl, refl, refl)
idle_sums (suc n) = omega (arith, idle_sums n)

start-IsSound : (n : ℕ) (urls : List String) → IsSound (start n urls).workers (start n urls).shared
unfolding start new_parallel_transcoding
start-IsSound n urls = ground (arith, idle_sums n, length-post_segments (length urls) 0 urls)

-- Whatever the schedule and the errors of the work, the workers never count more segments as
-- completed than there are, and the segments in the queue, held by workers and completed are all of
-- them as long as nothing failed.
pub run-start-IsSound :
    (n : ℕ) (urls : List String) (ms : List (ℕ × Option Error))
    → IsSound (run ms (start n urls)).workers (run ms (start n urls)).shared
run-start-IsSound n urls ms = run-IsSound ms (start n urls) (start-IsSound n urls)
