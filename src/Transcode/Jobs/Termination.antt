-- ===== src/Transcode/Jobs/Termination.antt =====
-- Every schedule of the workers comes to an end.
use dms_api.Prelude.{
  ℕ, zero, suc, ◌+◌, ◌*◌, ◌≤◌, ◌≡◌, ◌≢◌, refl, ap, String, Bool, true, false, ◌&&◌, Option, none,
  some, List, [], ◌∷◌, arith, length,
}
use dms_api.Errors.{Error}
use dms_api.Transcode.Jobs.{
  receive, SegmentInfo, Shared, Worker, idle, received, working, succeeded, failing, reporting,
  finished, System, worker_step, step_at, move, run, start, repeat_idle, new_parallel_transcoding,
  all_finished,
}
use dms_api.Transcode.Jobs.Accounts.{sum_of, length-post_segments}

and-left : (a b : Bool) → (a && b) ≡ true → a ≡ true
and-left a b h = ground arith

and-right : (a b : Bool) → (a && b) ≡ true → b ≡ true
and-right a b h = ground arith

-- The moves that are left: each one of a worker that is not finished takes at least one.
abbrev pub weight : Worker → ℕ
weight idle = 1
weight (received g) = 6
weight (working g) = 5
weight (succeeded g) = 4
weight (failing e) = 3
weight (reporting e) = 2
weight finished = 0

abbrev pub measure : System → ℕ
measure t = 6 * length t.shared.queue + sum_of weight t.workers

-- The worker at a number is not finished.
unfoldable pub is_active : ℕ → List Worker → Bool
is_active i [] = false
is_active zero (finished ∷ ws) = false
is_active zero (w ∷ ws) = true
is_active (suc i) (w ∷ ws) = is_active i ws

-- A schedule that never picks a worker that is finished.
unfoldable pub is_busy : List (ℕ × Option Error) → System → Bool
is_busy [] t = true
is_busy (m ∷ ms) t = let rest = is_busy ms (move m t) in is_active m.0 t.workers && rest

weight-step :
    (x : Option Error) (w : Worker) (s : Shared)
    → w ≢ finished
    → 6 * length (worker_step x w s).1.queue + weight (worker_step x w s).0 + 1
      ≤ 6 * length s.queue + weight w
unfolding worker_step
weight-step x idle s n = received_weight s.queue refl
  where
    received_weight :
        (q : List SegmentInfo)
        → s.queue ≡ q
        → 6 * length (receive q s).1.queue + weight (receive q s).0 + 1 ≤ 6 * length s.queue + 1
    received_weight [] p = unfold receive in omega arith
    received_weight (g ∷ q) p = unfold receive in omega (arith, ap (length {0}) p)
weight-step none (working g) s n = omega arith
weight-step (some x) (working g) s n = omega arith
weight-step x finished s n = absurd (n refl)
weight-step x _ s n = ground arith

measure-step_at :
    (i : ℕ) (x : Option Error) (ws : List Worker) (s : Shared)
    → is_active i ws ≡ true
    → 6 * length (step_at i x ws s).1.queue + sum_of weight (step_at i x ws s).0 + 1
      ≤ 6 * length s.queue + sum_of weight ws
unfolding step_at sum_of is_active
measure-step_at i x [] s h = cc
measure-step_at zero x (finished ∷ ws) s h = cc
measure-step_at zero x (w ∷ ws) s h = omega (arith, weight-step x w s (λ e. cc))
measure-step_at (suc i) x (w ∷ ws) s h = omega (arith, measure-step_at i x ws s h)

-- A schedule that only moves workers that are not finished is no longer than the measure.
busy_schedule_bound :
    (ms : List (ℕ × Option Error)) (t : System) → is_busy ms t ≡ true → length ms ≤ measure t
unfolding is_busy move
busy_schedule_bound [] t h = omega arith
busy_schedule_bound (m ∷ ms) t h = omega (
  arith,
  measure-step_at m.0 m.1 t.workers t.shared
      (and-left (is_active m.0 t.workers) (is_busy ms (move m t)) h),
  busy_schedule_bound ms (move m t) (and-right (is_active m.0 t.workers) (is_busy ms (move m t)) h),
)

-- A move can be made as long as some worker is not finished.
pub some_active : (ws : List Worker) → all_finished ws ≡ false → (i : ℕ) × (is_active i ws ≡ true)
unfolding all_finished is_active
some_active [] h = cc
some_active (finished ∷ ws) h = let (i, a) = some_active ws h in (suc i, a)
some_active (idle ∷ ws) h = (0, refl)
some_active (_ ∷ ws) h = (0, refl)

idle_weight : (n : ℕ) → sum_of weight (repeat_idle n) ≡ n
unfolding sum_of repeat_idle
idle_weight zero = refl
idle_weight (suc n) = omega (arith, idle_weight n)

-- From the start, with a number of workers for which no send of an error waits: a schedule that
-- only moves workers that are not finished has at most 6 * segments + workers moves, and one that
-- is cut off before all are finished can be continued. So the work always ends, whatever the
-- interleaving and the errors.
pub work_ends :
    (n : ℕ) (urls : List String) (ms : List (ℕ × Option Error))
    → is_busy ms (start n urls) ≡ true
    → (length ms ≤ 6 * length urls + n)
      × (all_finished (run ms (start n urls)).workers ≡ false
          → (i : ℕ) × (is_active i (run ms (start n urls)).workers ≡ true))
work_ends n urls ms h = (
  omega (arith, busy_schedule_bound ms (start n urls) h, start_measure),
  some_active (run ms (start n urls)).workers,
)
  where
    start_measure : measure (start n urls) ≡ 6 * length urls + n
    start_measure =
        unfold start new_parallel_transcoding in
        omega (arith, idle_weight n, length-post_segments (length urls) 0 urls)
