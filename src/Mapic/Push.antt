-- ===== src/Mapic/Push.antt =====
-- mapic/mistapiconnector_app.go: the status of one multistream push, which the triggers
-- PUSH_OUT_START and PUSH_END and the reconciliation change, and the webhook events that the
-- changes send.
pub mod Laws
use dms_api.Prelude.{
  ℕ, suc, ◌+◌, ◌*◌, String, Bool, true, false, ◌||◌, Option, none, some, List, [], ◌∷◌, ltb, leb,
  ◌==◌, if◌then◌else◌,
}
use dms_api.Mapic.{PushEvent, quiet, connected, failed, disconnected, PushStatus, Target}

abbrev pub event_multistream_error_tolerance : ℕ
event_multistream_error_tolerance = 2

abbrev pub wait_for_push_error : ℕ
wait_for_push_error = 7 * 1000000000

abbrev pub wait_for_push_error_increased : ℕ
wait_for_push_error_increased = 120 * 1000000000

-- A new status, as `refreshStreamInfo` makes it.
abbrev pub new_push : Target → String → PushStatus
new_push t profile = record {
  target = t;
  profile = profile;
  last_event = quiet;
  last_event_at = 0;
  error_count = 0;
}

-- The status, and the webhook event sent, if any.
abbrev pub Outcome : Type 0
Outcome = PushStatus × Option PushEvent

-- `waitPush` up to the wait: whether the wait is the longer one.
unfoldable pub is_wait_increased : PushStatus → Bool
is_wait_increased p = ltb event_multistream_error_tolerance p.error_count

abbrev pub wait_time : Bool → ℕ
wait_time increased = if increased then wait_for_push_error_increased else wait_for_push_error

is_connected : PushEvent → Bool
is_connected connected = true
is_connected e = false

-- The last lines of `waitPush`.
unfoldable pub connect : ℕ → Bool → PushStatus → Outcome
connect now increased p =
    let n = if increased then 0 else p.error_count in
    (record p { last_event = connected; last_event_at = now; error_count = n }, some connected)

-- `waitPush` at the end of the wait, where the stream is not removed: `increased` is what held when
-- the wait began, `stopped` belongs to the stream.
unfoldable pub wait_over : ℕ → Bool → Bool → PushStatus → Outcome
unfolding is_connected connect
wait_over now increased stopped p =
    if stopped
    then (p, none)
    else if p.target.disabled
        || is_connected p.last_event
        || ltb now (p.last_event_at + wait_time increased)
    then (p, none)
    else connect now increased p

-- The branches of `handlePushEnd`, by the last event.
unfoldable pub count_error : ℕ → PushStatus → Outcome
count_error now p =
    let n =
      if leb p.error_count event_multistream_error_tolerance
      then suc p.error_count
      else p.error_count in
    (
      record p { last_event = failed; last_event_at = now; error_count = n },
      if n == event_multistream_error_tolerance then some failed else none,
    )

unfoldable pub end_after : PushEvent → ℕ → PushStatus → Outcome
unfolding count_error
end_after disconnected now p =
    (record p { last_event = quiet; last_event_at = now; error_count = 0 }, none)
end_after e now p = count_error now p

-- `handlePushEnd`, once the push is found
unfoldable pub end_push : ℕ → Bool → PushStatus → Outcome
unfolding end_after
end_push now stopped p = if stopped then (p, none) else end_after p.last_event now p

-- `emitMultistreamDisconnectedEvent`
unfoldable pub disconnect : ℕ → PushStatus → Outcome
disconnect now p = (record p { last_event = disconnected; last_event_at = now }, some disconnected)

-- `refreshStreamInfo`, on a push that is kept
unfoldable pub update_target : Target → String → PushStatus → PushStatus
update_target t profile p = record p { target = t; profile = profile }

-- What happens to a status: the end of a wait that began with `increased`, the end of the push, its
-- removal from Mist, and new settings.
pub data Step : Type 0 where
  waited : ℕ → Bool → Bool → Step
  ended : ℕ → Bool → Step
  removed : ℕ → Step
  refreshed : Target → String → Step

unfoldable pub push_step : Step → PushStatus → Outcome
unfolding wait_over end_push disconnect update_target
push_step (waited now increased stopped) p = wait_over now increased stopped p
push_step (ended now stopped) p = end_push now stopped p
push_step (removed now) p = disconnect now p
push_step (refreshed t profile) p = (update_target t profile p, none)

-- The status after some steps.
unfoldable pub run : List Step → PushStatus → PushStatus
unfolding push_step
run [] p = p
run (s ∷ ss) p = run ss (push_step s p).0
