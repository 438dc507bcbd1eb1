-- ===== src/Callback/Client.antt =====
-- clients/callback_client.go: `PeriodicCallbackClient`. Its map has one entry per active request,
-- and each method holds the lock on the map for the whole of its changes.
-- The HTTP client with its retries is a parameter, `post`: the error of the delivery of a message,
-- after the messages that were posted before it. A callback of `SendCallbacks` runs in a goroutine
-- of its own and its error is ignored, so only the fact that it is posted is modelled.
pub mod Laws
pub mod Progress
pub mod Rounds
use dms_api.Prelude.{
  ℕ, ◌+◌, ◌*◌, String, Bool, true, false, not, ◌||◌, Option, none, some, List, [], ◌∷◌, ◌++◌,
  str_eq, ltb, if◌then◌else◌,
}
use dms_api.Prelude.Dict
use dms_api.Prelude.Dict.{Dict}
use dms_api.Errors.{Error}
use dms_api.Callback.Ratio.{Ratio, leb_ratio}
use dms_api.Callback.Status.{Message, overall_completion_ratio, is_terminal}

-- `MAX_TIME_WITHOUT_UPDATE`, in milliseconds.
abbrev pub max_time_without_update : ℕ
max_time_without_update = 30 * 60 * 1000

pub record Client : Type 0 where
  pub latest : Dict Message  -- requestIDToLatestMessage
  pub posted : List Message  -- the callbacks sent so far, oldest first

unfoldable pub new_client : Client
new_client = record { latest = []; posted = [] }

-- `newCompletion >= previousCompletion`
unfoldable pub is_progress : Message → Message → Bool
is_progress previous tsm =
    leb_ratio (overall_completion_ratio previous.status previous.completion_ratio)
      (overall_completion_ratio tsm.status tsm.completion_ratio)

-- "Don't update the current message with one that represents an earlier stage."
unfoldable pub replaces : Option Message → Message → Bool
unfolding is_progress
replaces none tsm = true
replaces (some previous) tsm = is_terminal tsm || is_progress previous tsm

-- `updateTranscodeStatus`
unfoldable pub update_transcode_status : Message → Dict Message → Dict Message
update_transcode_status tsm latest =
    let latest' =
      if replaces (Dict.get tsm.request_id latest) tsm
      then Dict.put tsm.request_id tsm latest
      else latest in
    if is_terminal tsm then Dict.delete tsm.request_id latest' else latest'

is_some {ℓ} : {A : Type ℓ} → Option A → Bool
is_some none = false
is_some (some _) = true

module _ (post : List Message → Message → Option Error) where
  -- `sendCallback`
  unfoldable pub send_callback : Message → Client → Client × Option Error
  send_callback tsm c = (record c { posted = c.posted ++ tsm ∷ [] }, post c.posted tsm)

  -- `SendTranscodeStatus`
  unfoldable pub send_transcode_status : Message → Client → Client × Option Error
  unfolding send_callback is_some
  send_transcode_status tsm c =
      if str_eq tsm.url ""
      then (c, none)
      else (let c' = record c { latest = update_transcode_status tsm c.latest } in
          if is_terminal tsm || is_some tsm.source_playback
          then send_callback tsm c'
          else (c', none))

-- `tsm.Timestamp < cutoff`, with the cutoff's subtraction on the other side.
unfoldable pub is_timed_out : ℕ → Message → Bool
is_timed_out now tsm = ltb (tsm.timestamp + max_time_without_update) now

-- The body of the loop of `SendCallbacks`.
unfoldable pub callback_step : ℕ → Message → Client → Client
callback_step now tsm c =
    if is_timed_out now tsm
    then record c { latest = Dict.delete tsm.request_id c.latest }
    else if not (is_terminal tsm)
    then record c { posted = c.posted ++ tsm ∷ [] }
    else c

-- The loop of `SendCallbacks` over the entries of the map.
unfoldable pub callback_round : ℕ → List (String × Message) → Client → Client
callback_round now [] c = c
callback_round now ((k, tsm) ∷ entries) c = callback_round now entries (callback_step now tsm c)

-- `SendCallbacks`
unfoldable pub send_callbacks : ℕ → Client → Client
unfolding callback_round
send_callbacks now c = callback_round now c.latest c
