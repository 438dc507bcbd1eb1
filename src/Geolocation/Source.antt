-- ===== src/Geolocation/Source.antt =====
-- handlers/geolocation/geolocation.go: `HandleStreamSource`, with the moments of its attempts.
pub mod Guard
pub mod Elsewhere
use dms_api.Prelude.{
  ℕ, zero, suc, String, ◌||◌, Option, none, some, List, [], ◌∷◌, ◌++◌, str_eq, if◌then◌else◌,
}
use dms_api.Prelude.Text.{split}
use text.Mathlib.Text.{starts_with}
use dms_api.Errors.{Error}
use dms_api.Result.{Result, ok, err}
use dms_api.Geolocation.Members.{Member, UrlTools, resolve_node_url}
use dms_api.Geolocation.Pull.{
  Node, Moment, Pulled, PullResult, PullError, Effect, StreamPullRateLimit, pull_from, no_pull,
  rate_limit, no_stream, stream_suspended, stream_deleted, no_stream_source_for_active_stream,
  pull_wrong_region, lock_pull, waited, get_stream_pull, stream_source_retries,
}

pub record SourceReply : Type 0 where
  pub url : String
  pub limits : StreamPullRateLimit
  pub effects : List Effect

-- `playbackIdFor`
unfoldable pub playback_id_for : String → String
playback_id_for stream_name = elim (split b'+' stream_name) [
  | prefix ∷ id ∷ [] ↦ id
  | _ ↦ stream_name
]

or_push : Result String → String
or_push (ok url) = url
or_push (err e) = "push://"

-- `resolveReplicatedStream`
unfoldable pub resolve_replicated_stream : UrlTools → Result (List Member) → String → String
unfolding or_push
resolve_replicated_stream tools members dtsc_url = or_push (resolve_node_url tools members dtsc_url)

-- What the loop makes of a pull: a reply, or `none` for another attempt. A failed lookup ends the
-- loop whether or not its error is the API's `ErrNotExists`.
unfoldable pub reply_to : PullResult → Option String
reply_to (pull_from url) = some (if str_eq url "" then "push://" else url)
reply_to (no_pull rate_limit) = none
reply_to (no_pull pull_wrong_region) = none
reply_to (no_pull lock_pull) = none
reply_to (no_pull (no_stream e)) = some "push://"
reply_to (no_pull stream_suspended) = some "push://"
reply_to (no_pull stream_deleted) = some "push://"
reply_to (no_pull no_stream_source_for_active_stream) = some "push://"

-- The loop: the retries left, those made, and the moment of each attempt.
unfoldable pub try_source :
    UrlTools → Node → (ℕ → Moment) → String → ℕ → ℕ → StreamPullRateLimit → SourceReply
try_source tools n times id zero i l = record { url = "push://"; limits = l; effects = [] }
try_source tools n times id (suc left) i l = elim (times i).known_source [
  | ok dtsc_url ↦ record {
    url = resolve_replicated_stream tools (times i).members dtsc_url;
    limits = l;
    effects = [];
  }
  | err e ↦ elim (reply_to (get_stream_pull n i (times i) id l).result) [
    | some url ↦ record {
      url = url;
      limits = (get_stream_pull n i (times i) id l).limits;
      effects = (get_stream_pull n i (times i) id l).effects;
    }
    | none ↦
        let rest =
          try_source tools n times id left (suc i) (get_stream_pull n i (times i) id l).limits in
        record rest {
          effects = (get_stream_pull n i (times i) id l).effects ++ waited ∷ rest.effects;
        }
  ]
]

-- `HandleStreamSource`; its error is always nil.
unfoldable pub handle_stream_source :
    UrlTools → Node → (ℕ → Moment) → String → StreamPullRateLimit → SourceReply
unfolding try_source playback_id_for
handle_stream_source tools n times stream_name l =
    if starts_with stream_name "catalyst_vod_" || starts_with stream_name "tr_src_"
    then record { url = ""; limits = l; effects = [] }
    else try_source tools n times (playback_id_for stream_name) stream_source_retries 0 l
