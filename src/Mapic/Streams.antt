-- ===== src/Mapic/Streams.antt =====
-- mapic/mistapiconnector_app.go and mapic/utils.go: the map of the streams of this node, how an
-- entry is refreshed from the Livepeer API, and the cache in front of that API.
pub mod Laws
use dms_api.Prelude.{
  ℕ, ◌+◌, String, concat, Bool, true, false, Option, none, some, List, [], ◌∷◌, ltb, if◌then◌else◌,
}
use dms_api.Prelude.Dict.{Dict, get, put, delete}
use dms_api.Errors.{Error, plain, wrapped}
use dms_api.Result.{Result, ok, err}
use dms_api.Mapic.{Api, Stream, StreamInfo, StreamInfos, PushStatus, Target, TargetRef}
use dms_api.Mapic.Names.{get_push_url, mist_stream_name_to_playback_id}
use dms_api.Mapic.Push.{new_push, update_target}

-- The map `newPushes` after one target: a target that cannot be fetched is left out.
unfoldable pub add_push : String → Result (Target × String) → Dict PushStatus → Dict PushStatus
unfolding put
add_push profile (err e) m = m
add_push profile (ok (t, url)) m = put url (new_push t profile) m

unfoldable pub new_pushes : Api → Stream → List TargetRef → Dict PushStatus → Dict PushStatus
unfolding add_push get_push_url
new_pushes api s [] m = m
new_pushes api s (r ∷ rs) m = new_pushes api s rs (add_push r.profile (get_push_url api s r) m)

-- A push URL that is there keeps its status.
abbrev pub kept : Option PushStatus → PushStatus → PushStatus
kept none n = n
kept (some p) n = update_target n.target n.profile p

-- The loop over `newPushes`.
unfoldable pub merge_pushes : Dict PushStatus → Dict PushStatus → Dict PushStatus
unfolding get put update_target
merge_pushes [] m = m
merge_pushes ((url, n) ∷ new) m = merge_pushes new (put url (kept (get url m) n) m)

unfoldable pub is_listed : Option PushStatus → Bool
is_listed none = false
is_listed (some p) = true

-- The loop that deletes the push URLs which are no longer there.
unfoldable pub keep_listed : Dict PushStatus → Dict PushStatus → Dict PushStatus
unfolding get is_listed
keep_listed new [] = []
keep_listed new ((url, p) ∷ m) =
    let rest = keep_listed new m in if is_listed (get url new) then (url, p) ∷ rest else rest

-- The entry that a fetched stream gets.
unfoldable pub refreshed_info : Stream → Dict PushStatus → Option StreamInfo → StreamInfo
unfolding merge_pushes keep_listed
refreshed_info s new none = record {
  id = s.id;
  is_lazy = true;
  stream = s;
  started_at = 0;
  stopped = false;
  pushes = keep_listed new (merge_pushes new new);
}
refreshed_info s new (some si) = record si {
  id = s.id;
  stream = s;
  pushes = keep_listed new (merge_pushes new si.pushes);
}

-- `refreshStreamInfo`, once the API has answered
unfoldable pub store_refreshed :
    Api → String → StreamInfos → Result Stream → Result StreamInfo × StreamInfos
unfolding new_pushes refreshed_info get put
store_refreshed api playback_id infos (err e) = (
  err (wrapped (concat "error getting stream by playback ID " (concat playback_id ": ")) e),
  infos,
)
store_refreshed api playback_id infos (ok s) =
    let si = refreshed_info s (new_pushes api s s.targets []) (get playback_id infos) in
    (ok si, put playback_id si infos)

-- `refreshStreamInfo`
unfoldable pub refresh_stream_info : Api → String → StreamInfos → Result StreamInfo × StreamInfos
unfolding store_refreshed
refresh_stream_info api playback_id infos =
    store_refreshed api playback_id infos (api.stream_by_playback_id playback_id)

unfoldable pub cached_or_refreshed :
    Api → String → StreamInfos → Option StreamInfo → Result StreamInfo × StreamInfos
unfolding refresh_stream_info
cached_or_refreshed api playback_id infos (some si) = (ok si, infos)
cached_or_refreshed api playback_id infos none = refresh_stream_info api playback_id infos

-- `getStreamInfo`
unfoldable pub get_stream_info : Api → String → StreamInfos → Result StreamInfo × StreamInfos
unfolding mist_stream_name_to_playback_id get cached_or_refreshed
get_stream_info api name infos =
    let playback_id = mist_stream_name_to_playback_id name in
    cached_or_refreshed api playback_id infos (get playback_id infos)

-- `GetCachedStream`
unfoldable pub get_cached_stream : String → StreamInfos → Option Stream
unfolding get
get_cached_stream playback_id infos = elim (get playback_id infos) [
  | some si ↦ some si.stream
  | none ↦ none
]

-- `removeInfo` and `removeInfoLocked`
unfoldable pub remove_info : String → StreamInfos → StreamInfos
unfolding delete
remove_info playback_id infos = delete playback_id infos

-- `entry` of mapic/utils.go
pub record CachedAnswer : Type 0 where
  pub answer : Result Stream
  pub update_at : ℕ

abbrev pub lapi_cache_duration : ℕ
lapi_cache_duration = 1000000000

-- `ApiClientCached.GetStreamByPlaybackID`, with the time it is asked at. Errors are cached too.
unfoldable pub cached_stream :
    (String → Result Stream) → String → ℕ → Dict CachedAnswer → Result Stream × Dict CachedAnswer
unfolding get put
cached_stream fetch playback_id now cache = elim (get playback_id cache) [
  | none ↦ (
    fetch playback_id,
    put playback_id (record { answer = fetch playback_id; update_at = now }) cache,
  )
  | some e ↦ if ltb now (e.update_at + lapi_cache_duration) then (e.answer, cache) else (
    fetch playback_id,
    put playback_id (record { answer = fetch playback_id; update_at = now }) cache,
  )
]
