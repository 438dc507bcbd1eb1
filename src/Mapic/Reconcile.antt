-- ===== src/Mapic/Reconcile.antt =====
-- mapic/mistapiconnector_app.go: `reconcileMultistream`, which makes the pushes of Mist those of
-- the map of the streams. A key is the name of a stream at Mist and a push URL.
pub mod Keys
pub mod Laws
pub mod Lookup
pub mod Expected
use dms_api.Prelude.{
  ℕ, String, Bool, false, ◌&&◌, ◌||◌, not, Option, none, some, List, [], ◌∷◌, ◌++◌, map,
  if◌then◌else◌,
}
use dms_api.Prelude.Dict.{Dict}
use dms_api.Mapic.{StreamInfo, StreamInfos, PushStatus, PushAuto, MistPush, MistState}
use dms_api.Mapic.Names.{wildcard_playback_id, has_prefix, has_lower_prefix, is_ingest_stream}
use dms_api.Mapic.Reconcile.Keys.{Key, key_eq, find, insert, listed}
use dms_api.Mapic.Handlers.{Action, Handled}
use dms_api.Mapic.Handlers.Store.{emit_disconnected}

-- `isMultistream`
unfoldable pub is_multistream : Key → Bool
unfolding has_prefix has_lower_prefix
is_multistream k =
    (has_prefix k.0 "video+" || has_prefix k.0 "videorec+")
    && (has_lower_prefix k.1 "rtmp:"
        || has_lower_prefix k.1 "rtmps:"
        || has_lower_prefix k.1 "srt:")

abbrev pub auto_key : PushAuto → Key
auto_key e = (e.stream, e.target)

abbrev pub push_key : MistPush → Key
push_key e = (e.stream, e.original_url)

-- `pushInfo`: the playback id under which the stream is kept, and whether the target is enabled.
pub record PushInfo : Type 0 where
  pub playback_id : String
  pub enabled : Bool

abbrev pub Cached : Type 0
Cached = List (Key × PushInfo)

abbrev pub pushed : String → PushStatus → PushInfo
pushed playback_id p = record { playback_id = playback_id; enabled = not p.target.disabled }

-- The pushes of one stream, in the map `cachedMap`.
unfoldable pub cache_pushes : String → String → Dict PushStatus → Cached → Cached
unfolding insert
cache_pushes playback_id stream [] m = m
cache_pushes playback_id stream ((url, p) ∷ ps) m =
    cache_pushes playback_id stream ps (insert (stream, url) (pushed playback_id p) m)

-- The expected multistreams: the loops over the streams, of which only the ingest streams count.
unfoldable pub cached_map : String → MistState → StreamInfos → Cached → Cached
unfolding cache_pushes wildcard_playback_id is_ingest_stream
cached_map base state [] m = m
cached_map base state ((playback_id, si) ∷ infos) m =
    let stream = wildcard_playback_id base si.stream in
    let next =
      if is_ingest_stream stream si state then cache_pushes playback_id stream si.pushes m else m in
    cached_map base state infos next

unfoldable pub is_enabled : Option PushInfo → Bool
is_enabled none = false
is_enabled (some i) = i.enabled

-- `exist && pi.enabled`
unfoldable pub is_expected : Cached → Key → Bool
unfolding find is_enabled
is_expected m k = is_enabled (find k m)

-- The keys of `mistMap`.
unfoldable pub mist_keys : List PushAuto → List Key
unfolding is_multistream
mist_keys [] = []
mist_keys (e ∷ es) =
    let rest = mist_keys es in if is_multistream (auto_key e) then auto_key e ∷ rest else rest

-- The entries that a loop over a filtered list of Mist takes out: they are not wanted.
unfoldable pub unwanted : {A : Type 0} → (A → Key) → Cached → List A → List A
unfolding is_multistream is_expected
unwanted key m [] = []
unwanted key m (e ∷ es) =
    let rest = unwanted key m es in
    if is_multistream (key e) && not (is_expected m (key e)) then e ∷ rest else rest

-- The keys that the last loop adds.
unfoldable pub to_add : List Key → Cached → List Key
unfolding listed
to_add ks [] = []
to_add ks ((k, i) ∷ m) =
    let rest = to_add ks m in if i.enabled && not (listed k ks) then k ∷ rest else rest

-- What one pass asks of Mist, in the order of the loops.
pub record Plan : Type 0 where
  pub removed : List PushAuto
  pub stopped : List MistPush
  pub added : List Key

unfoldable pub plan : Cached → MistState → Plan
unfolding unwanted to_add mist_keys
plan m state = record {
  removed = unwanted auto_key m state.push_auto_list;
  stopped = unwanted push_key m state.push_list;
  added = to_add (mist_keys state.push_auto_list) m;
}

-- A command to Mist: `PushAutoRemove`, `PushStop` and `PushAutoAdd`.
pub data Command : Type 0 where
  auto_remove : List String → Command
  stop_push : ℕ → Command
  auto_add : String → String → Command

unfoldable pub commands : Plan → List Command
commands p =
    map (λ (e : PushAuto). auto_remove e.stream_params) p.removed
    ++ map (λ (e : MistPush). stop_push e.push_id) p.stopped
    ++ map (λ (k : Key). auto_add k.0 k.1) p.added

-- The events for the removed entries that are cached.
unfoldable pub disconnect_removed : ℕ → Cached → List PushAuto → StreamInfos → Handled
unfolding find emit_disconnected
disconnect_removed now m [] infos = (infos, [])
disconnect_removed now m (e ∷ es) infos =
    let first = elim (find (auto_key e) m) as (λ _. Handled) [
      | none ↦ (infos, [])
      | some i ↦ emit_disconnected now i.playback_id e.target infos
    ] in
    let rest = disconnect_removed now m es first.0 in (rest.0, first.1 ++ rest.1)

-- `reconcileMultistream`
unfoldable pub reconcile_multistream : String → ℕ → MistState → StreamInfos → List Command × Handled
unfolding cached_map plan commands disconnect_removed
reconcile_multistream base now state infos =
    let m = cached_map base state infos [] in
    let p = plan m state in (commands p, disconnect_removed now m p.removed infos)
