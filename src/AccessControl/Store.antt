-- ===== src/AccessControl/Store.antt =====
-- handlers/accesscontrol/access-control.go: the caches of decisions, refresh intervals, viewer
-- limits and viewer counts. Times are whole seconds since the epoch.
use dms_api.Prelude.{
  ℕ, suc, ◌+◌, ◌-◌, String, Bool, true, false, not, ◌&&◌, Option, none, some, List, [], ◌∷◌, str_eq,
  ltb, if◌then◌else◌,
}
use dms_api.Prelude.Int.{ℤ, pos, negsuc, is_zero}
use dms_api.Prelude.Dict
use dms_api.Prelude.Dict.{Dict}
use dms_api.Errors.{Error}
use dms_api.Result.{Result, ok, err}
use dms_api.AccessControl.Gate.{GateConfig}

-- `PlaybackAccessControlEntry`
pub record Entry : Type 0 where
  pub stale : ℕ
  pub max_age : ℕ
  pub allow : Bool

pub record RefreshRecord : Type 0 where
  pub refresh_interval : ℤ
  pub last_refresh : ℕ

pub record ViewerLimit : Type 0 where
  pub viewer_limit_per_user : ℤ
  pub user_id : String

pub record Viewers : Type 0 where
  pub view_count : ℤ
  pub last_refresh : ℕ

pub record Store : Type 0 where
  pub cache : Dict (Dict Entry)
  pub refresh_intervals : Dict RefreshRecord
  pub viewer_limits : Dict ViewerLimit
  pub concurrent_viewers : Dict Viewers

-- `ac.cache[playbackID][cacheKey]`: a missing inner map reads as an empty one.
unfoldable pub inner : String → Dict (Dict Entry) → Dict Entry
inner playback_id cache = elim (Dict.get playback_id cache) [ some entries ↦ entries | none ↦ [] ]

unfoldable pub entry_at : String → String → Store → Option Entry
unfolding inner
entry_at playback_id cache_key s = Dict.get cache_key (inner playback_id s.cache)

unfoldable pub is_expired : ℕ → Option Entry → Bool
is_expired now none = true
is_expired now (some e) = ltb e.stale now

unfoldable pub is_stale : ℕ → Option Entry → Bool
unfolding is_expired
is_stale now none = false
is_stale now (some e) = ltb e.max_age now && not (is_expired now (some e))

-- `time.Now().Add(seconds)`. A time before the epoch would be cut off at it.
unfoldable pub add_seconds : ℕ → ℤ → ℕ
add_seconds now (pos n) = now + n
add_seconds now (negsuc n) = now - suc n

unfoldable pub is_positive : ℤ → Bool
is_positive (pos (suc n)) = true
is_positive _ = false

-- The refresh interval of a playback id is noted once.
note_interval : ℕ → String → GateConfig → Dict RefreshRecord → Dict RefreshRecord
note_interval now playback_id config d =
    if is_positive config.refresh_interval
    then elim (Dict.get playback_id d) [
      | some r ↦ d
      | none ↦
          Dict.put playback_id
            (record { refresh_interval = config.refresh_interval; last_refresh = now }) d
    ]
    else d

note_limit : String → GateConfig → Dict ViewerLimit → Dict ViewerLimit
note_limit playback_id config d =
    if not (is_zero config.user_viewer_limit) && not (str_eq config.user_id "")
    then Dict.put playback_id
        (record { viewer_limit_per_user = config.user_viewer_limit; user_id = config.user_id }) d
    else Dict.delete playback_id d

-- `cachePlaybackAccessControlInfo` on the answer of the gate. It takes its three locks one after
-- another; here it is one step.
unfoldable pub cache_answer :
    ℕ → String → String → Result (Bool × GateConfig) → Store → Option Error × Store
unfolding note_interval note_limit inner
cache_answer now playback_id cache_key (err e) s = (some e, s)
cache_answer now playback_id cache_key (ok (allow, config)) s = (
  none,
  record s {
    refresh_intervals = note_interval now playback_id config s.refresh_intervals;
    viewer_limits = note_limit playback_id config s.viewer_limits;
    cache =
        Dict.put playback_id
          (Dict.put cache_key
            (record {
              stale = add_seconds now config.stale_while_revalidate;
              max_age = add_seconds now config.max_age;
              allow = allow;
            })
            (inner playback_id s.cache))
          s.cache;
  },
)

-- How `GetPlaybackAccessControlInfo` ends: with its two results, or by a panic on a nil entry.
pub data Info : Type 0 where
  decided : Bool → Info
  failed : Error → Info
  nil_entry : Info

unfoldable pub read_entry : Option Entry → Info
read_entry (some e) = decided e.allow
read_entry none = nil_entry

-- The second read, behind a fetch that may have failed.
unfoldable pub after_fetch : String → String → Option Error × Store → Info × Store
unfolding read_entry
after_fetch playback_id cache_key (some e, s) = (failed e, s)
after_fetch playback_id cache_key (none, s) = (read_entry (entry_at playback_id cache_key s), s)

-- `GetPlaybackAccessControlInfo`. The lock is given back between the two reads of the entry:
-- `between` is what other goroutines do to the store there. For a stale entry a goroutine is
-- started that runs `revalidate` later.
unfoldable pub get_info :
    ℕ → String → String → Result (Bool × GateConfig) → (Store → Store) → Store → Info × Store
unfolding after_fetch cache_answer
get_info now playback_id cache_key answer between s =
    if is_expired now (entry_at playback_id cache_key s)
    then (let (e, s') = cache_answer now playback_id cache_key answer s in
        after_fetch playback_id cache_key (e, between s'))
    else after_fetch playback_id cache_key (none, between s)

-- The goroutine that `GetPlaybackAccessControlInfo` starts for a stale entry.
unfoldable pub revalidate : ℕ → String → String → Result (Bool × GateConfig) → Store → Store
revalidate now playback_id cache_key answer s =
    if is_stale now (entry_at playback_id cache_key s)
    then (cache_answer now playback_id cache_key answer s).1
    else s

-- `time.Since(LastRefresh) > RefreshInterval * time.Second`
unfoldable pub interval_is_over : ℕ → RefreshRecord → Bool
interval_is_over now r = elim r.refresh_interval [
  | pos n ↦ ltb (r.last_refresh + n) now
  | negsuc n ↦ ltb r.last_refresh (now + suc n)
]

-- The first entry of a round of `periodicRefreshIntervalCache` whose interval is over; the map is
-- read in the order of its entries.
unfoldable pub first_over : ℕ → Dict RefreshRecord → Option (String × RefreshRecord)
first_over now [] = none
first_over now ((k, r) ∷ rest) = if interval_is_over now r then some (k, r) else first_over now rest

-- The entries of a playback id are deleted; a missing inner map stays missing.
unfoldable pub clear_entries : String → Dict (Dict Entry) → Dict (Dict Entry)
clear_entries k cache = elim (Dict.get k cache) [
  | some entries ↦ Dict.put k [] cache
  | none ↦ cache
]

-- A round of `periodicRefreshIntervalCache`, with the playback ids whose sessions it invalidates.
unfoldable pub refresh_round : ℕ → Store → Store × List String
unfolding first_over clear_entries
refresh_round now s = elim (first_over now s.refresh_intervals) [
  | none ↦ (s, [])
  | some (k, r) ↦ (
    record s {
      refresh_intervals = Dict.put k (record r { last_refresh = now }) s.refresh_intervals;
      cache = clear_entries k s.cache;
    },
    k ∷ [],
  )
]

-- `a > b`
unfoldable pub gtb_ℤ : ℤ → ℤ → Bool
gtb_ℤ (pos a) (pos b) = ltb b a
gtb_ℤ (pos a) (negsuc b) = true
gtb_ℤ (negsuc a) (pos b) = false
gtb_ℤ (negsuc a) (negsuc b) = ltb a b

unfoldable pub over_limit : Option Viewers → ViewerLimit → Bool
over_limit none limit = false
over_limit (some v) limit =
    not (is_zero v.view_count) && gtb_ℤ v.view_count limit.viewer_limit_per_user

unfoldable pub within_limit : Option ViewerLimit → Option Viewers → Bool
within_limit none v = true
within_limit (some limit) v =
    if is_zero limit.viewer_limit_per_user then true else not (over_limit v limit)

-- `checkViewerLimit`
unfoldable pub check_viewer_limit : String → Store → Bool
unfolding within_limit over_limit
check_viewer_limit playback_id s =
    within_limit (Dict.get playback_id s.viewer_limits) (Dict.get playback_id s.concurrent_viewers)

-- `concurrentViewerCacheTimeout`
abbrev pub concurrent_viewer_cache_timeout : ℕ
concurrent_viewer_cache_timeout = 30

or_new : Option Viewers → Viewers
or_new (some v) = v
or_new none = record { view_count = pos 0; last_refresh = 0 }

with_count : ℕ → Result ℤ → Viewers → Viewers
with_count now (err e) v = v
with_count now (ok n) v = record { view_count = n; last_refresh = now }

-- `refreshConcurrentViewerCache`, with the answer of the data API for the user.
unfoldable pub refresh_viewers : ℕ → String → (String → Result ℤ) → Store → Store
unfolding or_new with_count
refresh_viewers now playback_id query s = elim (Dict.get playback_id s.viewer_limits) [
  | none ↦ s
  | some limit ↦
      let v = or_new (Dict.get playback_id s.concurrent_viewers) in
      record s {
        concurrent_viewers =
            Dict.put playback_id
              (if ltb (v.last_refresh + concurrent_viewer_cache_timeout) now
                then with_count now (query limit.user_id) v
                else v)
              s.concurrent_viewers;
      }
]
