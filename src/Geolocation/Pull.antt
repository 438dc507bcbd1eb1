-- ===== src/Geolocation/Pull.antt =====
-- handlers/geolocation/geolocation.go: the rate limit of stream pulls and `getStreamPull`. The
-- Livepeer API is a parameter: what it answers to a lookup and to a lock.
use dms_api.Prelude.{
  ℕ, ◌+◌, String, concat, Bool, false, not, ◌&&◌, Option, none, some, List, [], ◌∷◌, str_eq, ltb,
  ◌==◌, if◌then◌else◌,
}
use dms_api.Prelude.Dict
use dms_api.Prelude.Dict.{Dict}
use dms_api.Errors.{Error}
use dms_api.Result.{Result, ok, err}
use dms_api.Geolocation.Members.{Member}

abbrev pub stream_source_retries : ℕ
stream_source_retries = 20

abbrev pub stream_source_max_wrong_region_retries : ℕ
stream_source_max_wrong_region_retries = 3

-- `streamPullRateLimit`
pub record StreamPullRateLimit : Type 0 where
  pub timeout : ℕ
  pub pulls : Dict ℕ

unfoldable pub should_limit : ℕ → StreamPullRateLimit → String → Bool
should_limit now l playback_id = elim (Dict.get playback_id l.pulls) [
  | none ↦ false
  | some last_marked ↦ ltb now (last_marked + l.timeout)
]

unfoldable pub mark : ℕ → StreamPullRateLimit → String → StreamPullRateLimit
mark now l playback_id = record l { pulls = Dict.put playback_id now l.pulls }

pub record StreamPull : Type 0 where
  pub source : String
  pub headers : Dict String

-- The fields of the API's stream that the code reads.
pub record Stream : Type 0 where
  pub id : String
  pub is_active : Bool
  pub suspended : Bool
  pub deleted : Bool
  pub pull : Option StreamPull
  pub pull_region : String

pub data PullError : Type 0 where
  rate_limit : PullError
  -- `fmt.Errorf("failed to get stream to check stream pull: %w", err)`
  no_stream : Error → PullError
  stream_suspended : PullError
  stream_deleted : PullError
  no_stream_source_for_active_stream : PullError
  pull_wrong_region : PullError
  lock_pull : PullError

pub data PullResult : Type 0 where
  pull_from : String → PullResult
  no_pull : PullError → PullResult

-- What the code does to the world outside, with the number of retries so far.
pub data Effect : Type 0 where
  looked_up : String → Effect
  sent_playback : ℕ → String → String → Effect
  asked_lock : ℕ → Stream → Effect
  waited : Effect

-- The node: whether it has an API client, and its configuration. `url.QueryEscape` is a parameter.
pub record Node : Type 0 where
  pub has_lapi : Bool
  pub own_region : String
  pub query_escape : String → String

-- What the node finds at one time: the clock, the balancer's answer, the API's answers, the
-- members.
pub record Moment : Type 0 where
  pub now : ℕ
  pub known_source : Result String
  pub stream : Result Stream
  pub lock : Option Error
  pub members : Result (List Member)

pub record Pulled : Type 0 where
  pub result : PullResult
  pub limits : StreamPullRateLimit
  pub effects : List Effect

add_headers : (String → String) → Dict String → String
add_headers escape [] = ""
add_headers escape ((k, v) ∷ headers) =
    concat "&addheader=" (concat (escape (concat k (concat " " v))) (add_headers escape headers))

unfoldable pub pull_url : (String → String) → StreamPull → String
unfolding add_headers
pull_url escape p = elim p.headers [
  | [] ↦ p.source
  | h ∷ hs ↦ concat p.source (concat "?readtimeout=180" (add_headers escape (h ∷ hs)))
]

unfoldable pub after_lock : (String → String) → StreamPull → Option Error → PullResult
unfolding pull_url
after_lock escape p (some e) = no_pull lock_pull
after_lock escape p none = pull_from (pull_url escape p)

unfoldable pub locked : Node → ℕ → Moment → Stream → StreamPull → PullResult × List Effect
unfolding after_lock
locked n retry t s p = (after_lock n.query_escape p t.lock, asked_lock retry s ∷ [])

unfoldable pub is_elsewhere : Node → Stream → Bool
is_elsewhere n s = not (str_eq s.pull_region "") && not (str_eq n.own_region s.pull_region)

-- The test of the region, then the lock.
unfoldable pub in_region :
    Node → ℕ → Moment → String → Stream → StreamPull → PullResult × List Effect
unfolding locked
in_region n retry t playback_id s p =
    if is_elsewhere n s && ltb retry stream_source_max_wrong_region_retries
    then (
      no_pull pull_wrong_region,
      if retry == 0 then sent_playback retry playback_id s.pull_region ∷ [] else [],
    )
    else locked n retry t s p

-- What follows the lookup.
unfoldable pub of_stream : Node → ℕ → Moment → String → StreamPullRateLimit → Result Stream → Pulled
unfolding in_region
of_stream n retry t playback_id l (err e) = record {
  result = no_pull (no_stream e);
  limits = l;
  effects = [];
}
of_stream n retry t playback_id l (ok s) =
    if s.suspended
    then record { result = no_pull stream_suspended; limits = l; effects = [] }
    else if s.deleted
    then record { result = no_pull stream_deleted; limits = l; effects = [] }
    else elim s.pull [
      | none ↦ record {
        result = if s.is_active then no_pull no_stream_source_for_active_stream else pull_from "";
        limits = l;
        effects = [];
      }
      | some p ↦ record {
        result = (in_region n retry t playback_id s p).0;
        limits = mark t.now l playback_id;
        effects = (in_region n retry t playback_id s p).1;
      }
    ]

-- `getStreamPull`
unfoldable pub get_stream_pull : Node → ℕ → Moment → String → StreamPullRateLimit → Pulled
unfolding of_stream
get_stream_pull n retry t playback_id l =
    if not n.has_lapi
    then record { result = pull_from ""; limits = l; effects = [] }
    else if should_limit t.now l playback_id
    then record { result = no_pull rate_limit; limits = l; effects = [] }
    else let p = of_stream n retry t playback_id l t.stream in
      record p { effects = looked_up playback_id ∷ p.effects }
