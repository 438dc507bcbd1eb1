-- ===== src/Scenarios/Streams.antt =====
-- Answers to STREAM_SOURCE for a stream that is to be pulled in another region.
use dms_api.Prelude.{
  ℕ, ◌+◌, ◌≡◌, ◌≢◌, refl, String, concat, true, false, none, some, [], ◌∷◌, arith, str_eq, eq_iff,
}
use dms_api.Prelude.Text.{split}
use dms_api.Prelude.Dict
use dms_api.Errors.{plain}
use dms_api.Result.{ok, err}
use dms_api.Geolocation.Members.{
  UrlTools, playback_request, members_filtered, filter_members, is_wanted, matches,
}
use dms_api.Geolocation.Pull.{
  Node, Moment, Stream, StreamPull, StreamPullRateLimit, waited, looked_up, sent_playback,
  asked_lock, pull_url, should_limit,
}
use dms_api.Geolocation.Source.{playback_id_for, handle_stream_source}
use dms_api.Geolocation.Source.Guard.{IsSafe, handle_stream_source-IsSafe}
use dms_api.Geolocation.Source.Elsewhere.{handle_stream_source-elsewhere}

pub differs : (s t : String) → str_eq s t ≡ false → s ≢ t
differs s t h = λ e. ground (arith, h, e, eq_iff s t)

abbrev pub no_tools : UrlTools
no_tools = record {
  parse = λ s. err (plain "no url");
  print = λ u. u.host;
  join_path = λ a b. concat a b;
}

abbrev node_here : Node
node_here = record { has_lapi = true; own_region = "fra"; query_escape = λ s. s }

abbrev camera : StreamPull
camera = record { source = "https://camera/live"; headers = ("auth", "key") ∷ [] }

abbrev stream_there : Stream
stream_there = record {
  id = "s1";
  is_active = false;
  suspended = false;
  deleted = false;
  pull = some camera;
  pull_region = "nyc";
}

abbrev each_second : ℕ → Moment
each_second i = record {
  now = i + 5;
  known_source = err (plain "no node");
  stream = ok stream_there;
  lock = none;
  members = ok [];
}

abbrev no_pulls : StreamPullRateLimit
no_pulls = record { timeout = 1; pulls = [] }

handle_stream_source-elsewhere_example :
    ((handle_stream_source no_tools node_here each_second "video+abc" no_pulls).url
      ≡ "https://camera/live?readtimeout=180&addheader=auth key")
    × ((handle_stream_source no_tools node_here each_second "video+abc" no_pulls).effects
        ≡ looked_up "abc"
          ∷ sent_playback 0 "abc" "nyc"
          ∷ waited
          ∷ looked_up "abc"
          ∷ waited
          ∷ looked_up "abc"
          ∷ waited
          ∷ looked_up "abc"
          ∷ asked_lock 3 stream_there
          ∷ [])
unfolding playback_id_for split should_limit pull_url Dict.get
handle_stream_source-elsewhere_example =
    handle_stream_source-elsewhere no_tools node_here each_second "abc" stream_there camera refl
      refl refl refl (differs "nyc" "" refl) (differs "fra" "nyc" refl) no_pulls (λ i. refl)
      (λ i. (plain "no node", refl)) (λ i. omega arith) "video+abc" refl refl refl refl refl
      (differs (pull_url (λ s. s) camera) "" refl)

handle_stream_source-IsSafe_example :
    IsSafe no_tools node_here each_second
      (handle_stream_source no_tools node_here each_second "video+abc" no_pulls)
handle_stream_source-IsSafe_example =
    handle_stream_source-IsSafe no_tools node_here each_second "video+abc" no_pulls refl refl

-- The HLS playlist of a member of the region is asked for.
request_to_region :
    playback_request
      (ok (
        record { name = "n1"; tags = ("region", "fra") ∷ []; status = "alive" }
        ∷ record {
          name = "n2";
          tags = ("region", "nyc") ∷ ("https", "https://n2") ∷ [];
          status = "alive";
        }
        ∷ []))
      7
      "video"
      "abc"
      "nyc"
    ≡ some "https://n2/hls/video+abc/index.m3u8"
unfolding playback_request members_filtered filter_members is_wanted matches Dict.get
request_to_region = refl
