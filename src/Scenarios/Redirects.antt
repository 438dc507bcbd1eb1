-- ===== src/Scenarios/Redirects.antt =====
-- Playback requests that are redirected.
use dms_api.Prelude.{◌≡◌, ◌≢◌, refl, String, concat, none, some, [], str_eq, if◌then◌else◌}
use dms_api.Prelude.Text.{split}
use dms_api.Errors.{plain}
use dms_api.Result.{ok, err}
use dms_api.Geolocation.Paths.{Patterns, parse_playback_id}
use dms_api.Geolocation.Redirect.{
  PlaybackRequest, Config, status, redirect_handler, local_step, cdn_or_none, or_local,
}
use dms_api.Geolocation.Redirect.Gateway.{catalyst, redirect_handler-catalyst}
use dms_api.Scenarios.Sorting.{insertion_sort, insertion_sort-IsSorting}
use dms_api.Scenarios.Balancing.{far, keep_order, table, no_floats}
use dms_api.Scenarios.Streams.{no_tools}

abbrev hls_only : Patterns
hls_only = record {
  match_hls = λ path.
      if str_eq path "/hls/video+abc/index.m3u8" then some ("video+abc", "index.m3u8") else none;
  match_json = λ path. none;
  match_webrtc = λ path. none;
  match_flv = λ path. none;
}

abbrev plain_config : Config
plain_config = record {
  cdn = none;
  cdn_percent = [];
  node_host = "";
  random = 0;
  patterns = hls_only;
  parse_float = no_floats;
  tools = no_tools;
  members = ok [];
  sprintf = λ template id. concat "/hls/" (concat id "/index.m3u8");
  join_url_path = λ a b. concat a b;
}

abbrev request_of : String → PlaybackRequest
request_of path = record {
  host = "here";
  url = record { scheme = ""; host = ""; path = path; raw_query = "" };
  query = λ name. "";
  header = λ name.
      if str_eq name "X-Latitude" then "50" else if str_eq name "X-Longitude" then "8" else "";
}

unparsed_path :
    redirect_handler plain_config
      (λ id lat lon prefix studio ingest. err (plain "no node"))
      (request_of "/other")
    ≡ status 404
unfolding redirect_handler parse_playback_id cdn_or_none local_step or_local
unparsed_path = refl

balancer_down :
    redirect_handler plain_config
      (λ id lat lon prefix studio ingest. err (plain "no node"))
      (request_of "/hls/video+abc/index.m3u8")
    ≡ status 502
unfolding redirect_handler parse_playback_id cdn_or_none local_step or_local split
balancer_down = refl

redirect_handler-catalyst_example :
    redirect_handler plain_config
      (catalyst insertion_sort keep_order far 7 "self" 2000 5000 [] table no_floats)
      (request_of "/hls/video+abc/index.m3u8")
    ≢ status 502
redirect_handler-catalyst_example =
    redirect_handler-catalyst insertion_sort keep_order far 7 "self" 2000 5000 [] table
      insertion_sort-IsSorting (λ p ns. refl) plain_config (request_of "/hls/video+abc/index.m3u8")
