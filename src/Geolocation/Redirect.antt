-- ===== src/Geolocation/Redirect.antt =====
-- handlers/geolocation/geolocation.go: `RedirectHandler`. The balancer, the random number,
-- `Sprintf` and the joining of URL paths are parameters.
pub mod Gateway
use dms_api.Prelude.{
  ℕ, String, concat, Bool, true, false, not, ◌&&◌, Option, none, some, List, str_eq, ltb,
  if◌then◌else◌,
}
use dms_api.Prelude.Int.{ℤ, pos, negsuc}
use dms_api.Prelude.Dict
use dms_api.Prelude.Dict.{Dict}
use dms_api.Errors.{Error}
use dms_api.Result.{Result, ok, err}
use dms_api.Geolocation.Members.{Member, Url, UrlTools, resolve_node_url}
use dms_api.Geolocation.Paths.{
  PathType, PlaybackPath, Patterns, hls, json, webrtc, flv, parse_playback_id, is_valid_gps_coord,
}

-- The request: its host, its URL, the parameters of its query and its headers.
pub record PlaybackRequest : Type 0 where
  pub host : String
  pub url : Url
  pub query : String → String
  pub header : String → String

-- `CdnRedirectPrefix`, and whether the node becomes a subdomain of its host.
pub record Cdn : Type 0 where
  pub host : String
  pub path : String
  pub subdomain : Bool

-- A balancer is asked for a playback id, coordinates, a prefix, and the two flags.
abbrev pub Balancer : Type 0
Balancer = String → String → String → String → Bool → Bool → Result (String × String)

-- The configuration; a percentage is in hundredths, as is the random number.
pub record Config : Type 0 where
  pub cdn : Option Cdn
  pub cdn_percent : Dict ℕ
  pub node_host : String
  pub random : ℕ
  pub patterns : Patterns
  pub parse_float : String → Result ℤ
  pub tools : UrlTools
  pub members : Result (List Member)
  pub sprintf : String → String → String
  pub join_url_path : String → String → String

-- A status, or a temporary redirect.
pub data Response : Type 0 where
  status : ℕ → Response
  redirect : String → Response

pub record Place : Type 0 where
  pub lat : String
  pub lon : String
  pub is_studio : Bool

-- The coordinates of the query, else those of the headers, else none.
unfoldable pub place_of : Config → PlaybackRequest → Place
place_of c r =
    if is_valid_gps_coord c.parse_float (r.query "lat") (r.query "lon")
    then record { lat = r.query "lat"; lon = r.query "lon"; is_studio = true }
    else if is_valid_gps_coord c.parse_float (r.header "X-Latitude") (r.header "X-Longitude")
    then record { lat = r.header "X-Latitude"; lon = r.header "X-Longitude"; is_studio = false }
    else record { lat = ""; lon = ""; is_studio = false }

unfoldable pub protocol_of : PlaybackRequest → String
protocol_of r = if str_eq (r.header "X-Forwarded-Proto") "https" then "https" else "http"

cdn_url : Config → Cdn → PlaybackRequest → PlaybackPath → String × String → String
cdn_url c cdn r p node = c.tools.print (record (r.url) {
  scheme = protocol_of r;
  host = if cdn.subdomain then concat node.0 (concat "." cdn.host) else cdn.host;
  path = c.join_url_path cdn.path (c.sprintf p.template node.1);
})

unfoldable pub to_cdn :
    Config → Cdn → PlaybackRequest → PlaybackPath → Result (String × String) → Response
unfolding cdn_url
to_cdn c cdn r p (err e) = status 502
to_cdn c cdn r p (ok node) = redirect (cdn_url c cdn r p node)

-- Whether a playback id is among those sent to the CDN, this time.
unfoldable pub is_drawn : Config → String → Bool
is_drawn c playback_id = elim (Dict.get playback_id c.cdn_percent) [
  | none ↦ false
  | some percent ↦ ltb c.random percent
]

-- HLS is redirected, and WebRTC refused, so that the player falls back to HLS.
unfoldable pub cdn_answer : PathType → Response → Option Response
cdn_answer hls answer = some answer
cdn_answer webrtc answer = some (status 406)
cdn_answer json answer = none
cdn_answer flv answer = none

-- The redirect to the CDN; `none` where the request is not for it.
unfoldable pub cdn_step :
    Config → Balancer → PlaybackRequest → Option Cdn → PlaybackPath → Option Response
unfolding to_cdn is_drawn cdn_answer
cdn_step c balancer r none p = none
cdn_step c balancer r (some cdn) p =
    let asked =
      balancer p.playback_id (place_of c r).lat (place_of c r).lon p.prefix (place_of c r).is_studio
        false in
    if is_drawn c p.playback_id then cdn_answer p.path_type (to_cdn c cdn r p asked) else none

after_resolve : Result String → Response
after_resolve (err e) = status 500
after_resolve (ok url) = redirect url

-- The URL of a node, before it is resolved.
unfoldable pub node_url : Config → PlaybackRequest → PlaybackPath → String × String → String
node_url c r p node = concat (protocol_of r) (
    concat "://"
      (concat node.0 (concat (c.sprintf p.template node.1) (concat "?" r.url.raw_query))))

unfoldable pub to_node :
    Config → PlaybackRequest → PlaybackPath → Result (String × String) → Response
unfolding after_resolve node_url
to_node c r p (err e) = status 502
to_node c r p (ok node) = after_resolve (resolve_node_url c.tools c.members (node_url c r p node))

-- The redirect to the best node.
unfoldable pub playback_step : Config → Balancer → PlaybackRequest → PlaybackPath → Response
unfolding to_node
playback_step c balancer r p = to_node c r p (
    balancer p.playback_id (place_of c r).lat (place_of c r).lon p.prefix (place_of c r).is_studio
      (str_eq (r.query "ingestpb") "true"))

closest : Config → PlaybackRequest → Result Url → Response
closest c r (err e) = status 500
closest c r (ok u) =
    redirect (c.tools.print (record u { scheme = protocol_of r; host = c.node_host }))

-- What follows the CDN.
unfoldable pub local_step : Config → Balancer → PlaybackRequest → Option PlaybackPath → Response
unfolding closest playback_step
local_step c balancer r path =
    if not (str_eq c.node_host "") && not (str_eq c.node_host r.host)
    then closest c r (c.tools.parse (c.tools.print r.url))
    else elim path [ none ↦ status 404 | some p ↦ playback_step c balancer r p ]

unfoldable pub cdn_or_none :
    Config → Balancer → PlaybackRequest → Option PlaybackPath → Option Response
unfolding cdn_step
cdn_or_none c balancer r none = none
cdn_or_none c balancer r (some p) = cdn_step c balancer r c.cdn p

unfoldable pub or_local : Option Response → Response → Response
or_local (some answer) later = answer
or_local none later = later

-- `RedirectHandler`
unfoldable pub redirect_handler : Config → Balancer → PlaybackRequest → Response
unfolding place_of cdn_or_none local_step or_local
redirect_handler c balancer r =
    let path = parse_playback_id c.patterns r.url.path in
    or_local (cdn_or_none c balancer r path) (local_step c balancer r path)
