-- ===== src/Geolocation/Paths.antt =====
-- handlers/geolocation/geolocation.go: the playback id in the path of a request, and coordinates.
-- The regular expressions of the paths are parameters: they give the groups that they match.
use dms_api.Prelude.{
  ℕ, ◌+◌, String, concat, Bool, false, ◌&&◌, ◌||◌, Option, none, some, [], ◌∷◌, str_eq, leb,
  if◌then◌else◌,
}
use dms_api.Prelude.Int.{ℤ, pos, negsuc}
use dms_api.Prelude.Text.{split}
use dms_api.Result.{Result, ok, err}

-- `parsePlus`
unfoldable pub parse_plus : String → String × String
parse_plus plus_string = elim (split b'+' plus_string) [
  | [] ↦ ("", "")
  | id ∷ [] ↦ ("", id)
  | prefix ∷ id ∷ [] ↦ (prefix, id)
  | prefix ∷ id ∷ more ∷ rest ↦ ("", "")
]

pub data PathType : Type 0 where
  hls : PathType
  json : PathType
  webrtc : PathType
  flv : PathType

-- What a path is parsed to; the template has a place for the playback id.
pub record PlaybackPath : Type 0 where
  pub path_type : PathType
  pub prefix : String
  pub playback_id : String
  pub template : String

pub record Patterns : Type 0 where
  pub match_hls : String → Option (String × String)
  pub match_json : String → Option String
  pub match_webrtc : String → Option String
  pub match_flv : String → Option String

-- A match whose playback id is not empty.
unfoldable pub with_plus : PathType → String → String × String → Option PlaybackPath
with_plus t template plus =
    if str_eq plus.1 ""
    then none
    else some (record { path_type = t; prefix = plus.0; playback_id = plus.1; template = template })

-- `parsePlaybackIDHLS`
unfoldable pub parse_playback_id_hls : Patterns → String → Option PlaybackPath
unfolding with_plus parse_plus
parse_playback_id_hls p path = elim (p.match_hls path) [
  | none ↦ none
  | some m ↦ with_plus hls (concat "/hls/%s/" m.1) (parse_plus m.0)
]

-- The three parsers of paths that end with the playback id.
unfoldable pub parse_simple : PathType → String → Option String → Option PlaybackPath
unfolding with_plus parse_plus
parse_simple t template none = none
parse_simple t template (some m) = with_plus t template (parse_plus m)

unfoldable pub or_else : Option PlaybackPath → Option PlaybackPath → Option PlaybackPath
or_else (some p) q = some p
or_else none q = q

-- `parsePlaybackID`: the first parser that finds a path type.
unfoldable pub parse_playback_id : Patterns → String → Option PlaybackPath
unfolding parse_playback_id_hls parse_simple or_else
parse_playback_id p path = or_else (parse_playback_id_hls p path) (
    or_else (parse_simple json "/json_%s.js" (p.match_json path)) (
      or_else (parse_simple webrtc "/webrtc/%s" (p.match_webrtc path))
        (parse_simple flv "/%s.flv" (p.match_flv path))))

-- Millionths of a degree, between minus a bound and the bound.
unfoldable pub is_between : ℕ → ℤ → Bool
is_between bound (pos a) = leb a bound
is_between bound (negsuc a) = leb (a + 1) bound

unfoldable pub both_valid : Result ℤ → Result ℤ → Bool
both_valid (ok lat) (ok lon) = is_between 90000000 lat && is_between 180000000 lon
both_valid (ok lat) (err e) = false
both_valid (err e) lon = false

-- `isValidGPSCoord`, with `strconv.ParseFloat` as a parameter; what is no number, it refuses.
unfoldable pub is_valid_gps_coord : (String → Result ℤ) → String → String → Bool
unfolding is_between both_valid
is_valid_gps_coord parse_float lat lon =
    if str_eq lat "" || str_eq lon "" then false else both_valid (parse_float lat) (parse_float lon)
