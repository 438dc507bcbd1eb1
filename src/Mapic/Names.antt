-- ===== src/Mapic/Names.antt =====
-- mapic/mistapiconnector_app.go: the names of a stream at Mist, the push URLs, and the tests on
-- names.
use dms_api.Prelude.{
  ℕ, ◌+◌, String, concat, Bool, true, false, ◌&&◌, ◌||◌, not, Option, none, some, List, [], ◌∷◌,
  str_eq, leb, ◌==◌, if◌then◌else◌,
}
use dms_api.Prelude.Dict.{get}
use dms_api.Prelude.Text.{split, occurs}
use dms_api.Errors.{plain, wrapped}
use dms_api.Result.{Result, ok, err, ◌>>=◌}
use dms_api.Video.Profiles.{format_int}
use dms_api.Mapic.{Api, Stream, StreamInfo, Target, TargetRef, Rendition, MistState}
use Prim.Native.Char.{code}

unfoldable pub second : List String → String
second (x ∷ y ∷ xs) = y
second xs = ""

-- `mistStreamName2playbackID`
unfoldable pub mist_stream_name_to_playback_id : String → String
unfolding second
mist_stream_name_to_playback_id msn = if occurs 43 msn then second (split 43 msn) else msn

-- `wildcardPlaybackID`
unfoldable pub wildcard_playback_id : String → Stream → String
wildcard_playback_id base_stream_name s = concat base_stream_name (concat "+" s.playback_id)

-- `strings.HasPrefix`
unfoldable pub has_prefix : String → String → Bool
has_prefix s String.[] = true
has_prefix String.[] (String.◌∷◌ c p) = false
has_prefix (String.◌∷◌ d s) (String.◌∷◌ c p) = code d == code c && has_prefix s p

lower : ℕ → ℕ
lower n = if leb 65 n && leb n 90 then n + 32 else n

-- `strings.HasPrefix(strings.ToLower(s), p)`. No letter outside ASCII has its lower case in the
-- prefixes the code asks for.
unfoldable pub has_lower_prefix : String → String → Bool
unfolding lower
has_lower_prefix s String.[] = true
has_lower_prefix String.[] (String.◌∷◌ c p) = false
has_lower_prefix (String.◌∷◌ d s) (String.◌∷◌ c p) =
    lower (code d) == code c && has_lower_prefix s p

-- `MistState.IsIngestStream`
unfoldable pub is_ingest_source : MistState → String → Bool
unfolding get has_prefix
is_ingest_source state stream = elim (get stream state.active_streams) [
  | none ↦ false
  | some source ↦ not (has_prefix source "push://INTERNAL_ONLY:dtsc://")
]

-- `isIngestStream`, of a stream that has an entry
unfoldable pub is_ingest_stream : String → StreamInfo → MistState → Bool
unfolding is_ingest_source
is_ingest_stream stream si state = not si.is_lazy || is_ingest_source state stream

find_profile : String → List Rendition → Option Rendition
find_profile name [] = none
find_profile name (p ∷ ps) = if str_eq p.name name then some p else find_profile name ps

-- The rendition of a target: the best one for the profile `source`.
unfoldable pub video_selector : Stream → TargetRef → Result String
unfolding find_profile
video_selector s r =
    if str_eq r.profile "source" then ok "maxbps" else elim (find_profile r.profile s.profiles) [
      | none ↦ err (plain (concat "profile not found: " r.profile))
      | some p ↦ ok (concat "~" (concat (format_int p.width) (concat "x" (format_int p.height))))
    ]

-- `getPushUrl`
unfoldable pub get_push_url : Api → Stream → TargetRef → Result (Target × String)
unfolding video_selector
get_push_url api s r = elim (api.multistream_target r.target_id) [
  | err e ↦ err (wrapped (concat "error fetching multistream target " (concat r.target_id ": ")) e)
  | ok t ↦ do
    video ← video_selector s r
    ok (
      t,
      concat t.url (
          concat "?video="
            (concat video (concat "&audio=" (if r.video_only then "silent" else "maxbps")))),
    )
]
