-- ===== src/Pipeline/Strategy.antt =====
-- pipeline/coordinator.go: the strategies, and the check of an input against what the Livepeer
-- pipeline supports.
pub mod Compat
use dms_api.Prelude.{
  ℕ, ◌+◌, ◌-◌, ◌*◌, String, Bool, true, false, not, ◌&&◌, ◌||◌, Option, some, List, [], ◌∷◌, str_eq,
  ltb, leb, ◌==◌, if◌then◌else◌,
}
use Prim.Native.Char.{Char, code}
use Prim.Native.String
use dms_api.Prelude.Int.{ℤ, is_zero}
use dms_api.Video.Tracks.{
  InputTrack, InputVideo, TrackResult, found, track_error, track_type_video, get_track,
}

-- A `Strategy` is a string; `other` is any but the three that the program knows.
pub data Strategy : Type 0 where
  external_dominance catalyst_ffmpeg_dominance fallback_external : Strategy
  other : String → Strategy

unfoldable pub is_valid : Strategy → Bool
is_valid external_dominance = true
is_valid catalyst_ffmpeg_dominance = true
is_valid fallback_external = true
is_valid (other s) = false

unfoldable pub livepeer_not_supported : Strategy → Bool × Strategy
livepeer_not_supported catalyst_ffmpeg_dominance = (false, catalyst_ffmpeg_dominance)
livepeer_not_supported _ = (false, external_dominance)

-- The code points of a text in lower case, as `strings.ToLower` makes an ASCII text.
unfoldable pub lower_codes : String → List ℕ
lower_codes String.[] = []
lower_codes (String.◌∷◌ c s) =
    (if leb b'A' (code c) && leb (code c) b'Z' then code c + 32 else code c) ∷ lower_codes s

unfoldable pub same_codes : List ℕ → List ℕ → Bool
same_codes [] [] = true
same_codes (a ∷ as') (b ∷ bs) = a == b && same_codes as' bs
same_codes _ _ = false

-- `strings.ToLower(track.Codec) == "h264"`
unfoldable pub is_h264 : String → Bool
unfolding lower_codes same_codes
is_h264 codec = same_codes (lower_codes codec) (b'h' ∷ b'2' ∷ b'6' ∷ b'4' ∷ [])

-- One more character in front of a split text.
push_char : Char → Bool → List String → List String
push_char c true parts = "" ∷ parts
push_char c false [] = String.◌∷◌ c String.[] ∷ []
push_char c false (part ∷ parts) = String.◌∷◌ c part ∷ parts

-- `strings.Split(s, sep)`, for a separator of one character.
unfoldable pub split : ℕ → String → List String
unfolding push_char
split sep String.[] = "" ∷ []
split sep (String.◌∷◌ c s) = push_char c (code c == sep) (split sep s)

distance : ℕ → ℕ → ℕ
distance a b = if ltb a b then b - a else a - b

-- The comparison at the end of `checkDisplayAspectRatio`, |w / h - W / H| / (w / h) < 0.2,
-- multiplied out. For w = 0 the source divides by zero, and the comparison is false.
unfoldable pub ratio_is_close : ℕ → ℕ → ℕ → ℕ → Bool
unfolding distance
ratio_is_close w h width height = ltb (5 * distance (w * height) (width * h)) (w * height)

-- `strconv.ParseFloat` is a parameter, as the value that it reads in units of a fixed fraction: the
-- check looks only at the quotient of the two parts. `none` is its error.
module _ (parse_float : String → Option ℕ) where
  unfoldable pub check_ratio : Option ℕ → Option ℕ → ℕ → ℕ → Bool
  check_ratio (some w) (some h) width height =
      if h == 0 || height == 0 then true else ratio_is_close w h width height
  check_ratio _ _ width height = true

  unfoldable pub check_parts : List String → ℕ → ℕ → Bool
  unfolding check_ratio
  check_parts (w ∷ h ∷ []) width height = check_ratio (parse_float w) (parse_float h) width height
  check_parts _ width height = true

  unfoldable pub check_display_aspect_ratio : InputTrack → Bool
  unfolding check_parts
  check_display_aspect_ratio track =
      if not (str_eq track.type_name track_type_video)
        || str_eq track.video_track.display_aspect_ratio ""
      then true
      else check_parts (split b':' track.video_track.display_aspect_ratio) track.video_track.width
          track.video_track.height

  -- The tests of one round of the loop of `checkLivepeerCompatible`.
  unfoldable pub track_is_compatible : InputTrack → Bool
  track_is_compatible track =
      if str_eq track.type_name track_type_video && not (is_h264 track.codec)
      then false
      else if str_eq track.type_name track_type_video && not (is_zero track.video_track.rotation)
      then false
      else check_display_aspect_ratio track

  unfoldable pub check_tracks : Strategy → List InputTrack → Bool × Strategy
  check_tracks strategy [] = (true, strategy)
  check_tracks strategy (track ∷ tracks) =
      if track_is_compatible track
      then check_tracks strategy tracks
      else livepeer_not_supported strategy

  -- `checkLivepeerCompatible`
  unfoldable pub check_livepeer_compatible : Strategy → InputVideo → Bool × Strategy
  unfolding check_tracks
  check_livepeer_compatible strategy iv = elim (get_track iv track_type_video) [
    | found track ↦ check_tracks strategy iv.tracks
    | track_error e ↦ livepeer_not_supported strategy
  ]
