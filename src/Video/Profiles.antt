-- ===== src/Video/Profiles.antt =====
-- video/profiles.go: the encoding profiles of a job. Bitrates and sizes are not negative. Where the
-- source computes in `float64` and truncates to `int64`, the model has the exact quotient, rounded
-- down; the rounding of floating-point numbers is not modelled.
pub mod Ladder
use dms_api.Prelude.{
  ℕ, zero, suc, ◌+◌, ◌*◌, ◌/◌, ◌%◌, String, concat, Bool, true, false, not, ◌&&◌, Option, none,
  some, List, [], ◌∷◌, ◌++◌, str_eq, ltb, ◌==◌, if◌then◌else◌, get_elem?,
}
use dms_api.Video.Tracks.{
  InputTrack, InputVideo, found, track_error, TrackError, track_type_video, get_track,
}
use Prim.Native.Nat.{min}

abbrev pub min_video_bitrate : ℕ
min_video_bitrate = 100000

abbrev pub absolute_min_video_bitrate : ℕ
absolute_min_video_bitrate = 5000

abbrev pub max_video_bitrate : ℕ
max_video_bitrate = 288000000

abbrev pub default_quality : ℕ
default_quality = 27

pub record EncodedProfile : Type 0 where
  pub name : String
  pub width : ℕ
  pub height : ℕ
  pub bitrate : ℕ
  pub fps : ℕ
  pub fps_den : ℕ
  pub profile : String
  pub gop : String
  pub encoder : String
  pub color_depth : ℕ
  pub chroma_format : ℕ
  pub quality : ℕ
  pub copy : Bool

-- A profile with the fields that the source leaves out at their zero values.
unfoldable pub plain_profile : String → ℕ → ℕ → ℕ → ℕ → Bool → EncodedProfile
plain_profile name bitrate width height quality copy = record {
  name = name;
  width = width;
  height = height;
  bitrate = bitrate;
  fps = 0;
  fps_den = 0;
  profile = "";
  gop = "";
  encoder = "";
  color_depth = 0;
  chroma_format = 0;
  quality = quality;
  copy = copy;
}

unfoldable pub default_profile_360p : EncodedProfile
unfolding plain_profile
default_profile_360p = plain_profile "360p0" 1000000 640 360 default_quality false

unfoldable pub default_profile_720p : EncodedProfile
unfolding plain_profile
default_profile_720p = plain_profile "720p0" 4000000 1280 720 default_quality false

unfoldable pub default_transcode_profiles : List EncodedProfile
unfolding default_profile_360p default_profile_720p
default_transcode_profiles = default_profile_360p ∷ default_profile_720p ∷ []

digit : ℕ → String
digit n =
    elim (get_elem? {A = String} ("0" ∷ "1" ∷ "2" ∷ "3" ∷ "4" ∷ "5" ∷ "6" ∷ "7" ∷ "8" ∷ "9" ∷ [])
      n) [ some s ↦ s | none ↦ "" ]

decimal : ℕ → ℕ → String
decimal zero n = ""
decimal (suc fuel) n =
    let front = decimal fuel (n / 10) in if ltb n 10 then digit n else concat front (digit (n % 10))

-- `strconv.FormatInt(n, 10)`: twenty digits are enough for an `int64`.
unfoldable pub format_int : ℕ → String
unfolding decimal digit
format_int n = decimal 20 n

-- `input + (input & 1)`
unfoldable pub nearest_even : ℕ → ℕ
nearest_even input = input + input % 2

unfoldable pub low_bitrate : ℕ → ℕ
low_bitrate source =
    let bitrate = source / 2 in
    if ltb bitrate min_video_bitrate && ltb min_video_bitrate source
    then min_video_bitrate
    else if ltb bitrate absolute_min_video_bitrate
    then absolute_min_video_bitrate
    else bitrate

unfoldable pub low_bitrate_profile : InputTrack → EncodedProfile
unfolding low_bitrate nearest_even plain_profile
low_bitrate_profile video =
    plain_profile "low-bitrate" (low_bitrate video.bitrate) (nearest_even video.video_track.width)
      (nearest_even video.video_track.height) default_quality false

unfoldable pub get_source_copy_profile : InputTrack → EncodedProfile
unfolding plain_profile
get_source_copy_profile video =
    plain_profile (concat (format_int video.video_track.height) "p0") video.bitrate
      video.video_track.width video.video_track.height 0 true

-- The quality of `GenerateSingleProfileWithTargetParams`: the default where none is asked for.
unfoldable pub target_quality : ℕ → ℕ
target_quality q = if q == 0 then default_quality else q

unfoldable pub generate_single_profile_with_target_params :
    InputTrack → EncodedProfile → List EncodedProfile
unfolding plain_profile target_quality
generate_single_profile_with_target_params video_track video_profile =
    plain_profile video_profile.name video_profile.bitrate video_track.video_track.width
      video_track.video_track.height (target_quality video_profile.quality) false
    ∷ []

-- `profile.Height < video.Height && profile.Bitrate < video.Bitrate`
unfoldable pub lower_quality_than_src : InputTrack → EncodedProfile → Bool
lower_quality_than_src video p =
    ltb p.height video.video_track.height && ltb p.bitrate video.bitrate

-- `MaxBitrateFactor` is 12 / 10. Where the source has no area the quotient is infinite, and the
-- profile's own bitrate is the minimum.
unfoldable pub relative_bitrate : InputTrack → EncodedProfile → ℕ
relative_bitrate video p =
    let area = video.video_track.width * video.video_track.height in
    if area == 0
    then p.bitrate
    else min (12 * (p.width * p.height) * min video.bitrate max_video_bitrate / (10 * area))
        p.bitrate

-- The loop over the default profiles.
unfoldable pub ladder : InputTrack → List EncodedProfile → List EncodedProfile
ladder video [] = []
ladder video (p ∷ ps) =
    let rest = ladder video ps in
    if lower_quality_than_src video p
    then record p { bitrate = relative_bitrate video p } ∷ rest
    else rest

unfoldable pub or_low_bitrate : InputTrack → List EncodedProfile → List EncodedProfile
or_low_bitrate video [] = low_bitrate_profile video ∷ []
or_low_bitrate video (p ∷ ps) = p ∷ ps

-- The profile at the source's own size.
unfoldable pub top_profile : InputTrack → EncodedProfile
unfolding plain_profile nearest_even
top_profile video =
    plain_profile (concat (format_int (nearest_even video.video_track.height)) "p0")
      (min (12 * min video.bitrate max_video_bitrate / 10) max_video_bitrate)
      (nearest_even video.video_track.width) (nearest_even video.video_track.height) default_quality
      false

-- It never fails.
unfoldable pub get_default_playback_profiles : InputTrack → Bool → List EncodedProfile
unfolding ladder or_low_bitrate lower_quality_than_src default_transcode_profiles
get_default_playback_profiles video copy_source =
    or_low_bitrate video (ladder video default_transcode_profiles)
    ++ (if copy_source then get_source_copy_profile video else top_profile video) ∷ []

-- The special case of one profile with a bitrate and no size.
unfoldable pub retarget : InputTrack → List EncodedProfile → List EncodedProfile
retarget track (p ∷ []) =
    if p.width == 0 && p.height == 0 && not (p.bitrate == 0)
    then generate_single_profile_with_target_params track p
    else p ∷ []
retarget track ps = ps

pub data ProfilesResult : Type 0 where
  profiles : List EncodedProfile → ProfilesResult
  no_video_track : TrackError → ProfilesResult

-- `SetTranscodeProfiles`. A nil slice of profiles is `none`, an empty one is `some []`.
unfoldable pub choose_profiles :
    InputTrack → Option (List EncodedProfile) → Bool → List EncodedProfile
unfolding retarget
choose_profiles track none copy_source = get_default_playback_profiles track copy_source
choose_profiles track (some ps) copy_source =
    if copy_source
    then retarget track ps ++ get_source_copy_profile track ∷ []
    else retarget track ps

unfoldable pub set_transcode_profiles :
    InputVideo → Option (List EncodedProfile) → Bool → ProfilesResult
unfolding choose_profiles
set_transcode_profiles input ps is_clip = elim (get_track input track_type_video) [
  | found track ↦ profiles (choose_profiles track ps (str_eq input.format "hls" && not is_clip))
  | track_error e ↦ no_video_track e
]
