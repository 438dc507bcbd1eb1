-- ===== src/Scenarios/Media.antt =====
-- Tracks, renditions, MP4 outputs, the API token and capacity at concrete inputs.
use dms_api.Prelude.{
  ◌+◌, ◌%◌, ◌≤◌, ◌≡◌, String, concat, true, false, none, List, [], ◌∷◌, ◌++◌, arith, str_eq,
  if◌then◌else◌, ◌⊎◌, ◌↔◌, length, All,
}
use dms_api.Result.{ok}
use dms_api.Video.Tracks.{
  InputTrack, InputVideo, empty_input_track, empty_video_track, empty_input_video, track_type_video,
  track_type_audio,
}
use dms_api.Video.Profiles.{
  EncodedProfile, get_default_playback_profiles, get_source_copy_profile, top_profile,
  max_video_bitrate,
}
use dms_api.Video.Profiles.Ladder.{IsBelow, default_renditions}
use dms_api.Pipeline.Mp4.{Url}
use text.Mathlib.Text.{starts_with}
use dms_api.Middleware.Auth.{is_authorized}
use dms_api.Middleware.Auth.Bearer.{is_authorized_iff}
use dms_api.Middleware.Capacity.{Limits, Event, arrives, goes, run_events, nobody}
use dms_api.Middleware.Capacity.InFlight.{IsFair, capacity-IsFair}

abbrev wide_track : InputTrack
wide_track = record empty_input_track {
  type_name = track_type_video;
  bitrate = 3000000;
  video_track = record empty_video_track { width = 1919; height = 1079 };
}

abbrev one_track : InputVideo
one_track = record empty_input_video {
  tracks = empty_sound ∷ record wide_track { bitrate = 0 } ∷ [];
}
  where
    empty_sound : InputTrack
    empty_sound = record empty_input_track { type_name = track_type_audio }

default_renditions_example :
    (lower : List EncodedProfile) × (get_default_playback_profiles wide_track true
      ≡ lower ++ (if true then get_source_copy_profile wide_track else top_profile wide_track) ∷ [])
    × (1 ≤ length lower)
    × (length lower ≤ 2)
    × All (IsBelow wide_track) lower
    × ((top_profile wide_track).bitrate ≤ max_video_bitrate)
    × ((top_profile wide_track).height
        ≡ wide_track.video_track.height + wide_track.video_track.height % 2)
    × ((top_profile wide_track).width
        ≡ wide_track.video_track.width + wide_track.video_track.width % 2)
    × ((get_source_copy_profile wide_track).width ≡ wide_track.video_track.width)
    × ((get_source_copy_profile wide_track).height ≡ wide_track.video_track.height)
    × ((get_source_copy_profile wide_track).bitrate ≡ wide_track.bitrate)
    × ((get_source_copy_profile wide_track).copy ≡ true)
default_renditions_example = default_renditions wide_track true (omega arith)

abbrev playlist : Url
playlist = record { path = "/index.m3u8"; text = "https://host/index.m3u8" }

abbrev header : String
header = "Bearer secret"

abbrev token : String
token = "secret"

is_authorized_iff_example : (is_authorized token header ≡ none) ↔ (
    (str_eq header "" ≡ false)
    × ((header ≡ concat "Bearer " token)
        ⊎ ((header ≡ token) × (starts_with token "Bearer " ≡ false))))
is_authorized_iff_example = is_authorized_iff token header

abbrev small_limits : Limits
small_limits = record { max_in_flight_jobs = 2; max_in_flight_clip_jobs = 1 }

-- A second upload is turned away, the first goes, and a clip is turned away.
abbrev visits : List Event
visits = arrives [] (ok false) ∷ arrives [] (ok false) ∷ goes 1 ∷ arrives [] (ok true) ∷ []

capacity-IsFair_example : IsFair small_limits (run_events small_limits visits nobody)
capacity-IsFair_example = capacity-IsFair small_limits visits
