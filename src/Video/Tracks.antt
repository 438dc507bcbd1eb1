-- ===== src/Video/Tracks.antt =====
-- video/profiles.go: the description of an input video and its tracks, and of the outputs.
-- Durations are whole microseconds, the precision that ffprobe prints; frame rates are rationals.
pub mod Laws
use dms_api.Prelude.{
  ℕ, String, Bool, ◌||◌, Option, none, some, List, [], ◌∷◌, str_eq, if◌then◌else◌,
}
use mathlib.Core.Option
use dms_api.Prelude.Int.{ℤ, pos}

abbrev pub track_type_video : String
track_type_video = "video"

abbrev pub track_type_audio : String
track_type_audio = "audio"

pub record VideoTrack : Type 0 where
  pub width : ℕ
  pub height : ℕ
  pub pixel_format : String
  -- frames per second, as a fraction
  pub fps : ℕ × ℕ
  pub rotation : ℤ
  pub display_aspect_ratio : String

pub record AudioTrack : Type 0 where
  pub channels : ℕ
  pub sample_rate : ℕ
  pub sample_bits : ℕ
  pub bit_depth : ℕ

pub record InputTrack : Type 0 where
  pub type_name : String
  pub codec : String
  pub bitrate : ℕ
  pub duration_us : ℕ
  pub size_bytes : ℕ
  pub start_time_us : ℤ
  pub video_track : VideoTrack
  pub audio_track : AudioTrack

pub record InputVideo : Type 0 where
  pub format : String
  pub tracks : List InputTrack
  pub duration_us : ℕ
  pub size_bytes : ℕ

pub record OutputVideoFile : Type 0 where
  pub type_name : String
  pub size_bytes : ℕ
  pub location : String
  pub width : ℕ
  pub height : ℕ
  pub bitrate : ℕ

pub record OutputVideo : Type 0 where
  pub type_name : String
  pub manifest : String
  pub videos : List OutputVideoFile
  pub mp4_outputs : List OutputVideoFile

-- The zero values that Go returns beside an error.
abbrev pub empty_video_track : VideoTrack
empty_video_track = record {
  width = 0;
  height = 0;
  pixel_format = "";
  fps = (0, 1);
  rotation = pos 0;
  display_aspect_ratio = "";
}

abbrev pub empty_input_track : InputTrack
empty_input_track = record {
  type_name = "";
  codec = "";
  bitrate = 0;
  duration_us = 0;
  size_bytes = 0;
  start_time_us = pos 0;
  video_track = empty_video_track;
  audio_track = record { channels = 0; sample_rate = 0; sample_bits = 0; bit_depth = 0 };
}

abbrev pub empty_input_video : InputVideo
empty_input_video = record { format = ""; tracks = []; duration_us = 0; size_bytes = 0 }

pub data TrackError : Type 0 where
  invalid_track_type : TrackError
  no_tracks : String → TrackError

pub data TrackResult : Type 0 where
  found : InputTrack → TrackResult
  track_error : TrackError → TrackResult

-- The test at the head of `GetTrack` and `SetTrack`.
unfoldable pub is_track_type : String → Bool
is_track_type t = str_eq t track_type_video || str_eq t track_type_audio

-- The loop of `GetTrack`.
unfoldable pub find_track : String → List InputTrack → TrackResult
find_track ty [] = track_error (no_tracks ty)
find_track ty (t ∷ ts) = if str_eq t.type_name ty then found t else find_track ty ts

unfoldable pub get_track : InputVideo → String → TrackResult
unfolding is_track_type find_track
get_track i ty = if is_track_type ty then find_track ty i.tracks else track_error invalid_track_type

-- The loop of `SetTrack`: the first track of the type is replaced. The slice is shared, so the
-- caller's tracks change.
unfoldable pub replace_track : String → InputTrack → List InputTrack → Option (List InputTrack)
replace_track ty track [] = none
replace_track ty track (t ∷ ts) =
    if str_eq t.type_name ty
    then some (track ∷ ts)
    else Option.map (λ rest. t ∷ rest) (replace_track ty track ts)

-- The video with its tracks changed, and the error; on an error nothing changes.
unfoldable pub with_tracks :
    InputVideo → String → Option (List InputTrack) → InputVideo × Option TrackError
with_tracks i ty (some ts) = (record i { tracks = ts }, none)
with_tracks i ty none = (i, some (no_tracks ty))

unfoldable pub set_track : InputVideo → String → InputTrack → InputVideo × Option TrackError
unfolding is_track_type
set_track i ty track =
    if is_track_type ty
    then with_tracks i ty (replace_track ty track i.tracks)
    else (i, some invalid_track_type)
