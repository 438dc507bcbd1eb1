-- ===== src/Pipeline/Mp4.antt =====
-- pipeline/coordinator.go, `ShouldGenerateMP4`, with `IsHLSInput` of clients/input_copy.go.
pub mod Choice
use dms_api.Prelude.{
  ℕ, ◌*◌, String, Bool, true, false, not, ◌&&◌, ◌||◌, Option, none, some, str_eq, ltb, leb, ◌==◌,
  if◌then◌else◌,
}
use Prim.Native.Char.{code}

-- A parsed URL, as far as the program looks at one: its path and its text.
pub record Url : Type 0 where
  pub path : String
  pub text : String

-- The text from its last point on; `none` where it has no point (`strings.LastIndex` is -1).
unfoldable pub last_ext : String → Option String
last_ext String.[] = none
last_ext (String.◌∷◌ c s) = elim (last_ext s) [
  | some ext ↦ some ext
  | none ↦ if code c == b'.' then some (String.◌∷◌ c s) else none
]

unfoldable pub is_hls_input : Url → Bool
unfolding last_ext
is_hls_input u = elim (last_ext u.path) [ none ↦ false | some ext ↦ str_eq ext ".m3u8" ]

-- Durations in microseconds.
abbrev pub max_mp4_out_duration : ℕ
max_mp4_out_duration = 2 * 60 * 1000000

abbrev pub max_recording_mp4_duration : ℕ
max_recording_mp4_duration = 12 * 60 * 60 * 1000000

unfoldable pub is_set {ℓ} : {A : Type ℓ} → Option A → Bool
is_set none = false
is_set (some _) = true

-- The tests, on: the source is HLS, an MP4 target is set, a fragmented one is, and short only.
unfoldable pub mp4_choice : Bool → Bool → Bool → Bool → ℕ → Bool × String
mp4_choice is_hls has_mp4 has_frag_mp4 mp4_only_short duration =
    if duration == 0
    then (false, "duration is missing or zero")
    else if is_hls && ltb max_recording_mp4_duration duration
    then (false, "recording duration is too long")
    else if has_mp4 && (not mp4_only_short || leb duration max_mp4_out_duration)
    then (true, "")
    else if not has_frag_mp4
    then (false, "missing MP4 target URL")
    else (true, "")

unfoldable pub should_generate_mp4 : Url → Option Url → Option Url → Bool → ℕ → Bool × String
should_generate_mp4 source mp4_target frag_mp4_target mp4_only_short duration =
    mp4_choice (is_hls_input source) (is_set mp4_target) (is_set frag_mp4_target) mp4_only_short
      duration
