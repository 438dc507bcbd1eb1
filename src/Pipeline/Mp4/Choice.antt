-- ===== src/Pipeline/Mp4/Choice.antt =====
-- pipeline/coordinator.go, `ShouldGenerateMP4`: when MP4 outputs are made.
use dms_api.Prelude.{ℕ, ◌≤◌, ◌≡◌, Bool, true, Option, arith, ◌⊎◌, ◌↔◌}
use dms_api.Pipeline.Mp4.{
  Url, is_hls_input, is_set, should_generate_mp4, mp4_choice, max_recording_mp4_duration,
  max_mp4_out_duration,
}

choice :
    (hls m f short : Bool) (d : ℕ)
    → ((mp4_choice hls m f short d).0 ≡ true) ↔ (
        (1 ≤ d)
        × (hls ≡ true → d ≤ max_recording_mp4_duration)
        × ((f ≡ true) ⊎ ((m ≡ true) × (short ≡ true → d ≤ max_mp4_out_duration))))
unfolding mp4_choice
choice _ _ _ _ d = ground arith

-- MP4s are made exactly for an input of known duration, at most twelve hours if it is HLS, that has
-- an MP4 target (and is at most two minutes where only short ones are wanted) or a fragmented MP4
-- target.
pub should_generate_mp4_iff :
    (source : Url) (mp4 frag : Option Url) (short : Bool) (duration : ℕ)
    → ((should_generate_mp4 source mp4 frag short duration).0 ≡ true) ↔ (
        (1 ≤ duration)
        × (is_hls_input source ≡ true → duration ≤ max_recording_mp4_duration)
        × ((is_set frag ≡ true)
            ⊎ ((is_set mp4 ≡ true) × (short ≡ true → duration ≤ max_mp4_out_duration))))
unfolding should_generate_mp4
should_generate_mp4_iff source mp4 frag short duration =
    choice (is_hls_input source) (is_set mp4) (is_set frag) short duration
