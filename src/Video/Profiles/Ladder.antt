-- ===== src/Video/Profiles/Ladder.antt =====
-- video/profiles.go, `GetDefaultPlaybackProfiles`: the renditions below the source.
use dms_api.Prelude.{
  ℕ, ◌+◌, ◌-◌, ◌%◌, ◌≤◌, ◌<◌, ◌≡◌, refl, Bool, true, List, [], ◌∷◌, ◌++◌, arith, if◌then◌else◌, inl,
  inr, Bool-cases, length, All,
}
use dms_api.Video.Tracks.{InputTrack}
use dms_api.Video.Profiles.{
  EncodedProfile, low_bitrate, nearest_even, low_bitrate_profile, lower_quality_than_src,
  relative_bitrate, ladder, or_low_bitrate, top_profile, get_source_copy_profile,
  default_transcode_profiles, get_default_playback_profiles, max_video_bitrate,
}

-- A rendition with a lower bitrate than the source and at most its height, made even.
abbrev pub IsBelow : InputTrack → EncodedProfile → Type 0
IsBelow video p = (p.bitrate < video.bitrate) × (p.height ≤ nearest_even video.video_track.height)

low_bitrate-below : (s : ℕ) → 5000 < s → low_bitrate s < s
unfolding low_bitrate
low_bitrate-below s h = ground arith

relative_bitrate-bound :
    (video : InputTrack) (p : EncodedProfile) → relative_bitrate video p ≤ p.bitrate
unfolding relative_bitrate
relative_bitrate-bound video p = ground arith

lower_bound :
    (video : InputTrack) (p : EncodedProfile)
    → lower_quality_than_src video p ≡ true
    → (p.height < video.video_track.height) × (p.bitrate < video.bitrate)
unfolding lower_quality_than_src
lower_bound video p h = ground arith

ladder-Below :
    (video : InputTrack) (ps : List EncodedProfile) → All (IsBelow video) (ladder video ps)
unfolding ladder nearest_even
ladder-Below video [] = tt
ladder-Below video (p ∷ ps) = elim (Bool-cases (lower_quality_than_src video p)) [
  | inl e ↦
      let b = lower_bound video p e in
      rw e (
        (omega (arith, b.1, relative_bitrate-bound video p), omega (arith, b.0)),
        ladder-Below video ps,
      )
  | inr e ↦ rw e (ladder-Below video ps)
]

length-ladder :
    (video : InputTrack) (ps : List EncodedProfile) → length (ladder video ps) ≤ length ps
unfolding ladder
length-ladder video [] = omega arith
length-ladder video (p ∷ ps) = ground (arith, length-ladder video ps)

low-Below :
    (video : InputTrack) (ps : List EncodedProfile)
    → 5000 < video.bitrate
    → All (IsBelow video) ps
    → All (IsBelow video) (or_low_bitrate video ps)
unfolding or_low_bitrate low_bitrate_profile
low-Below video [] h a = ((low_bitrate-below video.bitrate h, omega arith), tt)
low-Below video (p ∷ ps) h a = a

length-low :
    (video : InputTrack) (ps : List EncodedProfile)
    → (1 ≤ length (or_low_bitrate video ps))
      × (length (or_low_bitrate video ps) ≤ 1 + (length ps - 1))
unfolding or_low_bitrate
length-low video [] = (omega arith, omega arith)
length-low video (p ∷ ps) = (omega arith, omega arith)

-- For a source of more than 5000 bits per second the renditions are one or two that have a lower
-- bitrate than the source and are no higher than its height made even, and after them one more: a
-- copy of the source where that is wanted, with its width, height and bitrate, else one at the
-- source's size, where an odd side is one more, with a bitrate within the maximum.
pub default_renditions :
    (video : InputTrack) (copy_source : Bool)
    → 5000 < video.bitrate
    → (lower : List EncodedProfile) × (get_default_playback_profiles video copy_source
        ≡ lower ++ (if copy_source then get_source_copy_profile video else top_profile video) ∷ [])
      × (1 ≤ length lower)
      × (length lower ≤ 2)
      × All (IsBelow video) lower
      × ((top_profile video).bitrate ≤ max_video_bitrate)
      × ((top_profile video).height ≡ video.video_track.height + video.video_track.height % 2)
      × ((top_profile video).width ≡ video.video_track.width + video.video_track.width % 2)
      × ((get_source_copy_profile video).width ≡ video.video_track.width)
      × ((get_source_copy_profile video).height ≡ video.video_track.height)
      × ((get_source_copy_profile video).bitrate ≡ video.bitrate)
      × ((get_source_copy_profile video).copy ≡ true)
unfolding get_default_playback_profiles top_profile get_source_copy_profile nearest_even
default_renditions video copy_source h =
    let ps = ladder video default_transcode_profiles in
    let l = length-low video ps in
    (
      or_low_bitrate video ps,
      refl,
      l.0,
      omega (arith, l.1, length-ladder video default_transcode_profiles, two),
      low-Below video ps h (ladder-Below video default_transcode_profiles),
      ground arith,
      refl,
      refl,
      refl,
      refl,
      refl,
      refl,
    )
  where
    two : length default_transcode_profiles ≡ 2
    two = unfold default_transcode_profiles in refl
