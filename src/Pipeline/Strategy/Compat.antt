-- ===== src/Pipeline/Strategy/Compat.antt =====
-- What `checkLivepeerCompatible` decides.
use dms_api.Prelude.{
  ℕ, ◌≡◌, refl, sym, ap, ◌∙◌, String, Bool, true, false, ◌||◌, Option, List, [], ◌∷◌, arith, str_eq,
  eq_iff, if◌then◌else◌, inl, inr, ◌⊎◌, ◌↔◌, Bool-cases, if_both, All,
}
use dms_api.Video.Tracks.{
  InputTrack, InputVideo, TrackResult, TrackError, found, track_error, track_type_video, get_track,
  find_track, is_track_type,
}
use dms_api.Pipeline.Strategy.{
  Strategy, external_dominance, catalyst_ffmpeg_dominance, is_valid, livepeer_not_supported,
  track_is_compatible, check_tracks, check_livepeer_compatible, is_h264, check_display_aspect_ratio,
}
use dms_api.Prelude.Int.{is_zero}

-- Some track is a video track.
unfoldable pub has_video : List InputTrack → Bool
has_video [] = false
has_video (t ∷ ts) = str_eq t.type_name track_type_video || has_video ts

-- The strategy for an input that Livepeer does not support.
abbrev pub forced : Strategy → Strategy
forced catalyst_ffmpeg_dominance = catalyst_ffmpeg_dominance
forced _ = external_dominance

forced-eq : (st : Strategy) → (livepeer_not_supported st).1 ≡ forced st
unfolding livepeer_not_supported
forced-eq catalyst_ffmpeg_dominance = refl
forced-eq _ = refl

module _ (parse_float : String → Option ℕ) where
  -- A track that the Livepeer pipeline takes: one that is no video, or a video in H.264, not
  -- rotated, with the display aspect ratio of its resolution.
  pub record IsSupported (t : InputTrack) : Type 0 where
    pub codec : t.type_name ≡ track_type_video → is_h264 t.codec ≡ true
    pub rotation : t.type_name ≡ track_type_video → is_zero t.video_track.rotation ≡ true
    pub ratio : check_display_aspect_ratio parse_float t ≡ true

  track_is_compatible_iff :
      (t : InputTrack) → (track_is_compatible parse_float t ≡ true) ↔ IsSupported t
  unfolding track_is_compatible
  track_is_compatible_iff t = (
    λ h. record {
      codec = λ e. ground (arith, eq_iff t.type_name track_type_video);
      rotation = λ e. ground (arith, eq_iff t.type_name track_type_video);
      ratio = ground arith;
    },
    λ s. elim (Bool-cases (str_eq t.type_name track_type_video)) [
      | inl e ↦
          let n = (eq_iff t.type_name track_type_video).0 e in
          ground (arith, s.codec n, s.rotation n, s.ratio)
      | inr e ↦ ground (arith, s.ratio)
    ],
  )

  check_tracks_iff :
      (st : Strategy) (ts : List InputTrack)
      → ((check_tracks parse_float st ts).0 ≡ true) ↔ All IsSupported ts
  unfolding check_tracks livepeer_not_supported
  check_tracks_iff st [] = (λ _. tt, λ _. refl)
  check_tracks_iff st (t ∷ ts) = elim (Bool-cases (track_is_compatible parse_float t)) [
    | inl e ↦ rw e (
      λ h. ((track_is_compatible_iff t).0 e, (check_tracks_iff st ts).0 h),
      λ h. (check_tracks_iff st ts).1 h.1,
    )
    | inr e ↦ rw e (λ h. absurd (not_supported st h), λ h. cc ((track_is_compatible_iff t).1 h.0))
  ]
    where
      not_supported : (st : Strategy) → (livepeer_not_supported st).0 ≡ true → ⊥
      not_supported catalyst_ffmpeg_dominance h = cc
      not_supported _ h = cc

  find_track-video :
      (ts : List InputTrack)
      → (elim (find_track track_type_video ts) [ found t ↦ true | track_error e ↦ false ])
        ≡ has_video ts
  unfolding find_track has_video
  find_track-video [] = refl
  find_track-video (t ∷ ts) = ground (arith, find_track-video ts)

  video_cases :
      (iv : InputVideo)
      → ((t : InputTrack) × (get_track iv track_type_video ≡ found t)
          × (has_video iv.tracks ≡ true))
        ⊎ ((e : TrackError) × (get_track iv track_type_video ≡ track_error e)
            × (has_video iv.tracks ≡ false))
  unfolding get_track is_track_type
  video_cases iv = cases (find_track track_type_video iv.tracks) refl
    where
      cases :
          (r : TrackResult)
          → find_track track_type_video iv.tracks ≡ r
          → ((t : InputTrack) × (find_track track_type_video iv.tracks ≡ found t)
              × (has_video iv.tracks ≡ true))
            ⊎ ((e : TrackError) × (find_track track_type_video iv.tracks ≡ track_error e)
                × (has_video iv.tracks ≡ false))
      cases (found t) q = inl (t, q, sym (find_track-video iv.tracks) ∙ rw q)
      cases (track_error e) q = inr (e, q, sym (find_track-video iv.tracks) ∙ rw q)

  -- An input is compatible with the Livepeer pipeline exactly if it has a video track and each of
  -- its tracks is supported.
  pub compatible_iff :
      (st : Strategy) (iv : InputVideo)
      → ((check_livepeer_compatible parse_float st iv).0 ≡ true)
        ↔ ((has_video iv.tracks ≡ true) × All IsSupported iv.tracks)
  unfolding check_livepeer_compatible livepeer_not_supported
  compatible_iff st iv = elim (video_cases iv) [
    | inl (t, q, h) ↦
        rw (q, check_livepeer_compatible)
          (
            λ c. (h, (check_tracks_iff st iv.tracks).0 c),
            λ p. (check_tracks_iff st iv.tracks).1 p.1,
          )
    | inr (e, q, h) ↦
        rw (q, check_livepeer_compatible)
          (λ c. absurd (refused st c), λ p. absurd (let q : false ≡ true = sym h ∙ p.0 in cc))
  ]
    where
      refused : (st : Strategy) → (livepeer_not_supported st).0 ≡ true → ⊥
      refused catalyst_ffmpeg_dominance c = cc
      refused _ c = cc

  check_tracks_strategy :
      (st : Strategy) (ts : List InputTrack)
      → (check_tracks parse_float st ts).1
        ≡ (if (check_tracks parse_float st ts).0 then st else (livepeer_not_supported st).1)
  unfolding check_tracks
  check_tracks_strategy st [] = refl
  check_tracks_strategy st (t ∷ ts) = elim (Bool-cases (track_is_compatible parse_float t)) [
    | inl e ↦ rw e (check_tracks_strategy st ts)
    | inr e ↦ rw e (unsupported st)
  ]
    where
      unsupported :
          (st : Strategy)
          → (livepeer_not_supported st).1
            ≡ (if (livepeer_not_supported st).0 then st else (livepeer_not_supported st).1)
      unsupported catalyst_ffmpeg_dominance = unfold livepeer_not_supported in refl
      unsupported _ = unfold livepeer_not_supported in refl

  -- A compatible input leaves the strategy as it is; for any other it becomes the external one,
  -- except that a forced Livepeer strategy stays. So a fallback is never started for such an input.
  pub chosen_strategy :
      (st : Strategy) (iv : InputVideo)
      → (check_livepeer_compatible parse_float st iv).1
        ≡ (if (check_livepeer_compatible parse_float st iv).0 then st else forced st)
  unfolding check_livepeer_compatible
  chosen_strategy st iv = elim (video_cases iv) [
    | inl (t, q, h) ↦
        rw (q, check_livepeer_compatible)
          (check_tracks_strategy st iv.tracks
            ∙ ap (λ x. if (check_tracks parse_float st iv.tracks).0 then st else x) (forced-eq st))
    | inr (e, q, h) ↦ rw (q, check_livepeer_compatible) (refused st)
  ]
    where
      refused :
          (st : Strategy)
          → (livepeer_not_supported st).1
            ≡ (if (livepeer_not_supported st).0 then st else forced st)
      refused catalyst_ffmpeg_dominance = unfold livepeer_not_supported in refl
      refused _ = unfold livepeer_not_supported in refl

forced-is_valid : (st : Strategy) → is_valid (forced st) ≡ true
unfolding is_valid
forced-is_valid catalyst_ffmpeg_dominance = refl
forced-is_valid _ = refl

-- A valid strategy is changed to a valid one only.
pub chosen-is_valid :
    (parse_float : String → Option ℕ) (st : Strategy) (iv : InputVideo)
    → is_valid st ≡ true
    → is_valid (check_livepeer_compatible parse_float st iv).1 ≡ true
chosen-is_valid parse_float st iv h =
    ap is_valid (chosen_strategy parse_float st iv)
    ∙ if_both (λ x. is_valid x ≡ true) (check_livepeer_compatible parse_float st iv).0 st
        (forced st) (λ _. h) (λ _. forced-is_valid st)
