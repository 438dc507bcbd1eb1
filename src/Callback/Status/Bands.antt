-- ===== src/Callback/Status/Bands.antt =====
-- Where the overall completion ratio of each stage lies, that it grows with the ratio of the stage,
-- and that the test of the callback client, which scales an overall ratio a second time, compares
-- as the overall ratios do.
use dms_api.Prelude.{Bool-cases, inl, inr, ◌≢◌, ℕ, ◌≤◌, ◌≡◌, refl, true, false, arith, ltb}
use dms_api.Callback.Ratio.{Ratio, minus, frac, leb_ratio, clamp, IsFraction, Between}
use dms_api.Callback.Status.{
  TranscodeStatus, preparing, preparing_completed, transcoding, completed, failed, stage_ratio,
  overall_completion_ratio, status_is_terminal,
}
use dms_api.Prelude.{ap, ap₂, sym, ◌∙◌}

-- The ends of a stage's band, in tenths.
abbrev pub band_start : TranscodeStatus → ℕ
band_start preparing = 0
band_start preparing_completed = 4
band_start transcoding = 4
band_start completed = 10
band_start failed = 0

abbrev pub band_end : TranscodeStatus → ℕ
band_end preparing = 4
band_end preparing_completed = 4
band_end transcoding = 9
band_end completed = 10
band_end failed = 0

-- Clamped values are fractions in [0, 1].
IsUnit : Ratio → Type 0
IsUnit (minus n d) = ⊥
IsUnit (frac n d) = (1 ≤ d) × (n ≤ d)

clamp-IsUnit : (r : Ratio) → IsFraction r → IsUnit (clamp r)
unfolding clamp IsUnit
clamp-IsUnit (minus n d) h = omega arith
clamp-IsUnit (frac n d) h = elim (Bool-cases (ltb d n)) [
  | inl e ↦ rw e (omega arith)
  | inr e ↦ rw e (h, ground arith)
]

stage-Between :
    (s : TranscodeStatus) (r : Ratio)
    → s ≢ failed
    → IsUnit r
    → Between (band_start s) (band_end s) (stage_ratio s r)
unfolding IsUnit stage_ratio
stage-Between s (minus _ _) e h = elim h [ ]
stage-Between preparing (frac n d) e h = omega arith
stage-Between transcoding (frac n d) e h = omega arith
stage-Between failed (frac n d) e h = absurd (e refl)
stage-Between _ (frac n d) e h = omega arith

-- For every status but the error one, the overall ratio lies in the band of its stage, whatever
-- the ratio of the stage, negative or above one too: [0, 0.4] while preparing, 0.4 when prepared,
-- [0.4, 0.9] while transcoding and 1 at the end.
pub overall-Between :
    (s : TranscodeStatus) (r : Ratio)
    → s ≢ failed
    → IsFraction r
    → Between (band_start s) (band_end s) (overall_completion_ratio s r)
unfolding overall_completion_ratio
overall-Between s r e h = stage-Between s (clamp r) e (clamp-IsUnit r h)

-- A stage's ratio stays in the unit interval, so a second scaling does not clamp it.
stage-IsUnit : (s : TranscodeStatus) (r : Ratio) → s ≢ failed → IsUnit r → IsUnit (stage_ratio s r)
unfolding IsUnit stage_ratio
stage-IsUnit s (minus _ _) e h = elim h [ ]
stage-IsUnit preparing (frac n d) e h = omega arith
stage-IsUnit transcoding (frac n d) e h = omega arith
stage-IsUnit failed (frac n d) e h = absurd (e refl)
stage-IsUnit _ (frac n d) e h = omega arith

clamp-eq_of_unit : (r : Ratio) → IsUnit r → clamp r ≡ r
unfolding clamp IsUnit
clamp-eq_of_unit (minus _ _) h = elim h [ ]
clamp-eq_of_unit (frac n d) h = ground arith

-- A status that more messages may follow.
abbrev pub IsRunning : TranscodeStatus → Type 0
IsRunning s = status_is_terminal s ≡ false

stage_compare :
    (s t : TranscodeStatus) (r q : Ratio)
    → IsRunning s
    → IsRunning t
    → IsUnit r
    → IsUnit q
    → leb_ratio (stage_ratio s (stage_ratio s r)) (stage_ratio t (stage_ratio t q)) ≡ true
    → leb_ratio (stage_ratio s r) (stage_ratio t q) ≡ true
unfolding IsUnit stage_ratio status_is_terminal
stage_compare s t (minus _ _) q hs ht h k e = elim h [ ]
stage_compare s t (frac n d) (minus _ _) hs ht h k e = elim k [ ]
stage_compare preparing preparing (frac n d) (frac m c) hs ht h k e = grind arith
stage_compare preparing preparing_completed (frac n d) (frac m c) hs ht h k e = grind arith
stage_compare preparing transcoding (frac n d) (frac m c) hs ht h k e = grind arith
stage_compare preparing_completed preparing (frac n d) (frac m c) hs ht h k e = grind arith
stage_compare preparing_completed preparing_completed (frac n d) (frac m c) hs ht h k e = refl
stage_compare preparing_completed transcoding (frac n d) (frac m c) hs ht h k e = grind arith
stage_compare transcoding preparing (frac n d) (frac m c) hs ht h k e = grind arith
stage_compare transcoding preparing_completed (frac n d) (frac m c) hs ht h k e = grind arith
stage_compare transcoding transcoding (frac n d) (frac m c) hs ht h k e = grind arith
stage_compare completed _ (frac n d) (frac m c) hs ht h k e = cc
stage_compare failed _ (frac n d) (frac m c) hs ht h k e = cc
stage_compare _ completed (frac n d) (frac m c) hs ht h k e = cc
stage_compare _ failed (frac n d) (frac m c) hs ht h k e = cc

ne_failed : (s : TranscodeStatus) → IsRunning s → s ≢ failed
unfolding status_is_terminal
ne_failed s h e = ground arith

twice-eq :
    (s : TranscodeStatus) (r : Ratio)
    → IsRunning s
    → IsFraction r
    → overall_completion_ratio s (overall_completion_ratio s r)
      ≡ stage_ratio s (stage_ratio s (clamp r))
unfolding overall_completion_ratio
twice-eq s r h f = ap (stage_ratio s) (
    clamp-eq_of_unit (stage_ratio s (clamp r))
      (stage-IsUnit s (clamp r) (ne_failed s h) (clamp-IsUnit r f)))

-- Comparing ratios that were scaled twice, as the callback client does, never takes a smaller
-- overall ratio for a larger one, within a stage and across stages.
pub twice_compare :
    (s t : TranscodeStatus) (r q : Ratio)
    → IsRunning s
    → IsRunning t
    → IsFraction r
    → IsFraction q
    → leb_ratio
        (overall_completion_ratio s (overall_completion_ratio s r))
        (overall_completion_ratio t (overall_completion_ratio t q))
      ≡ true
    → leb_ratio (overall_completion_ratio s r) (overall_completion_ratio t q) ≡ true
twice_compare s t r q hs ht fr fq e =
    unfold overall_completion_ratio in
    stage_compare s t (clamp r) (clamp q) hs ht (clamp-IsUnit r fr) (clamp-IsUnit q fq)
      (ap₂ leb_ratio (sym (twice-eq s r hs fr)) (sym (twice-eq t q ht fq)) ∙ e)

-- The overall ratio is a fraction.
pub overall-IsFraction :
    (s : TranscodeStatus) (r : Ratio) → IsFraction r → IsFraction (overall_completion_ratio s r)
unfolding overall_completion_ratio IsUnit
overall-IsFraction s r h = stage-IsFraction s (clamp r) (clamp-IsUnit r h)
  where
    stage-IsFraction : (t : TranscodeStatus) (q : Ratio) → IsUnit q → IsFraction (stage_ratio t q)
    stage-IsFraction t (minus _ _) u = elim u [ ]
    stage-IsFraction preparing (frac n d) u = omega arith
    stage-IsFraction transcoding (frac n d) u = omega arith
    stage-IsFraction _ (frac n d) u = omega arith
