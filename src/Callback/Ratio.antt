-- ===== src/Callback/Ratio.antt =====
-- Completion ratios, which the source holds in `float64`, as exact fractions: `frac n d` is n / d
-- and `minus n d` is -(n + 1) / d. Rounding of floating-point numbers is not modelled.
use dms_api.Prelude.{ℕ, suc, ◌+◌, ◌-◌, ◌*◌, ◌≤◌, Bool, true, false, ltb, leb, if◌then◌else◌}

pub data Ratio : Type 0 where
  minus : ℕ → ℕ → Ratio
  frac : ℕ → ℕ → Ratio

-- `a <= b`
abbrev pub leb_ratio : Ratio → Ratio → Bool
leb_ratio (frac n d) (frac m e) = leb (n * e) (m * d)
leb_ratio (frac n d) (minus m e) = false
leb_ratio (minus n d) (frac m e) = true
leb_ratio (minus n d) (minus m e) = leb (suc m * d) (suc n * e)

abbrev pub zero_ratio : Ratio
zero_ratio = frac 0 1

abbrev pub one_ratio : Ratio
one_ratio = frac 1 1

-- The two comparisons at the head of `OverallCompletionRatio`.
unfoldable pub clamp : Ratio → Ratio
clamp (minus n d) = zero_ratio
clamp (frac n d) = if ltb d n then one_ratio else frac n d

-- `scaleProgress`, with the two ends in tenths: start + progress * (end - start). It is called on
-- clamped values only, and a negative one is not scaled here.
unfoldable pub scale_progress : Ratio → ℕ → ℕ → Ratio
scale_progress (minus n d) start end = minus n d
scale_progress (frac n d) start end = frac (start * d + n * (end - start)) (10 * d)

-- A fraction has a positive denominator.
abbrev pub IsFraction : Ratio → Type 0
IsFraction (minus n d) = 1 ≤ d
IsFraction (frac n d) = 1 ≤ d

-- a / 10 ≤ r ≤ b / 10
abbrev pub Between : ℕ → ℕ → Ratio → Type 0
Between a b (minus n d) = ⊥
Between a b (frac n d) = (a * d ≤ 10 * n) × (10 * n ≤ b * d)
