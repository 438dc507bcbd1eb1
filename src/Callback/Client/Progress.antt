-- ===== src/Callback/Client/Progress.antt =====
-- The progress that a client sees for one request.
use dms_api.Prelude.{
  ℕ, suc, ◌*◌, ◌≤◌, ◌≡◌, refl, sym, ap, ap₂, ◌∙◌, String, true, false, Option, some, List, [], ◌∷◌,
  arith, eq_iff, if◌then◌else◌, inl, inr, Bool-cases, All,
}
use mathlib.Core.Path.{subst}
use native.Mathlib.Nat.{le_of_mul-le-mul_right, mul-le-mul_right}
use dms_api.Prelude.Dict
use dms_api.Prelude.Dict.{Dict, get-put}
use dms_api.Callback.Ratio.{Ratio, minus, frac, leb_ratio, IsFraction}
use dms_api.Callback.Status.{
  Message, TranscodeStatus, overall_completion_ratio, is_terminal, new_progress,
}
use dms_api.Callback.Status.Bands.{IsRunning, twice_compare, overall-IsFraction}
use dms_api.Callback.Client.{is_progress, replaces, update_transcode_status}

-- A progress message of a running job, whose ratio is the overall ratio of its stage.
pub record IsReport (k : String) (m : Message) : Type 0 where
  pub of_request : m.request_id ≡ k
  pub running : is_terminal m ≡ false
  pub stage : Ratio
  pub is_fraction : IsFraction stage
  pub built : m.completion_ratio ≡ overall_completion_ratio m.status stage

-- `updateTranscodeStatus` for each of some messages in turn.
unfoldable pub update_all : List Message → Dict Message → Dict Message
update_all [] latest = latest
update_all (m ∷ ms) latest = update_all ms (update_transcode_status m latest)

is_progress-le :
    (k : String) (p m : Message)
    → IsReport k p
    → IsReport k m
    → is_progress p m ≡ true
    → leb_ratio p.completion_ratio m.completion_ratio ≡ true
unfolding is_progress is_terminal
is_progress-le k p m hp hm e =
    ap₂ leb_ratio hp.built hm.built
    ∙ twice_compare p.status m.status hp.stage hm.stage hp.running hm.running hp.is_fraction
        hm.is_fraction
        (ap₂ leb_ratio (sym (ap (overall_completion_ratio p.status) hp.built))
            (sym (ap (overall_completion_ratio m.status) hm.built))
          ∙ e)

-- a / b ≤ c / d and c / d ≤ e / f give a / b ≤ e / f, cross-multiplied.
cross_trans : (a b c d e f : ℕ) → 1 ≤ d → a * d ≤ c * b → c * f ≤ e * d → a * f ≤ e * b
cross_trans a b c d e f h p q =
    le_of_mul-le-mul_right {k = d} (omega (arith, mul-le-mul_right f p, mul-le-mul_right b q)) h

leb_refl : (r : Ratio) → leb_ratio r r ≡ true
leb_refl (minus n d) = ground arith
leb_refl (frac n d) = ground arith

leb_trans :
    (a b c : Ratio)
    → IsFraction b
    → leb_ratio a b ≡ true
    → leb_ratio b c ≡ true
    → leb_ratio a c ≡ true
leb_trans (minus n d) (minus m e) (minus l f) h p q =
    ground (arith, cross_trans (suc l) f (suc m) e (suc n) d h)
leb_trans (minus n d) (minus m e) (frac l f) h p q = refl
leb_trans (minus n d) (frac m e) (minus l f) h p q = cc
leb_trans (minus n d) (frac m e) (frac l f) h p q = refl
leb_trans (frac n d) (minus m e) c h p q = cc
leb_trans (frac n d) (frac m e) (minus l f) h p q = cc
leb_trans (frac n d) (frac m e) (frac l f) h p q = ground (arith, cross_trans n d m e l f h)

get-update :
    (k : String) (p m : Message) (latest : Dict Message)
    → Dict.get k latest ≡ some p
    → m.request_id ≡ k
    → is_terminal m ≡ false
    → Dict.get k (update_transcode_status m latest) ≡ some (if is_progress p m then m else p)
unfolding update_transcode_status replaces
get-update k p m latest h r t = rw r (
    ground
      (arith, h, t, ap (λ (o : Option Message). replaces o m) h, get-put k k m latest, eq_iff k k))

report-IsFraction : (k : String) (m : Message) → IsReport k m → IsFraction m.completion_ratio
report-IsFraction k m h =
    subst IsFraction (sym h.built) (overall-IsFraction m.status h.stage h.is_fraction)

-- Whatever progress reports of a running request arrive, and in whatever order, the message stored
-- for it never shows a smaller completion ratio than before.
pub progress_monotone :
    (k : String) (p : Message) (ms : List Message) (latest : Dict Message)
    → IsReport k p
    → All (IsReport k) ms
    → Dict.get k latest ≡ some p
    → (m : Message) × (Dict.get k (update_all ms latest) ≡ some m)
      × (leb_ratio p.completion_ratio m.completion_ratio ≡ true)
unfolding update_all
progress_monotone k p [] latest hp hs h = (p, h, leb_refl p.completion_ratio)
progress_monotone k p (m ∷ ms) latest hp hs h = elim (Bool-cases (is_progress p m)) [
  | inl e ↦
      let (q, found, le) =
        progress_monotone k m ms (update_transcode_status m latest) hs.0 hs.1
          (get-update k p m latest h hs.0.of_request hs.0.running ∙ rw e) in
      (
        q,
        found,
        leb_trans p.completion_ratio m.completion_ratio q.completion_ratio
            (report-IsFraction k m hs.0) (is_progress-le k p m hp hs.0 e) le,
      )
  | inr e ↦
      progress_monotone k p ms (update_transcode_status m latest) hp hs.1
        (get-update k p m latest h hs.0.of_request hs.0.running ∙ rw e)
]

-- A progress message is a report.
pub new_progress-IsReport :
    (now : ℕ) (url k : String) (s : TranscodeStatus) (r : Ratio)
    → IsRunning s
    → IsFraction r
    → IsReport k (new_progress now url k s r)
unfolding new_progress is_terminal
new_progress-IsReport now url k s r h f = record {
  of_request = refl;
  running = h;
  stage = r;
  is_fraction = f;
  built = refl;
}
