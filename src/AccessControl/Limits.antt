-- ===== src/AccessControl/Limits.antt =====
-- handlers/accesscontrol/access-control.go: the limit of viewers of a user.
use dms_api.Prelude.{
  ◌≡◌, refl, ap₂, ◌∙◌, String, true, false, Option, none, some, inl, inr, ◌↔◌, Bool-cases, if_both,
}
use dms_api.Prelude.Int.{is_zero}
use dms_api.Prelude.Dict
use dms_api.AccessControl.Store.{
  Store, ViewerLimit, Viewers, check_viewer_limit, within_limit, over_limit, gtb_ℤ,
}

-- The limit and the count are both there and both other than 0, and the count is above the limit.
abbrev pub IsExceeded : Option ViewerLimit → Option Viewers → Type 0
IsExceeded limits viewers =
    (limit : ViewerLimit) × (v : Viewers) × (limits ≡ some limit)
    × (viewers ≡ some v)
    × (is_zero limit.viewer_limit_per_user ≡ false)
    × (is_zero v.view_count ≡ false)
    × (gtb_ℤ v.view_count limit.viewer_limit_per_user ≡ true)

exceeded :
    (limits : Option ViewerLimit) (viewers : Option Viewers)
    → IsExceeded limits viewers
    → within_limit limits viewers ≡ false
unfolding within_limit over_limit
exceeded limits viewers (l, v, pl, pv, a, b, c) = ap₂ within_limit pl pv ∙ rw (a, b, c) refl

turned_away :
    (limits : Option ViewerLimit) (viewers : Option Viewers)
    → within_limit limits viewers ≡ false
    → IsExceeded limits viewers
unfolding within_limit over_limit
turned_away none v = λ h. cc
turned_away (some limit) none = λ h. absurd (
    if_both (λ x. x ≡ false → ⊥) (is_zero limit.viewer_limit_per_user) true true (λ _ p. cc)
      (λ _ p. cc) h)
turned_away (some limit) (some v) = elim (Bool-cases (is_zero limit.viewer_limit_per_user)) [
  | inl a ↦ rw a (λ h. cc)
  | inr a ↦ elim (Bool-cases (is_zero v.view_count)) [
    | inl b ↦ rw (a, b) (λ h. cc)
    | inr b ↦ elim (Bool-cases (gtb_ℤ v.view_count limit.viewer_limit_per_user)) [
      | inl c ↦ λ _. (limit, v, refl, refl, a, b, c)
      | inr c ↦ rw (a, b, c) (λ h. cc)
    ]
  ]
]

-- A viewer is turned away exactly if the gate gave a limit other than 0 for the playback id, the
-- data API a count other than 0 for its user, and the count is above the limit.
pub check_viewer_limit_iff :
    (id : String) (s : Store)
    → (check_viewer_limit id s ≡ false)
      ↔ IsExceeded (Dict.get id s.viewer_limits) (Dict.get id s.concurrent_viewers)
unfolding check_viewer_limit
check_viewer_limit_iff id s = (
  turned_away (Dict.get id s.viewer_limits) (Dict.get id s.concurrent_viewers),
  exceeded (Dict.get id s.viewer_limits) (Dict.get id s.concurrent_viewers),
)
