-- ===== src/Middleware/Auth/Bearer.antt =====
-- middleware/auth.go: which headers pass.
use dms_api.Prelude.{
  ◌+◌, ◌≡◌, refl, sym, ap, ◌∙◌, String, concat, true, false, none, str_eq, eq_iff, inl, inr, ◌⊎◌,
  ◌↔◌, Bool-cases,
}
use Prim.Native.String.{slice, len}
use text.Mathlib.Text.{starts_with}
use text.Mathlib.TextEquality.{starts_with_iff}
use text.Mathlib.TextPositions.{starts_with-append, slice-append_middle, len-append}
use text.Mathlib.TextLemmas.{append-nil}
use dms_api.Middleware.Auth.{trim_prefix, is_authorized}

trim_prefix-append : (p t : String) → trim_prefix (concat p t) p ≡ t
unfolding trim_prefix
trim_prefix-append p t =
    rw (starts_with-append p t, len-append p t)
      (ap (λ u. slice (concat p u) (len p) (len p + len t)) (sym (append-nil t))
        ∙ slice-append_middle p t "")

trim_prefix-other : (s p : String) → starts_with s p ≡ false → trim_prefix s p ≡ s
unfolding trim_prefix
trim_prefix-other s p h = rw h refl

-- A trimmed text is the token if and only if it is the token behind the prefix, or the token itself
-- where that does not start with the prefix.
trim_prefix_iff :
    (s p t : String)
    → (trim_prefix s p ≡ t) ↔ ((s ≡ concat p t) ⊎ ((s ≡ t) × (starts_with t p ≡ false)))
trim_prefix_iff s p t = (forth, back)
  where
    forth : trim_prefix s p ≡ t → (s ≡ concat p t) ⊎ ((s ≡ t) × (starts_with t p ≡ false))
    forth h = elim (Bool-cases (starts_with s p)) [
      | inl e ↦
          let u = (starts_with_iff s p).0 e in
          inl (
            sym u.1
            ∙ ap (concat p) (sym (trim_prefix-append p u.0) ∙ ap (λ x. trim_prefix x p) u.1 ∙ h))
      | inr e ↦
          let q = sym (trim_prefix-other s p e) ∙ h in
          inr (q, sym (ap (λ x. starts_with x p) q) ∙ e)
    ]

    back : (s ≡ concat p t) ⊎ ((s ≡ t) × (starts_with t p ≡ false)) → trim_prefix s p ≡ t
    back (inl q) = ap (λ x. trim_prefix x p) q ∙ trim_prefix-append p t
    back (inr (q, e)) = ap (λ x. trim_prefix x p) q ∙ trim_prefix-other t p e

-- The next handler is called exactly if the Authorization header is not empty and is the API token
-- behind "Bearer ", or the token by itself where that does not start with "Bearer ".
pub is_authorized_iff :
    (api_token auth_header : String)
    → (is_authorized api_token auth_header ≡ none) ↔ (
        (str_eq auth_header "" ≡ false)
        × ((auth_header ≡ concat "Bearer " api_token)
            ⊎ ((auth_header ≡ api_token) × (starts_with api_token "Bearer " ≡ false))))
unfolding is_authorized
is_authorized_iff api_token auth_header = elim (Bool-cases (str_eq auth_header "")) [
  | inl e ↦ rw (e, is_authorized) (λ h. cc, λ h. cc h.0)
  | inr e ↦ elim (Bool-cases (str_eq (trim_prefix auth_header "Bearer ") api_token)) [
    | inl k ↦
        rw (e, k, is_authorized)
          (
            λ _. (refl, (trim_prefix_iff auth_header "Bearer " api_token).0 ((eq_iff _ _).0 k)),
            λ _. refl,
          )
    | inr k ↦
        rw (e, k, is_authorized)
          (
            λ h. cc,
            λ h. absurd (differ k ((trim_prefix_iff auth_header "Bearer " api_token).1 h.1)),
          )
  ]
]
  where
    differ :
        str_eq (trim_prefix auth_header "Bearer ") api_token ≡ false
        → trim_prefix auth_header "Bearer " ≡ api_token
        → ⊥
    differ k q =
        let f : true ≡ false =
          sym ((eq_iff (trim_prefix auth_header "Bearer ") api_token).1 q) ∙ k in
        cc
