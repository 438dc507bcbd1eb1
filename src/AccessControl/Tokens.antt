-- ===== src/AccessControl/Tokens.antt =====
-- handlers/accesscontrol/access-control.go: the claims of a JWT that decodes.
use dms_api.Prelude.{
  ℕ, ◌+◌, ◌≤◌, ◌≡◌, refl, sym, ap, ◌∙◌, String, true, false, Option, none, some, arith, str_eq, ltb,
  inl, inr, Bool-cases,
}
use dms_api.Errors.{Error}
use dms_api.Result.{Result, ok, err}
use dms_api.AccessControl.Request.{
  Env, Claims, decode_jwt, claims_error, Token, checked_token, exp_error,
}

-- No registered claim fails, subject and key are given, and the expiry is at most a week away.
abbrev pub IsCurrent : ℕ → Claims → Type 0
IsCurrent now c =
    (c.registered_error ≡ none)
    × (str_eq c.subject "" ≡ false)
    × (str_eq c.public_key "" ≡ false)
    × (t : ℕ) × (c.expires_at ≡ some t)
    × (t ≤ now + 604800)

claims_or : Claims → Result Claims → Claims
claims_or c (ok d) = d
claims_or c (err e) = c

expiry-bound :
    (now : ℕ) (x : Option ℕ) → exp_error now x ≡ none → (t : ℕ) × (x ≡ some t) × (t ≤ now + 604800)
unfolding exp_error
expiry-bound now none = λ p. cc
expiry-bound now (some t) = elim (Bool-cases (ltb (now + 604800) t)) [
  | inl e ↦ rw (e, exp_error) (λ p. cc)
  | inr e ↦ λ p. (t, refl, ground (arith, e))
]

claims-IsCurrent : (now : ℕ) (c : Claims) → claims_error now c ≡ none → IsCurrent now c
unfolding claims_error
claims-IsCurrent now c = by_error c.registered_error refl
  where
    by_error :
        (x : Option Error) → c.registered_error ≡ x → claims_error now c ≡ none → IsCurrent now c
    by_error (some e) q = rw (q, claims_error) (λ r. cc)
    by_error none q = elim (Bool-cases (str_eq c.subject "")) [
      | inl s ↦ rw (q, s, claims_error) (λ r. cc)
      | inr s ↦ elim (Bool-cases (str_eq c.public_key "")) [
        | inl k ↦ rw (q, s, k, claims_error) (λ r. cc)
        | inr k ↦
            rw (q, s, k, claims_error)
              (λ r. let b = expiry-bound now c.expires_at r in (refl, refl, refl, b.0, b.1, b.2))
      ]
    ]

checked-IsCurrent :
    (now : ℕ) (t : Token) (c : Claims)
    → checked_token now t ≡ ok c
    → (t.valid ≡ true) × IsCurrent now c
unfolding checked_token claims_or
checked-IsCurrent now t c = by_error (claims_error now t.claims) refl
  where
    by_error :
        (x : Option Error)
        → claims_error now t.claims ≡ x
        → checked_token now t ≡ ok c
        → (t.valid ≡ true) × IsCurrent now c
    by_error (some e) q = rw (q, checked_token) (λ r. cc)
    by_error none q = elim (Bool-cases t.valid) [
      | inl v ↦
          rw (q, v, checked_token)
            (λ r. (
              refl,
              claims-IsCurrent now c (sym (ap (λ x. claims_error now (claims_or c x)) r) ∙ q),
            ))
      | inr v ↦ rw (q, v, checked_token) (λ r. cc)
    ]

-- A JWT decodes only if the parser's registered checks pass and its claims name a subject, a key
-- and an expiry at most seven days ahead.
pub decode_jwt-IsCurrent :
    (env : Env) (now : ℕ) (jwt : String) (c : Claims)
    → decode_jwt env now jwt ≡ ok c
    → IsCurrent now c
unfolding decode_jwt
decode_jwt-IsCurrent env now jwt c = by_token (env.parse_jwt jwt) refl
  where
    by_token :
        (x : Result Token) → env.parse_jwt jwt ≡ x → decode_jwt env now jwt ≡ ok c → IsCurrent now c
    by_token (err e) q = rw (q, decode_jwt) (λ r. cc)
    by_token (ok t) q = rw (q, decode_jwt) (λ r. (checked-IsCurrent now t c r).1)
