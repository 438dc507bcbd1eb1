-- ===== src/Prelude/Text.antt =====
-- Texts that are taken apart at a character: `strings.Split`, `strings.Cut` and `strings.Join`,
-- where the separator is one character, given by its code.
use Prim.Native.Char.{Char, code}
use Prim.Native.Nat.{ℕ}
use Prim.Native.String.append
use Prim.Native.String.{String, ◌++◌ as concat}
use mathlib.Core.Path.{◌≡◌, refl, ap, ◌∙◌}
use mathlib.Core.Logic.{inl, inr}
use mathlib.Core.Bool.{Bool, true, false, ◌||◌, ◌&&◌}
use mathlib.Core.List.{List, [], ◌∷◌}
use native.Mathlib.Omega.{arith}
use dms_api.Prelude.Tests.{leb, ◌==◌, if◌then◌else◌, Bool-cases}
use dms_api.Prelude.Lists.{All}

-- Whether a character occurs in a text.
unfoldable pub occurs : ℕ → String → Bool
occurs sep String.[] = false
occurs sep (String.◌∷◌ c s) = code c == sep || occurs sep s

cons_first : Char → List String → List String
cons_first c [] = []
cons_first c (x ∷ xs) = String.◌∷◌ c x ∷ xs

-- `strings.Split`
unfoldable pub split : ℕ → String → List String
unfolding cons_first
split sep String.[] = "" ∷ []
split sep (String.◌∷◌ c s) =
    let rest = split sep s in if code c == sep then "" ∷ rest else cons_first c rest

-- `strings.Cut`: all of the text and the empty one where the separator does not occur.
unfoldable pub cut : ℕ → String → String × String
cut sep String.[] = ("", "")
cut sep (String.◌∷◌ c s) =
    let rest = cut sep s in if code c == sep then ("", s) else (String.◌∷◌ c rest.0, rest.1)

-- `strings.Join`
unfoldable pub join : String → List String → String
join sep [] = ""
join sep (x ∷ []) = x
join sep (x ∷ y ∷ xs) = concat x (concat sep (join sep (y ∷ xs)))

-- `unicode.IsSpace`
unfoldable pub is_space : ℕ → Bool
is_space n =
    (leb 9 n && leb n 13)
    || n == 32
    || n == 133
    || n == 160
    || n == 5760
    || (leb 8192 n && leb n 8202)
    || n == 8232
    || n == 8233
    || n == 8239
    || n == 8287
    || n == 12288

unfoldable pub trim_left : String → String
trim_left String.[] = ""
trim_left (String.◌∷◌ c s) =
    let rest = trim_left s in if is_space (code c) then rest else String.◌∷◌ c s

cons_kept : Char → String → String
cons_kept c String.[] = if is_space (code c) then "" else String.◌∷◌ c String.[]
cons_kept c (String.◌∷◌ d s) = String.◌∷◌ c (String.◌∷◌ d s)

unfoldable pub trim_right : String → String
unfolding cons_kept
trim_right String.[] = ""
trim_right (String.◌∷◌ c s) = cons_kept c (trim_right s)

-- `strings.TrimSpace`
unfoldable pub trim_space : String → String
trim_space s = trim_right (trim_left s)

pub split-no_sep : (sep : ℕ) (s : String) → occurs sep s ≡ false → split sep s ≡ s ∷ []
unfolding split occurs
split-no_sep sep String.[] = λ h. refl
split-no_sep sep (String.◌∷◌ c s) = elim (Bool-cases (code c == sep)) [
  | inl e ↦ rw e (λ h. cc)
  | inr e ↦ rw e (λ h. ap (cons_first c) (split-no_sep sep s h))
]

pub split-concat :
    (sep : ℕ) (d : Char) (x s : String)
    → (code d == sep) ≡ true
    → occurs sep x ≡ false
    → split sep (concat x (String.◌∷◌ d s)) ≡ x ∷ split sep s
unfolding split occurs
split-concat sep d String.[] s e = λ h. ap (split sep) (append.nil (String.◌∷◌ d s)) ∙ rw e refl
split-concat sep d (String.◌∷◌ k x) s e = elim (Bool-cases (code k == sep)) [
  | inl b ↦ rw b (λ h. cc)
  | inr b ↦ rw b (λ h.
      ap (split sep) (append.cons k x (String.◌∷◌ d s))
      ∙ rw b (ap (cons_first k) (split-concat sep d x s e h)))
]

pub cut-concat :
    (sep : ℕ) (d : Char) (x s : String)
    → (code d == sep) ≡ true
    → occurs sep x ≡ false
    → cut sep (concat x (String.◌∷◌ d s)) ≡ (x, s)
unfolding cut occurs
cut-concat sep d String.[] s e = λ h. ap (cut sep) (append.nil (String.◌∷◌ d s)) ∙ rw e refl
cut-concat sep d (String.◌∷◌ k x) s e = elim (Bool-cases (code k == sep)) [
  | inl b ↦ rw b (λ h. cc)
  | inr b ↦ rw b (λ h.
      ap (cut sep) (append.cons k x (String.◌∷◌ d s))
      ∙ rw b (ap (λ (r : String × String). (String.◌∷◌ k r.0, r.1)) (cut-concat sep d x s e h)))
]

pub occurs-concat :
    (sep : ℕ) (x y : String) → occurs sep (concat x y) ≡ (occurs sep x || occurs sep y)
unfolding occurs
occurs-concat sep String.[] y = ap (occurs sep) (append.nil y)
occurs-concat sep (String.◌∷◌ c x) y =
    ap (occurs sep) (append.cons c x y) ∙ ground (arith, occurs-concat sep x y)

-- Texts without the separator are got back from their join, if there is one.
pub split-join :
    (sep : ℕ) (d : Char) (x : String) (xs : List String)
    → (code d == sep) ≡ true
    → All (λ y. occurs sep y ≡ false) (x ∷ xs)
    → split sep (join (String.◌∷◌ d String.[]) (x ∷ xs)) ≡ x ∷ xs
unfolding join
split-join sep d x [] e h = split-no_sep sep x h.0
split-join sep d x (y ∷ xs) e h =
    ap (λ t. split sep (concat x t))
      (append.cons d String.[] (join (String.◌∷◌ d String.[]) (y ∷ xs))
        ∙ ap (String.◌∷◌ d) (append.nil (join (String.◌∷◌ d String.[]) (y ∷ xs))))
    ∙ split-concat sep d x (join (String.◌∷◌ d String.[]) (y ∷ xs)) e h.0
    ∙ ap (λ t. x ∷ t) (split-join sep d y xs e h.1)

pub occurs-join :
    (sep : ℕ) (d : String) (xs : List String)
    → occurs sep d ≡ false
    → All (λ y. occurs sep y ≡ false) xs
    → occurs sep (join d xs) ≡ false
unfolding join occurs
occurs-join sep d [] e h = refl
occurs-join sep d (x ∷ []) e h = h.0
occurs-join sep d (x ∷ y ∷ xs) e h = ground (
  arith,
  occurs-concat sep x (concat d (join d (y ∷ xs))),
  occurs-concat sep d (join d (y ∷ xs)),
  occurs-join sep d (y ∷ xs) e h.1,
  h.0,
  e,
)
