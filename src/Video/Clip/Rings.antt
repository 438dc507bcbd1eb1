-- ===== src/Video/Clip/Rings.antt =====
-- Lists at the start of the ring of a playlist: their segments, slices and lengths.
use dms_api.Prelude.{
  ℕ, zero, suc, ◌-◌, ◌≤◌, ◌<◌, ◌≡◌, refl, ap, Option, some, List, [], ◌∷◌, ◌++◌, map, arith, length,
  get_elem?, take, drop,
}

module _ {A : Type 0} where
  pub drop-append :
      (i : ℕ) (xs : List A) (ys : List (Option A))
      → i ≤ length xs
      → drop i (map some xs ++ ys) ≡ map some (drop i xs) ++ ys
  drop-append zero xs ys h = refl
  drop-append (suc i) [] ys h = let no : ⊥ = omega (arith, h) in elim no [ ]
  drop-append (suc i) (x ∷ xs) ys h = drop-append i xs ys (omega (arith, h))

  pub take-append :
      (k : ℕ) (xs : List A) (ys : List (Option A))
      → k ≤ length xs
      → take k (map some xs ++ ys) ≡ map some (take k xs)
  take-append zero xs ys h = refl
  take-append (suc k) [] ys h = let no : ⊥ = omega (arith, h) in elim no [ ]
  take-append (suc k) (x ∷ xs) ys h = ap (λ t. some x ∷ t) (take-append k xs ys (omega (arith, h)))

  pub length-drop : (i : ℕ) (xs : List A) → length (drop i xs) ≡ length xs - i
  length-drop zero xs = omega arith
  length-drop (suc i) [] = omega arith
  length-drop (suc i) (x ∷ xs) = omega (arith, length-drop i xs)

  pub length-take : (k : ℕ) (xs : List A) → k ≤ length xs → length (take k xs) ≡ k
  length-take zero xs h = refl
  length-take (suc k) [] h = omega (arith, h)
  length-take (suc k) (x ∷ xs) h = omega (arith, length-take k xs (omega (arith, h)))

  pub length-ring : (xs : List A) (ys : List (Option A)) → length xs ≤ length (map some xs ++ ys)
  length-ring [] ys = omega arith
  length-ring (x ∷ xs) ys = omega (arith, length-ring xs ys)

  pub get_elem?-ring :
      (i : ℕ) (xs : List A) (ys : List (Option A)) (x : A)
      → get_elem? xs i ≡ some x
      → get_elem? (map some xs ++ ys) i ≡ some (some x)
  get_elem?-ring i [] ys x = λ h. cc
  get_elem?-ring zero (y ∷ xs) ys x = λ h. ap some h
  get_elem?-ring (suc i) (y ∷ xs) ys x = λ h. get_elem?-ring i xs ys x h

  pub get_elem?-some : (i : ℕ) (xs : List A) → i < length xs → (x : A) × (get_elem? xs i ≡ some x)
  get_elem?-some i [] h = let no : ⊥ = omega (arith, h) in elim no [ ]
  get_elem?-some zero (y ∷ xs) h = (y, refl)
  get_elem?-some (suc i) (y ∷ xs) h = get_elem?-some i xs (omega (arith, h))
