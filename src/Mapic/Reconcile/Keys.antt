-- ===== src/Mapic/Reconcile/Keys.antt =====
-- The maps of mapic/mistapiconnector_app.go whose keys are pairs of texts, as association lists.
use dms_api.Prelude.{
  ◌≡◌, refl, String, Bool, false, ◌&&◌, ◌||◌, Option, none, some, List, [], ◌∷◌, arith, str_eq,
  if◌then◌else◌, inl, inr, Bool-cases,
}

-- The type `key`
abbrev pub Key : Type 0
Key = String × String

abbrev pub key_eq : Key → Key → Bool
key_eq a b = str_eq a.0 b.0 && str_eq a.1 b.1

unfoldable pub listed : Key → List Key → Bool
listed k [] = false
listed k (j ∷ ks) = key_eq j k || listed k ks

module _ {V : Type 0} where
  unfoldable pub find : Key → List (Key × V) → Option V
  find k [] = none
  find k ((j, v) ∷ m) = if key_eq j k then some v else find k m

  unfoldable pub drop_key : Key → List (Key × V) → List (Key × V)
  drop_key k [] = []
  drop_key k ((j, v) ∷ m) = let rest = drop_key k m in if key_eq j k then rest else (j, v) ∷ rest

  unfoldable pub insert : Key → V → List (Key × V) → List (Key × V)
  unfolding drop_key
  insert k v m = (k, v) ∷ drop_key k m

  -- No key stands twice.
  abbrev pub IsKeyed : List (Key × V) → Type 0
  IsKeyed [] = Unit
  IsKeyed ((k, v) ∷ m) = (find k m ≡ none) × IsKeyed m

  pub find-drop_key :
      (k j : Key) (m : List (Key × V)) → find j m ≡ none → find j (drop_key k m) ≡ none
  unfolding find drop_key
  find-drop_key k j [] h = refl
  find-drop_key k j ((i, v) ∷ m) h = elim (Bool-cases (key_eq i j)) [
    | inl e ↦ let no : ⊥ = ground (arith, h, e) in elim no [ ]
    | inr e ↦ elim (Bool-cases (key_eq i k)) [
      | inl d ↦ rw d (find-drop_key k j m (rw e at h))
      | inr d ↦ rw d (rw e (find-drop_key k j m (rw e at h)))
    ]
  ]

  pub find-drop_self : (k : Key) (m : List (Key × V)) → find k (drop_key k m) ≡ none
  unfolding find drop_key
  find-drop_self k [] = refl
  find-drop_self k ((i, v) ∷ m) = elim (Bool-cases (key_eq i k)) [
    | inl e ↦ rw e (find-drop_self k m)
    | inr e ↦ rw e (rw e (find-drop_self k m))
  ]

  pub drop_key-IsKeyed : (k : Key) (m : List (Key × V)) → IsKeyed m → IsKeyed (drop_key k m)
  unfolding drop_key
  drop_key-IsKeyed k [] h = h
  drop_key-IsKeyed k ((i, v) ∷ m) h = elim (Bool-cases (key_eq i k)) [
    | inl e ↦ rw e (drop_key-IsKeyed k m h.1)
    | inr e ↦ rw e (find-drop_key k i m h.0, drop_key-IsKeyed k m h.1)
  ]

  pub insert-IsKeyed : (k : Key) (v : V) (m : List (Key × V)) → IsKeyed m → IsKeyed (insert k v m)
  unfolding insert
  insert-IsKeyed k v m h = (find-drop_self k m, drop_key-IsKeyed k m h)
