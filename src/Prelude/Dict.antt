-- ===== src/Prelude/Dict.antt =====
-- Go's `map[string]V` as an association list: a read of a missing key is `none`, a write replaces,
-- and `delete` of a missing key does nothing. Nothing here depends on the iteration order.
use Prim.Native.String.{String}
use mathlib.Core.Path.{◌≡◌, refl}
use mathlib.Core.Option.{Option, none, some}
use mathlib.Core.List.{List, [], ◌∷◌}
use native.Mathlib.Omega.{arith}
use text.Mathlib.Text.{◌==◌ as str_eq}
use text.Mathlib.TextEquality.{eq_iff}
use dms_api.Prelude.Tests.{if◌then◌else◌}
use dms_api.Prelude.Tests.{Bool-cases}
use mathlib.Core.Logic.{inl, inr}
use mathlib.Core.Path.{subst₂}

abbrev pub Dict {ℓ} : Type ℓ → Type ℓ
Dict V = List (String × V)

module _ {ℓ} {V : Type ℓ} where
  unfoldable pub get : String → Dict V → Option V
  get k [] = none
  get k ((j, v) ∷ m) = if str_eq j k then some v else get k m

  unfoldable pub delete : String → Dict V → Dict V
  delete k [] = []
  delete k ((j, v) ∷ m) = let rest = delete k m in if str_eq j k then rest else (j, v) ∷ rest

  unfoldable pub put : String → V → Dict V → Dict V
  unfolding delete
  put k v m = (k, v) ∷ delete k m

  pub get-delete :
      (k j : String) (m : Dict V) → get j (delete k m) ≡ (if str_eq k j then none else get j m)
  unfolding get delete
  get-delete k j [] = ground arith
  get-delete k j ((i, v) ∷ m) = ground (arith, get-delete k j m, eq_iff i k, eq_iff i j, eq_iff k j)

  pub get-put :
      (k j : String) (v : V) (m : Dict V)
      → get j (put k v m) ≡ (if str_eq k j then some v else get j m)
  get-put k j v m = unfold put get in ground (arith, get-delete k j m)

pub ruleset dict_laws = (get-put, get-delete)

-- No key stands twice.
abbrev pub IsDistinct {ℓ} : {V : Type ℓ} → Dict V → Type ℓ
IsDistinct [] = Unit
IsDistinct ((k, v) ∷ m) = (get k m ≡ none) × IsDistinct m

module _ {ℓ} {V : Type ℓ} where
  pub get-delete_self : (k : String) (m : Dict V) → get k (delete k m) ≡ none
  get-delete_self k m = ground (arith, get-delete k k m, eq_iff k k)

  pub delete-IsDistinct : (k : String) (m : Dict V) → IsDistinct m → IsDistinct (delete k m)
  unfolding delete
  delete-IsDistinct k [] h = h
  delete-IsDistinct k ((j, v) ∷ m) h = elim (Bool-cases (str_eq j k)) [
    | inl e ↦ rw e (delete-IsDistinct k m h.1)
    | inr e ↦ rw e (ground (arith, get-delete k j m), delete-IsDistinct k m h.1)
  ]

  pub put-IsDistinct : (k : String) (v : V) (m : Dict V) → IsDistinct m → IsDistinct (put k v m)
  unfolding put
  put-IsDistinct k v m h = (get-delete_self k m, delete-IsDistinct k m h)

module _ {ℓ κ} {V : Type ℓ} (P : String → V → Type κ) where
  -- `P` holds at every entry.
  abbrev pub AllEntries : Dict V → Type κ
  AllEntries [] = Unit
  AllEntries ((k, v) ∷ m) = P k v × AllEntries m

  pub delete-AllEntries : (k : String) (m : Dict V) → AllEntries m → AllEntries (delete k m)
  unfolding delete
  delete-AllEntries k [] h = h
  delete-AllEntries k ((j, v) ∷ m) h = elim (Bool-cases (str_eq j k)) [
    | inl e ↦ rw e (delete-AllEntries k m h.1)
    | inr e ↦ rw e (h.0, delete-AllEntries k m h.1)
  ]

  pub put-AllEntries :
      (k : String) (v : V) (m : Dict V) → P k v → AllEntries m → AllEntries (put k v m)
  unfolding put
  put-AllEntries k v m p h = (p, delete-AllEntries k m h)

  pub get-AllEntries : (k : String) (v : V) (m : Dict V) → AllEntries m → get k m ≡ some v → P k v
  unfolding get
  get-AllEntries k v [] h e = cc
  get-AllEntries k v ((j, w) ∷ m) h e = elim (Bool-cases (str_eq j k)) [
    | inl q ↦ let p : w ≡ v = ground arith in subst₂ P ((eq_iff j k).0 q) p h.0
    | inr q ↦ get-AllEntries k v m h.1 (rw q at e)
  ]

  pub delete-put-AllEntries :
      (k : String) (v : V) (m : Dict V) → AllEntries m → AllEntries (delete k (put k v m))
  unfolding delete put
  delete-put-AllEntries k v m h =
      rw ((eq_iff k k).1 refl) (delete-AllEntries k (delete k m) (delete-AllEntries k m h))
