-- ===== src/Manifest/Sorting.antt =====
-- `SortTranscodedStats` and the swap of a large first rendition of clients/manifest.go.
use dms_api.Prelude.{
  if◌then◌else◌, ◌*◌, ◌<◌, ◌≤◌, ◌||◌, leb, ◌⊎◌, ℕ, suc, ◌≡◌, refl, Bool, true, false, List, [], ◌∷◌,
  arith, inl, inr, Bool-cases,
}
use dms_api.Manifest.Upload.{
  RenditionStats, goes_first, insert_stats, sort_transcoded_stats, swap_large,
}

-- No rendition stands behind one that it goes before.
abbrev IsOrdered : List RenditionStats → Type 0
IsOrdered [] = Unit
IsOrdered (a ∷ []) = Unit
IsOrdered (a ∷ b ∷ rest) = (goes_first b a ≡ false) × IsOrdered (b ∷ rest)

goes_first-asym : (a b : RenditionStats) → goes_first a b ≡ true → goes_first b a ≡ false
unfolding goes_first
goes_first-asym a b h = ground (arith, h)

insert-IsOrdered :
    (a : RenditionStats) (l : List RenditionStats) → IsOrdered l → IsOrdered (insert_stats a l)
unfolding insert_stats
insert-IsOrdered a [] h = tt
insert-IsOrdered a (b ∷ []) h = elim (Bool-cases (goes_first b a)) [
  | inl e ↦ rw e (goes_first-asym b a e, tt)
  | inr e ↦ rw e (e, tt)
]
insert-IsOrdered a (b ∷ c ∷ rest) h = elim (Bool-cases (goes_first b a)) [
  | inl e ↦ elim (Bool-cases (goes_first c a)) [
    | inl d ↦ let ih = insert-IsOrdered a (c ∷ rest) h.1 in rw (e, d) (h.0, rw d at ih)
    | inr d ↦
        let ih = insert-IsOrdered a (c ∷ rest) h.1 in rw (e, d) (goes_first-asym b a e, rw d at ih)
  ]
  | inr e ↦ rw e (e, h)
]

sort-IsOrdered : (l : List RenditionStats) → IsOrdered (sort_transcoded_stats l)
unfolding sort_transcoded_stats
sort-IsOrdered [] = tt
sort-IsOrdered (a ∷ l) = insert-IsOrdered a (sort_transcoded_stats l) (sort-IsOrdered l)

-- A rendition has a higher bitrate than another one, or the same bitrate and a picture no smaller.
abbrev pub IsAhead : RenditionStats → RenditionStats → Type 0
IsAhead a b =
    (b.bits_per_second < a.bits_per_second)
    ⊎ ((a.bits_per_second ≡ b.bits_per_second) × (b.width * b.height ≤ a.width * a.height))

abbrev pub IsSorted : List RenditionStats → Type 0
IsSorted [] = Unit
IsSorted (a ∷ []) = Unit
IsSorted (a ∷ b ∷ rest) = IsAhead a b × IsSorted (b ∷ rest)

ahead : (a b : RenditionStats) → goes_first b a ≡ false → IsAhead a b
unfolding goes_first
ahead a b h = ground (arith, h)

sorted : (l : List RenditionStats) → IsOrdered l → IsSorted l
sorted [] h = tt
sorted (a ∷ []) h = tt
sorted (a ∷ b ∷ rest) h = (ahead a b h.0, sorted (b ∷ rest) h.1)

abbrev pub count_passing {ℓ} : {A : Type ℓ} → (A → Bool) → List A → ℕ
count_passing q [] = 0
count_passing q (a ∷ l) = let rest = count_passing q l in if q a then suc rest else rest

-- The list is that of the renditions in another order: as many of them pass any test.
abbrev pub IsRearranged : List RenditionStats → List RenditionStats → Type 0
IsRearranged l stats = (q : RenditionStats → Bool) → count_passing q l ≡ count_passing q stats

count_passing-insert :
    (q : RenditionStats → Bool) (a : RenditionStats) (l : List RenditionStats)
    → count_passing q (insert_stats a l) ≡ count_passing q (a ∷ l)
unfolding insert_stats
count_passing-insert q a [] = refl
count_passing-insert q a (b ∷ l) = elim (Bool-cases (goes_first b a)) [
  | inl e ↦ rw e (ground (arith, count_passing-insert q a l))
  | inr e ↦ rw e refl
]

pub sort-IsRearranged : (l : List RenditionStats) → IsRearranged (sort_transcoded_stats l) l
unfolding sort_transcoded_stats
sort-IsRearranged [] q = refl
sort-IsRearranged (a ∷ l) q =
    ground (arith, count_passing-insert q a (sort_transcoded_stats l), sort-IsRearranged l q)

-- The first two change places exactly where the first one has a side of 960 or more.
abbrev pub IsSwapped : List RenditionStats → List RenditionStats → Type 0
IsSwapped (a ∷ b ∷ rest) out =
    ((a.width < 960) × (a.height < 960) × (out ≡ a ∷ b ∷ rest))
    ⊎ (((960 ≤ a.width) ⊎ (960 ≤ a.height)) × (out ≡ b ∷ a ∷ rest))
IsSwapped l out = out ≡ l

pub swap-IsSwapped : (l : List RenditionStats) → IsSwapped l (swap_large l)
unfolding swap_large
swap-IsSwapped [] = refl
swap-IsSwapped (a ∷ []) = refl
swap-IsSwapped (a ∷ b ∷ rest) = elim (Bool-cases (leb 960 a.width || leb 960 a.height)) [
  | inl e ↦ rw e (inr (ground (arith, e), refl))
  | inr e ↦ rw e (inl (ground (arith, e), ground (arith, e), refl))
]

pub sort-IsSorted : (l : List RenditionStats) → IsSorted (sort_transcoded_stats l)
sort-IsSorted l = sorted (sort_transcoded_stats l) (sort-IsOrdered l)
