-- ===== src/Balancer/Selection/Counts.antt =====
-- Counting the nodes of a list that pass a test, and what the sort and the shuffle promise.
use dms_api.Prelude.{
  ℕ, zero, suc, ◌≤◌, ◌≡◌, refl, sym, ap, ◌∙◌, Bool, true, false, List, [], ◌∷◌, map, arith,
  if◌then◌else◌, inl, inr, Bool-cases, length, take, All,
}
use dms_api.Balancer.Nodes.{ScoredNode, Sort}
use dms_api.Balancer.Selection.{keep}

unfoldable pub count_if : (ScoredNode → Bool) → List ScoredNode → ℕ
count_if p [] = 0
count_if p (n ∷ ns) = let rest = count_if p ns in if p n then suc rest else rest

-- A list is in order if no node stands behind one that it comes before.
abbrev pub IsInOrder : (ScoredNode → ScoredNode → Bool) → List ScoredNode → Type 0
IsInOrder less [] = Unit
IsInOrder less (n ∷ ns) = All (λ m. less m n ≡ false) ns × IsInOrder less ns

-- A strict comparison for which being incomparable is transitive, as `sort.Slice` wants it.
pub record IsWeakOrder (less : ScoredNode → ScoredNode → Bool) : Type 0 where
  pub asym : (a b : ScoredNode) → less a b ≡ true → less b a ≡ false
  pub trans : (a b c : ScoredNode) → less a b ≡ false → less b c ≡ false → less a c ≡ false

-- A function that only moves the nodes of a list about.
abbrev pub IsRearranging : (List ScoredNode → List ScoredNode) → Type 0
IsRearranging f = (p : ScoredNode → Bool) (ns : List ScoredNode) → count_if p (f ns) ≡ count_if p ns

-- `sort.Slice` as it is documented: the nodes are moved about, and stand in order afterwards.
pub record IsSorting (sort : Sort) : Type 0 where
  pub rearranges : (less : ScoredNode → ScoredNode → Bool) → IsRearranging (sort less)
  pub orders :
      (less : ScoredNode → ScoredNode → Bool) (ns : List ScoredNode)
      → IsWeakOrder less
      → IsInOrder less (sort less ns)

pub count_if-ext :
    (p q : ScoredNode → Bool) (ns : List ScoredNode)
    → All (λ n. p n ≡ q n) ns
    → count_if p ns ≡ count_if q ns
unfolding count_if
count_if-ext p q [] h = refl
count_if-ext p q (n ∷ ns) h = rw (h.0) (rw (count_if-ext p q ns h.1) refl)

pub count_if-map :
    (p : ScoredNode → Bool) (f : ScoredNode → ScoredNode) (ns : List ScoredNode)
    → count_if p (map f ns) ≡ count_if (λ n. p (f n)) ns
unfolding count_if
count_if-map p f [] = refl
count_if-map p f (n ∷ ns) = rw (count_if-map p f ns) refl

pub count_if_le : (p : ScoredNode → Bool) (ns : List ScoredNode) → count_if p ns ≤ length ns
unfolding count_if
count_if_le p [] = omega arith
count_if_le p (n ∷ ns) = ground (arith, count_if_le p ns)

pub count_if-true : (ns : List ScoredNode) → count_if (λ n. true) ns ≡ length ns
unfolding count_if
count_if-true [] = refl
count_if-true (n ∷ ns) = ap suc (count_if-true ns)

-- All pass where as many pass as there are.
pub all_of_count :
    (p : ScoredNode → Bool) (ns : List ScoredNode)
    → count_if p ns ≡ length ns
    → All (λ n. p n ≡ true) ns
unfolding count_if
all_of_count p [] h = tt
all_of_count p (n ∷ ns) h = elim (Bool-cases (p n)) [
  | inl e ↦ (e, all_of_count p ns (ground (arith, h, e)))
  | inr e ↦ absurd (ground (arith, h, e, count_if_le p ns))
]

pub count_of_all :
    (p : ScoredNode → Bool) (ns : List ScoredNode)
    → All (λ n. p n ≡ true) ns
    → count_if p ns ≡ length ns
unfolding count_if
count_of_all p [] h = refl
count_of_all p (n ∷ ns) h = rw (h.0) (ap suc (count_of_all p ns h.1))

pub length-rearranging :
    (f : List ScoredNode → List ScoredNode) (ns : List ScoredNode)
    → IsRearranging f
    → length (f ns) ≡ length ns
length-rearranging f ns h = sym (count_if-true (f ns)) ∙ h (λ n. true) ns ∙ count_if-true ns

-- What holds of all holds of all after a rearrangement.
pub all-rearranging :
    (f : List ScoredNode → List ScoredNode) (p : ScoredNode → Bool) (ns : List ScoredNode)
    → IsRearranging f
    → All (λ n. p n ≡ true) ns
    → All (λ n. p n ≡ true) (f ns)
all-rearranging f p ns h a =
    all_of_count p (f ns) (h p ns ∙ count_of_all p ns a ∙ sym (length-rearranging f ns h))

pub length-keep :
    (p : ScoredNode → Bool) (ns : List ScoredNode) → length (keep p ns) ≡ count_if p ns
unfolding keep count_if
length-keep p [] = refl
length-keep p (n ∷ ns) = ground (arith, length-keep p ns)

pub keep-all : (p : ScoredNode → Bool) (ns : List ScoredNode) → All (λ n. p n ≡ true) (keep p ns)
unfolding keep
keep-all p [] = tt
keep-all p (n ∷ ns) = elim (Bool-cases (p n)) [
  | inl e ↦ rw e (e, keep-all p ns)
  | inr e ↦ rw e (keep-all p ns)
]

pub count_if-keep :
    (p q : ScoredNode → Bool) (ns : List ScoredNode) → count_if p (keep q ns) ≤ count_if p ns
unfolding keep count_if
count_if-keep p q [] = omega arith
count_if-keep p q (n ∷ ns) = ground (arith, count_if-keep p q ns)

pub count_if-take :
    (p : ScoredNode → Bool) (k : ℕ) (ns : List ScoredNode) → count_if p (take k ns) ≤ count_if p ns
unfolding count_if
count_if-take p zero ns = ground arith
count_if-take p (suc k) [] = omega arith
count_if-take p (suc k) (n ∷ ns) = ground (arith, count_if-take p k ns)
