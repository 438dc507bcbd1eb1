-- ===== src/Balancer/Selection/Cuts.antt =====
-- Cutting and mapping lists of nodes, and tests that look at a node itself.
use dms_api.Prelude.{
  ℕ, zero, suc, ◌≤◌, ◌≡◌, refl, ap, ◌∙◌, String, Bool, true, List, [], ◌∷◌, ◌++◌, map, arith, ltb,
  inl, inr, Bool-cases, if_both, length, take, drop, All,
}
use Prim.Native.Nat.{min}
use mathlib.Core.List.{append-nil}
use dms_api.Balancer.Nodes.{ScoredNode, Streams, NodeMetrics}
use dms_api.Balancer.Selection.{keep, truncate_returned}
use dms_api.Balancer.Selection.Counts.{count_if, count_if-take}

-- A test that looks at a node itself, and not at what the balancer notes on it.
abbrev pub Test : Type 0
Test = String → Streams → NodeMetrics → Bool

abbrev pub passes : Test → ScoredNode → Bool
passes q n = q n.name n.streams n.metrics

pub All-map :
    (f : ScoredNode → ScoredNode) (p : ScoredNode → Bool) (ns : List ScoredNode)
    → All (λ n. p (f n) ≡ true) ns
    → All (λ n. p n ≡ true) (map f ns)
All-map f p [] h = tt
All-map f p (n ∷ ns) h = (h.0, All-map f p ns h.1)

pub length-map :
    (f : ScoredNode → ScoredNode) (ns : List ScoredNode) → length (map f ns) ≡ length ns
length-map f [] = refl
length-map f (n ∷ ns) = ap suc (length-map f ns)

pub keep-ext :
    (p q : ScoredNode → Bool) (ns : List ScoredNode)
    → All (λ n. p n ≡ q n) ns
    → keep p ns ≡ keep q ns
unfolding keep
keep-ext p q [] h = refl
keep-ext p q (n ∷ ns) h = rw (h.0) (rw (keep-ext p q ns h.1) refl)

All-take :
    (p : ScoredNode → Bool) (k : ℕ) (ns : List ScoredNode)
    → All (λ n. p n ≡ true) ns
    → All (λ n. p n ≡ true) (take k ns)
All-take p zero ns h = tt
All-take p (suc k) [] h = tt
All-take p (suc k) (n ∷ ns) h = (h.0, All-take p k ns h.1)

pub All-truncate :
    (p : ScoredNode → Bool) (k : ℕ) (ns : List ScoredNode)
    → All (λ n. p n ≡ true) ns
    → All (λ n. p n ≡ true) (truncate_returned k ns)
unfolding truncate_returned
All-truncate p k ns h =
    if_both (λ x. All (λ n. p n ≡ true) x) (ltb (length ns) k) ns (take k ns) (λ _. h)
      (λ _. All-take p k ns h)

length-take : (k : ℕ) (ns : List ScoredNode) → k ≤ length ns → length (take k ns) ≡ k
length-take zero ns h = refl
length-take (suc k) [] h = absurd (omega arith)
length-take (suc k) (n ∷ ns) h = ap suc (length-take k ns (omega arith))

pub length-truncate :
    (k : ℕ) (ns : List ScoredNode) → length (truncate_returned k ns) ≡ min k (length ns)
unfolding truncate_returned
length-truncate k ns = elim (Bool-cases (ltb (length ns) k)) [
  | inl e ↦ rw e (ground (arith, e))
  | inr e ↦ rw e (length-take k ns (ground (arith, e)) ∙ ground (arith, e))
]

pub count_if-truncate :
    (p : ScoredNode → Bool) (k : ℕ) (ns : List ScoredNode)
    → count_if p (truncate_returned k ns) ≤ count_if p ns
unfolding truncate_returned
count_if-truncate p k ns =
    if_both (λ x. count_if p x ≤ count_if p ns) (ltb (length ns) k) ns (take k ns)
      (λ _. omega arith) (λ _. count_if-take p k ns)

take-drop : (k : ℕ) (ns : List ScoredNode) → take k ns ++ drop k ns ≡ ns
take-drop zero ns = refl
take-drop (suc k) [] = refl
take-drop (suc k) (n ∷ ns) = ap (λ t. n ∷ t) (take-drop k ns)

-- What a truncation leaves out.
pub truncate_rest :
    (k : ℕ) (ns : List ScoredNode)
    → (rest : List ScoredNode) × (truncate_returned k ns ++ rest ≡ ns)
unfolding truncate_returned
truncate_rest k ns = elim (Bool-cases (ltb (length ns) k)) [
  | inl e ↦ rw e ([], append-nil ns)
  | inr e ↦ rw e (drop k ns, take-drop k ns)
]
