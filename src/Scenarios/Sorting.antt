-- ===== src/Scenarios/Sorting.antt =====
-- A sort that does what `sort.Slice` promises, for the runs of the balancer.
use dms_api.Prelude.{
  ◌≡◌, refl, ◌∙◌, Bool, false, List, [], ◌∷◌, arith, if◌then◌else◌, inl, inr, Bool-cases, All,
}
use dms_api.Balancer.Nodes.{ScoredNode, Sort}
use dms_api.Balancer.Selection.Counts.{count_if, IsInOrder, IsWeakOrder, IsSorting}

abbrev Less : Type 0
Less = ScoredNode → ScoredNode → Bool

unfoldable insert_by : Less → ScoredNode → List ScoredNode → List ScoredNode
insert_by less x [] = x ∷ []
insert_by less x (y ∷ ys) =
    let rest = insert_by less x ys in if less y x then y ∷ rest else x ∷ y ∷ ys

unfoldable pub insertion_sort : Sort
unfolding insert_by
insertion_sort less [] = []
insertion_sort less (x ∷ xs) = insert_by less x (insertion_sort less xs)

count_if-insert_by :
    (less : Less) (p : ScoredNode → Bool) (x : ScoredNode) (ys : List ScoredNode)
    → count_if p (insert_by less x ys) ≡ count_if p (x ∷ ys)
unfolding count_if insert_by
count_if-insert_by less p x [] = refl
count_if-insert_by less p x (y ∷ ys) = elim (Bool-cases (less y x)) [
  | inl e ↦ rw e (ground (arith, count_if-insert_by less p x ys))
  | inr e ↦ rw e refl
]

count_if-insertion_sort :
    (less : Less) (p : ScoredNode → Bool) (xs : List ScoredNode)
    → count_if p (insertion_sort less xs) ≡ count_if p xs
unfolding count_if insertion_sort
count_if-insertion_sort less p [] = refl
count_if-insertion_sort less p (x ∷ xs) =
    count_if-insert_by less p x (insertion_sort less xs)
    ∙ ground (arith, count_if-insertion_sort less p xs)

module _ (less : Less) (order : IsWeakOrder less) where
  All-insert_by :
      (y x : ScoredNode) (ys : List ScoredNode)
      → less x y ≡ false
      → All (λ m. less m y ≡ false) ys
      → All (λ m. less m y ≡ false) (insert_by less x ys)
  unfolding insert_by
  All-insert_by y x [] h a = (h, tt)
  All-insert_by y x (z ∷ ys) h a = elim (Bool-cases (less z x)) [
    | inl e ↦ rw e (a.0, All-insert_by y x ys h a.1)
    | inr e ↦ rw e (h, (a.0, a.1))
  ]

  behind :
      (x y : ScoredNode) (ys : List ScoredNode)
      → less y x ≡ false
      → All (λ m. less m y ≡ false) ys
      → All (λ m. less m x ≡ false) ys
  behind x y [] h a = tt
  behind x y (m ∷ ys) h a = (order.trans m y x a.0 h, behind x y ys h a.1)

  insert_by-IsInOrder :
      (x : ScoredNode) (ys : List ScoredNode)
      → IsInOrder less ys
      → IsInOrder less (insert_by less x ys)
  unfolding insert_by
  insert_by-IsInOrder x [] o = (tt, tt)
  insert_by-IsInOrder x (y ∷ ys) o = elim (Bool-cases (less y x)) [
    | inl e ↦ rw e (All-insert_by y x ys (order.asym y x e) o.0, insert_by-IsInOrder x ys o.1)
    | inr e ↦ rw e ((e, behind x y ys e o.0), (o.0, o.1))
  ]

  insertion_sort-IsInOrder : (xs : List ScoredNode) → IsInOrder less (insertion_sort less xs)
  unfolding insertion_sort
  insertion_sort-IsInOrder [] = tt
  insertion_sort-IsInOrder (x ∷ xs) =
      insert_by-IsInOrder x (insertion_sort less xs) (insertion_sort-IsInOrder xs)

pub insertion_sort-IsSorting : IsSorting insertion_sort
insertion_sort-IsSorting = record {
  rearranges = λ less p ns. count_if-insertion_sort less p ns;
  orders = λ less ns order. insertion_sort-IsInOrder less order ns;
}
