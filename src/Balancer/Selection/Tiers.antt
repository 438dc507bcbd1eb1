-- ===== src/Balancer/Selection/Tiers.antt =====
-- Which nodes are close to a request: the scores by the sorted list, and a view that needs no
-- order.
use dms_api.Prelude.{
  ℕ, ◌+◌, ◌≤◌, ◌≡◌, refl, ap, ap₂, ◌∙◌, Bool, true, false, List, [], ◌∷◌, map, arith, ltb, leb,
  ◌==◌, if◌then◌else◌, inl, inr, Bool-cases, All, leb→le,
}
use dms_api.Prelude.Int.{ℤ}
use dms_api.Balancer.Nodes.{
  ScoredNode, Sort, Distance, distance_of, with_distance, closer, with_geo_score, assign,
  geo_scores,
}
use dms_api.Balancer.Selection.Counts.{
  count_if, IsInOrder, IsWeakOrder, IsSorting, count_if-map, all-rearranging,
}

abbrev score_if : Bool → Bool → ℕ
score_if a b = if a then 2 else if b then 1 else 0

==→eq : (a b : ℕ) → (a == b) ≡ true → a ≡ b
==→eq a b h = ground arith

closer-IsWeakOrder : IsWeakOrder closer
unfolding closer
closer-IsWeakOrder = record { asym = λ a b h. ground arith; trans = λ a b c h k. ground arith }

module _ (distance : Distance) (lat lon : ℤ) where
  -- No node is closer to the request by more than `radius` kilometres.
  unfoldable pub is_within : ℕ → List ScoredNode → ScoredNode → Bool
  is_within radius nodes n =
      count_if (λ m. ltb (distance_of distance lat lon m + radius) (distance_of distance lat lon n))
        nodes
      == 0

  -- Good, okay and bad by distance.
  unfoldable pub geo_score_of : List ScoredNode → ScoredNode → ℕ
  geo_score_of nodes n =
      if is_within 1500 nodes n then 2 else if is_within 7500 nodes n then 1 else 0

  none_over :
      (x : ScoredNode) (xs : List ScoredNode) (radius d : ℕ)
      → All (λ m. closer m x ≡ false) xs
      → d ≤ x.geo_distance + radius
      → count_if (λ m. ltb (m.geo_distance + radius) d) xs ≡ 0
  unfolding count_if closer
  none_over x [] radius d h l = refl
  none_over x (m ∷ xs) radius d h l = ground (arith, h.0, none_over x xs radius d h.1 l)

  -- The head of a list in order stands for all of it.
  head_least :
      (x : ScoredNode) (xs : List ScoredNode) (radius d : ℕ)
      → IsInOrder closer (x ∷ xs)
      → leb d (x.geo_distance + radius)
        ≡ (count_if (λ m. ltb (m.geo_distance + radius) d) (x ∷ xs) == 0)
  unfolding count_if
  head_least x xs radius d h = elim (Bool-cases (leb d (x.geo_distance + radius))) [
    | inl e ↦ ground (arith, e, none_over x xs radius d h.0 (leb→le d (x.geo_distance + radius) e))
    | inr e ↦ ground (arith, e)
  ]

  within-assigned :
      (nodes : List ScoredNode) (x : ScoredNode) (xs : List ScoredNode) (radius : ℕ)
      (m : ScoredNode)
      → ((radius d : ℕ)
          → count_if (λ k. ltb (k.geo_distance + radius) d) (x ∷ xs)
            ≡ count_if (λ k. ltb (distance_of distance lat lon k + radius) d) nodes)
      → IsInOrder closer (x ∷ xs)
      → m.geo_distance ≡ distance_of distance lat lon m
      → leb m.geo_distance (x.geo_distance + radius) ≡ is_within radius nodes m
  unfolding is_within
  within-assigned nodes x xs radius m counts ordered h =
      ap (λ d. leb d (x.geo_distance + radius)) h
      ∙ head_least x xs radius (distance_of distance lat lon m) ordered
      ∙ ap (λ c. c == 0) (counts radius (distance_of distance lat lon m))

  score-assigned :
      (nodes : List ScoredNode) (x : ScoredNode) (xs ms : List ScoredNode)
      → ((radius d : ℕ)
          → count_if (λ k. ltb (k.geo_distance + radius) d) (x ∷ xs)
            ≡ count_if (λ k. ltb (distance_of distance lat lon k + radius) d) nodes)
      → IsInOrder closer (x ∷ xs)
      → All (λ m. (m.geo_distance == distance_of distance lat lon m) ≡ true) ms
      → All (λ m. m.geo_score ≡ geo_score_of nodes m) (map (with_geo_score x.geo_distance) ms)
  unfolding with_geo_score geo_score_of is_within
  score-assigned nodes x xs [] counts ordered h = tt
  score-assigned nodes x xs (m ∷ ms) counts ordered h =
      let e = ==→eq m.geo_distance (distance_of distance lat lon m) h.0 in
      (
        ap₂ (λ (a b : Bool). score_if a b) (within-assigned nodes x xs 1500 m counts ordered e)
            (within-assigned nodes x xs 7500 m counts ordered e),
        score-assigned nodes x xs ms counts ordered h.1,
      )

  assign-scores :
      (nodes s : List ScoredNode)
      → ((radius d : ℕ)
          → count_if (λ k. ltb (k.geo_distance + radius) d) s
            ≡ count_if (λ k. ltb (distance_of distance lat lon k + radius) d) nodes)
      → IsInOrder closer s
      → All (λ m. (m.geo_distance == distance_of distance lat lon m) ≡ true) s
      → All (λ m. m.geo_score ≡ geo_score_of nodes m) (assign s)
  unfolding assign
  assign-scores nodes [] counts ordered h = tt
  assign-scores nodes (x ∷ xs) counts ordered h =
      score-assigned nodes x xs (x ∷ xs) counts ordered h

  distances_set :
      (nodes : List ScoredNode)
      → All
          (λ m. (m.geo_distance == distance_of distance lat lon m) ≡ true)
          (map (with_distance distance lat lon) nodes)
  unfolding with_distance
  distances_set [] = tt
  distances_set (n ∷ ns) = (ground arith, distances_set ns)

  -- However the nodes are sorted, the scores are those by the distances of all of them.
  pub scores :
      (sort : Sort) (nodes : List ScoredNode)
      → IsSorting sort
      → All (λ m. m.geo_score ≡ geo_score_of nodes m) (geo_scores sort distance lat lon nodes)
  unfolding geo_scores with_distance
  scores sort nodes h =
      let s = sort closer (map (with_distance distance lat lon) nodes) in
      assign-scores nodes s
        (λ radius d.
          h.rearranges closer (λ k. ltb (k.geo_distance + radius) d)
            (map (with_distance distance lat lon) nodes)
          ∙ count_if-map (λ k. ltb (k.geo_distance + radius) d) (with_distance distance lat lon)
              nodes)
        (h.orders closer (map (with_distance distance lat lon) nodes) closer-IsWeakOrder)
        (all-rearranging (sort closer) (λ m. m.geo_distance == distance_of distance lat lon m)
          (map (with_distance distance lat lon) nodes) (h.rearranges closer) (distances_set nodes))
