-- ===== src/Balancer/Selection/Choice.antt =====
-- balancer/catabalancer/catalyst_balancer.go: `selectTopNodes` does what its description says.
use dms_api.Prelude.{
  ℕ, zero, suc, ◌≤◌, ◌≡◌, refl, sym, ap, ◌∙◌, String, true, List, ◌++◌, map, arith, ◌==◌, inl, inr,
  ◌⊎◌, length, All,
}
use Prim.Native.Nat.{min}
use dms_api.Prelude.Int.{ℤ}
use dms_api.Balancer.Nodes.{
  ScoredNode, Sort, Distance, with_distance, with_geo_score, geo_scores, has_stream, get_load_score,
}
use dms_api.Balancer.Selection.{
  Shuffle, keep, local_not_overloaded, local_has_stream_not_overloaded, with_stream_score,
  truncate_returned, weighted, better, select_top_nodes,
}
use dms_api.Balancer.Selection.Counts.{
  count_if, IsInOrder, IsRearranging, IsSorting, count_if-map, length-keep, keep-all, count_if-keep,
  all_of_count, count_of_all, count_if-true, all-rearranging, length-rearranging,
}
use dms_api.Balancer.Selection.Cuts.{
  Test, passes, All-map, length-map, keep-ext, truncate_rest, length-truncate, count_if-truncate,
}
use dms_api.Balancer.Selection.Tiers.{geo_score_of, scores}
use dms_api.Balancer.Selection.Best.{
  count_if-geo_scores, is_free, is_ideal, total_score, free-tier, ideal-tier, weighted-total,
  choose-first, choose-second, choose-third, cut, better-IsWeakOrder,
}

zero-cases : (n : ℕ) → (1 ≤ n) ⊎ (n ≡ 0)
zero-cases zero = inr refl
zero-cases (suc n) = inl (omega arith)

module _ (distance : Distance) (lat lon : ℤ) (nodes : List ScoredNode) (stream_id : String)
    (k : ℕ) where
  -- The chosen nodes are all ideal, and as many of the ideal ones as may be; or there is no ideal
  -- node, and they are all free; or there is none of these, and they are the first nodes by total
  -- score.
  abbrev pub IsBest : List ScoredNode → Type 0
  IsBest chosen =
      ((1 ≤ count_if (is_ideal distance lat lon nodes stream_id) nodes)
        × All (λ n. is_ideal distance lat lon nodes stream_id n ≡ true) chosen
        × (length chosen ≡ min k (count_if (is_ideal distance lat lon nodes stream_id) nodes)))
      ⊎ (((count_if (is_ideal distance lat lon nodes stream_id) nodes ≡ 0)
            × (1 ≤ count_if (is_free distance lat lon nodes) nodes)
            × All (λ n. is_free distance lat lon nodes n ≡ true) chosen
            × (length chosen ≡ min k (count_if (is_free distance lat lon nodes) nodes)))
          ⊎ ((count_if (is_ideal distance lat lon nodes stream_id) nodes ≡ 0)
              × (count_if (is_free distance lat lon nodes) nodes ≡ 0)
              × (length chosen ≡ min k (length nodes))
              × (rest : List ScoredNode) × IsInOrder better (chosen ++ rest)
              × All (λ n. (n.score == total_score distance lat lon nodes stream_id n) ≡ true)
                  (chosen ++ rest)))

  module _ (sort : Sort) (shuffle : Shuffle) (sorting : IsSorting sort)
      (shuffling : IsRearranging shuffle) where
    scored_marks :
        All
          (λ m. m.geo_score ≡ geo_score_of distance lat lon nodes m)
          (geo_scores sort distance lat lon nodes)
    scored_marks = scores distance lat lon sort nodes sorting

    first_tier : List ScoredNode
    first_tier =
        keep (local_has_stream_not_overloaded stream_id) (geo_scores sort distance lat lon nodes)

    second_tier : List ScoredNode
    second_tier = keep local_not_overloaded (geo_scores sort distance lat lon nodes)

    first_tier-ideal :
        All
          (λ n. is_ideal distance lat lon nodes stream_id n ≡ true)
          (map with_stream_score first_tier)
        × (length (map with_stream_score first_tier)
            ≡ count_if (is_ideal distance lat lon nodes stream_id) nodes)
    unfolding first_tier is_ideal with_stream_score with_geo_score with_distance has_stream
        get_load_score
    first_tier-ideal =
        let s = geo_scores sort distance lat lon nodes in
        let e =
          keep-ext (local_has_stream_not_overloaded stream_id)
            (is_ideal distance lat lon nodes stream_id) s
            (ideal-tier distance lat lon nodes stream_id s scored_marks) in
        (
          All-map with_stream_score (is_ideal distance lat lon nodes stream_id) first_tier
              (rw e (keep-all (is_ideal distance lat lon nodes stream_id) s)),
          length-map with_stream_score first_tier
              ∙ ap (length {0}) e
              ∙ length-keep (is_ideal distance lat lon nodes stream_id) s
              ∙ count_if-geo_scores sort distance lat lon sorting
                  (is_ideal distance lat lon nodes stream_id) nodes (λ b n. refl) (λ n. refl),
        )

    second_tier-free :
        All (λ n. is_free distance lat lon nodes n ≡ true) second_tier
        × (length second_tier ≡ count_if (is_free distance lat lon nodes) nodes)
    unfolding second_tier is_free with_geo_score with_distance get_load_score
    second_tier-free =
        let s = geo_scores sort distance lat lon nodes in
        let e =
          keep-ext local_not_overloaded (is_free distance lat lon nodes) s
            (free-tier distance lat lon nodes s scored_marks) in
        (
          rw e (keep-all (is_free distance lat lon nodes) s),
          ap (length {0}) e
              ∙ length-keep (is_free distance lat lon nodes) s
              ∙ count_if-geo_scores sort distance lat lon sorting (is_free distance lat lon nodes)
                  nodes (λ b n. refl) (λ n. refl),
        )

    length-geo_scores : length (geo_scores sort distance lat lon nodes) ≡ length nodes
    length-geo_scores =
        sym (count_if-true (geo_scores sort distance lat lon nodes))
        ∙ count_if-geo_scores sort distance lat lon sorting (λ n. true) nodes (λ b n. refl)
            (λ n. refl)
        ∙ count_if-true nodes

    third_tier : List ScoredNode
    third_tier = map (weighted stream_id) (geo_scores sort distance lat lon nodes)

    third_tier-total :
        All (λ n. (n.score == 0) ≡ true) nodes
        → All (λ n. (n.score == total_score distance lat lon nodes stream_id n) ≡ true) third_tier
    unfolding third_tier with_geo_score with_distance
    third_tier-total z =
        let s = geo_scores sort distance lat lon nodes in
        All-map (weighted stream_id)
          (λ n. n.score == total_score distance lat lon nodes stream_id n) s
          (weighted-total distance lat lon nodes stream_id s scored_marks (
            all_of_count (λ n. n.score == 0) s
              (count_if-geo_scores sort distance lat lon sorting (λ n. n.score == 0) nodes
                  (λ b n. refl) (λ n. refl)
                ∙ count_of_all (λ n. n.score == 0) nodes z
                ∙ sym length-geo_scores)))

    third-best :
        All (λ n. (n.score == 0) ≡ true) nodes
        → (length (truncate_returned k (sort better third_tier)) ≡ min k (length nodes))
          × (rest : List ScoredNode) × IsInOrder better
              (truncate_returned k (sort better third_tier) ++ rest)
          × All
              (λ n. (n.score == total_score distance lat lon nodes stream_id n) ≡ true)
              (truncate_returned k (sort better third_tier) ++ rest)
    unfolding third_tier
    third-best z =
        let r = truncate_rest k (sort better third_tier) in
        (
          length-truncate k (sort better third_tier)
              ∙ ap (min k) (
                  length-rearranging (sort better) third_tier (sorting.rearranges better)
                  ∙ length-map (weighted stream_id) (geo_scores sort distance lat lon nodes)
                  ∙ length-geo_scores),
          r.0,
          rw (r.1) (sorting.orders better third_tier better-IsWeakOrder),
          rw (r.1) (
              all-rearranging (sort better)
                (λ n. n.score == total_score distance lat lon nodes stream_id n) third_tier
                (sorting.rearranges better) (third_tier-total z)),
        )

    from-scored :
        (q : Test) (f : List ScoredNode → List ScoredNode) (ns : List ScoredNode)
        → IsRearranging f
        → count_if (passes q) ns ≤ count_if (passes q) (geo_scores sort distance lat lon nodes)
        → count_if (passes q) (truncate_returned k (f ns)) ≤ count_if (passes q) nodes
    unfolding with_geo_score with_distance
    from-scored q f ns h l = omega (
      arith,
      count_if-truncate (passes q) k (f ns),
      h (passes q) ns,
      l,
      count_if-geo_scores sort distance lat lon sorting (passes q) nodes (λ b n. refl) (λ n. refl),
    )

    -- `selectTopNodes` returns at most `k` nodes, each of them one of the given nodes and none
    -- oftener than given: the ideal ones (closest to the request to within 1500 km, not overloaded,
    -- with the stream) if there are any, else the free ones (these without the stream) if there are
    -- any, else the nodes with the highest total score. `sort` is taken to sort, `shuffle` to
    -- rearrange, and the given nodes to have the score 0.
    pub select_top_nodes-IsBest :
        All (λ n. (n.score == 0) ≡ true) nodes
        → IsBest (select_top_nodes sort shuffle distance nodes stream_id lat lon k)
          × ((q : Test)
              → count_if
                  (passes q)
                  (select_top_nodes sort shuffle distance nodes stream_id lat lon k)
                ≤ count_if (passes q) nodes)
    unfolding select_top_nodes with_stream_score weighted first_tier second_tier third_tier
    select_top_nodes-IsBest z = elim (zero-cases (length (map with_stream_score first_tier))) [
      | inl some_ideal ↦
          let t = first_tier-ideal in
          let c =
            cut (is_ideal distance lat lon nodes stream_id) shuffle k
              (map with_stream_score first_tier) shuffling t.0 in
          rw
            (choose-first sort shuffle stream_id k (map with_stream_score first_tier) second_tier
              (geo_scores sort distance lat lon nodes) some_ideal)
            (
              inl (omega (arith, some_ideal, t.1), c.0, c.1 ∙ ap (min k) t.1),
              λ q. from-scored q shuffle (map with_stream_score first_tier) shuffling (
                  omega (
                    arith,
                    count_if-map (passes q) with_stream_score first_tier,
                    count_if-keep (passes q) (local_has_stream_not_overloaded stream_id)
                        (geo_scores sort distance lat lon nodes),
                  )),
            )
      | inr no_ideal ↦ elim (zero-cases (length second_tier)) [
        | inl some_free ↦
            let t = second_tier-free in
            let c = cut (is_free distance lat lon nodes) shuffle k second_tier shuffling t.0 in
            rw
              (choose-second sort shuffle stream_id k (map with_stream_score first_tier) second_tier
                (geo_scores sort distance lat lon nodes) no_ideal some_free)
              (
                inr (
                    inl (
                      sym (first_tier-ideal.1) ∙ no_ideal,
                      omega (arith, some_free, t.1),
                      c.0,
                      c.1 ∙ ap (min k) t.1,
                    )),
                λ q. from-scored q shuffle second_tier shuffling (
                    count_if-keep (passes q) local_not_overloaded
                      (geo_scores sort distance lat lon nodes)),
              )
        | inr no_free ↦
            let t = third-best z in
            rw
              (choose-third sort shuffle stream_id k (map with_stream_score first_tier) second_tier
                (geo_scores sort distance lat lon nodes) no_ideal no_free)
              (
                inr (
                    inr (
                      sym (first_tier-ideal.1) ∙ no_ideal,
                      sym (second_tier-free.1) ∙ no_free,
                      t.0,
                      t.1,
                      t.2,
                      t.3,
                    )),
                λ q. from-scored q (sort better) third_tier (sorting.rearranges better) (
                    omega (
                      arith,
                      count_if-map (passes q) (weighted stream_id)
                          (geo_scores sort distance lat lon nodes),
                    )),
              )
      ]
    ]
