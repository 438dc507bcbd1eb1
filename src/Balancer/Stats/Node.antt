-- ===== src/Balancer/Stats/Node.antt =====
-- balancer/catabalancer/catalyst_balancer.go, `GetBestNode`: there is always a node.
use dms_api.Prelude.{
  ℕ, zero, suc, ◌+◌, ◌%◌, ◌≤◌, ◌<◌, ◌≡◌, refl, ap, String, concat, true, some, List, [], ◌∷◌, arith,
  str_eq, eq_iff, eq_refl, leb, leb→le, ◌==◌, inl, inr, ◌⊎◌, Bool-cases, length, get_elem?, All,
}
use dms_api.Prelude.Int.{ℤ}
use dms_api.Prelude.Dict.{Dict}
use dms_api.Result.{Result, ok, ◌>>=◌}
use dms_api.Balancer.Nodes.{ScoredNode, NodeMetrics, Sort, Distance}
use dms_api.Balancer.Selection.{Shuffle, select_top_nodes, select_node, pick}
use dms_api.Balancer.Selection.Counts.{count_if, IsRearranging, IsSorting}
use dms_api.Balancer.Selection.Choice.{select_top_nodes-IsBest, IsBest}
use dms_api.Balancer.Stats.{
  Stats, create_scored_nodes, scored_from, is_stale, coordinate, first_or, choose_node, best_node,
}

score_zero :
    (now timeout : ℕ) (s : Stats) (m : Dict NodeMetrics)
    → All (λ n. (n.score == 0) ≡ true) (scored_from now timeout s m)
unfolding scored_from
score_zero now timeout s [] = tt
score_zero now timeout s ((name, metrics) ∷ m) =
    elim (Bool-cases (is_stale now metrics.timestamp timeout)) [
      | inl e ↦ rw e (score_zero now timeout s m)
      | inr e ↦ rw e (refl, score_zero now timeout s m)
    ]

elem_counted :
    (i : ℕ) (ns : List ScoredNode)
    → i < length ns
    → (n : ScoredNode) × (get_elem? ns i ≡ some n) × (1 ≤ count_if (λ m. str_eq m.name n.name) ns)
unfolding count_if
elem_counted i [] h = absurd (omega arith)
elem_counted zero (n ∷ ns) h = (n, refl, rw (eq_refl n.name) (omega arith))
elem_counted (suc i) (n ∷ ns) h =
    let r = elem_counted i ns (omega arith) in (r.0, r.1, ground (arith, r.2))

-- A node has metrics that are newer than the timeout.
abbrev pub HasFresh : ℕ → ℕ → String → Dict NodeMetrics → Type 0
HasFresh now timeout name [] = ⊥
HasFresh now timeout name ((k, m) ∷ rest) =
    ((k ≡ name) × now < m.timestamp + timeout) ⊎ HasFresh now timeout name rest

-- All metrics are as old as the timeout.
abbrev pub AllStale : ℕ → ℕ → Dict NodeMetrics → Type 0
AllStale now timeout [] = Unit
AllStale now timeout ((k, m) ∷ rest) = m.timestamp + timeout ≤ now × AllStale now timeout rest

module _ (now timeout : ℕ) (s : Stats) where
  scored-HasFresh :
      (name : String) (m : Dict NodeMetrics)
      → 1 ≤ count_if (λ n. str_eq n.name name) (scored_from now timeout s m)
      → HasFresh now timeout name m
  unfolding scored_from count_if is_stale
  scored-HasFresh name [] h = absurd (omega arith)
  scored-HasFresh name ((k, x) ∷ m) h = elim (Bool-cases (leb (x.timestamp + timeout) now)) [
    | inl e ↦ inr (scored-HasFresh name m (rw e at h))
    | inr e ↦ elim (Bool-cases (str_eq k name)) [
      | inl d ↦ inl ((eq_iff k name).0 d, ground (arith, e))
      | inr d ↦ inr (scored-HasFresh name m (rw (e, d) at h))
    ]
  ]

  scored-AllStale :
      (m : Dict NodeMetrics) → scored_from now timeout s m ≡ [] → AllStale now timeout m
  unfolding scored_from is_stale
  scored-AllStale [] h = tt
  scored-AllStale ((k, x) ∷ m) h = elim (Bool-cases (leb (x.timestamp + timeout) now)) [
    | inl e ↦ (leb→le (x.timestamp + timeout) now e, scored-AllStale m (rw e at h))
    | inr e ↦ let no : ⊥ = ground (arith, h, e) in elim no [ ]
  ]

mod_below : (a b : ℕ) → 1 ≤ b → a % b < b
mod_below a b h = grind arith

module _ (sort : Sort) (shuffle : Shuffle) (distance : Distance) (sorting : IsSorting sort)
    (shuffling : IsRearranging shuffle) where
  some_top :
      (n : ScoredNode) (ns : List ScoredNode) (stream_id : String) (lat lon : ℤ)
      → All (λ m. (m.score == 0) ≡ true) (n ∷ ns)
      → 1 ≤ length (select_top_nodes sort shuffle distance (n ∷ ns) stream_id lat lon 3)
  some_top n ns stream_id lat lon z = by_tier (
      (select_top_nodes-IsBest distance lat lon (n ∷ ns) stream_id 3 sort shuffle sorting shuffling
        z).0)
    where
      by_tier :
          IsBest distance lat lon
            (n ∷ ns)
            stream_id
            3
            (select_top_nodes sort shuffle distance (n ∷ ns) stream_id lat lon 3)
          → 1 ≤ length (select_top_nodes sort shuffle distance (n ∷ ns) stream_id lat lon 3)
      by_tier (inl (a, b, c)) = ground (arith, a, c)
      by_tier (inr (inl (a, b, c, d))) = ground (arith, b, d)
      by_tier (inr (inr t)) = ground (arith, t.2)

  select_known :
      (random : ℕ) (n : ScoredNode) (ns : List ScoredNode) (stream_id : String) (lat lon : ℤ)
      → All (λ m. (m.score == 0) ≡ true) (n ∷ ns)
      → (name : String) × (select_node sort shuffle distance random (n ∷ ns) stream_id lat lon
          ≡ ok name)
        × (1 ≤ count_if (λ m. str_eq m.name name) (n ∷ ns))
  unfolding select_node pick
  select_known random n ns stream_id lat lon z =
      let top = select_top_nodes sort shuffle distance (n ∷ ns) stream_id lat lon 3 in
      let some_node = some_top n ns stream_id lat lon z in
      let r = elem_counted (random % length top) top (mod_below random (length top) some_node) in
      (
        r.0.name,
        ap pick r.1,
        omega (
          arith,
          r.2,
          (select_top_nodes-IsBest distance lat lon (n ∷ ns) stream_id 3 sort shuffle sorting
                shuffling z).1
              (λ name streams metrics. str_eq name r.0.name),
        ),
      )

  choose_known :
      (random : ℕ) (own : String) (ns : List ScoredNode) (stream_id : String) (lat lon : ℤ)
      → All (λ m. (m.score == 0) ≡ true) ns
      → (name : String) × (choose_node sort shuffle distance random own ns stream_id lat lon
          ≡ ok name)
        × (((ns ≡ []) × (name ≡ own)) ⊎ (1 ≤ count_if (λ m. str_eq m.name name) ns))
  unfolding choose_node
  choose_known random own [] stream_id lat lon z = (own, refl, inl (refl, refl))
  choose_known random own (n ∷ ns) stream_id lat lon z =
      let r = select_known random n ns stream_id lat lon z in (r.0, r.1, inr r.2)

  -- `GetBestNode` gives a node for every request whose coordinates can be read: one of the nodes of
  -- the table with metrics newer than the timeout, or the own one if all are older, with the name
  -- of the stream under the first redirect prefix, or "video". `sort` is taken to sort and
  -- `shuffle` to rearrange.
  pub best_node_total :
      (random : ℕ) (parse_float : String → Result ℤ) (own : String) (now metric_timeout : ℕ)
      (prefixes : List String) (playback_id lat lon : String) (s : Stats) (latf lonf : ℤ)
      → coordinate parse_float lat ≡ ok latf
      → coordinate parse_float lon ≡ ok lonf
      → (name : String) × (best_node sort shuffle distance random parse_float own now metric_timeout
            prefixes playback_id lat lon s
          ≡ ok (name, concat (first_or "video" prefixes) (concat "+" playback_id)))
        × ((AllStale now metric_timeout s.node_metrics × (name ≡ own))
            ⊎ HasFresh now metric_timeout name s.node_metrics)
  unfolding best_node create_scored_nodes
  best_node_total random parse_float own now metric_timeout prefixes playback_id lat lon s latf lonf
        p q =
      let r =
        choose_known random own (create_scored_nodes now metric_timeout s) playback_id latf lonf
          (score_zero now metric_timeout s s.node_metrics) in
      (
        r.0,
        rw (p, q, r.1, ◌>>=◌) refl,
        elim (r.2) [
          | inl (none_fresh, mine) ↦
              inl (scored-AllStale now metric_timeout s s.node_metrics none_fresh, mine)
          | inr counted ↦ inr (scored-HasFresh now metric_timeout s r.0 s.node_metrics counted)
        ],
      )
