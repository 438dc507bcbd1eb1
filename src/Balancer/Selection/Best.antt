-- ===== src/Balancer/Selection/Best.antt =====
-- balancer/catabalancer/catalyst_balancer.go: the choice of nodes against a description that knows
-- no scores and no order: who is close, who is not overloaded, who has the stream.
use dms_api.Prelude.{
  ℕ, ◌+◌, ◌≤◌, ◌≡◌, refl, ap, ◌∙◌, fun_ext, String, Bool, true, ◌&&◌, List, [], ◌∷◌, map, arith,
  ◌==◌, if◌then◌else◌, length, All,
}
use Prim.Native.Nat.{min}
use dms_api.Prelude.Int.{ℤ}
use dms_api.Balancer.Nodes.{
  ScoredNode, Sort, Distance, with_distance, closer, with_geo_score, assign, geo_scores, has_stream,
  get_load_score,
}
use dms_api.Balancer.Selection.{
  Shuffle, local_not_overloaded, local_has_stream_not_overloaded, truncate_returned, weighted,
  better, choose_tier,
}
use dms_api.Balancer.Selection.Counts.{
  count_if, IsWeakOrder, IsRearranging, IsSorting, count_if-map, all-rearranging,
  length-rearranging,
}
use dms_api.Balancer.Selection.Cuts.{All-truncate, length-truncate}
use dms_api.Balancer.Selection.Tiers.{is_within, geo_score_of}

pub better-IsWeakOrder : IsWeakOrder better
unfolding better
better-IsWeakOrder = record { asym = λ a b h. ground arith; trans = λ a b c h k. ground arith }

-- A test that does not look at the distance and its score counts the same nodes before and after.
count_if-assign :
    (p : ScoredNode → Bool) (ns : List ScoredNode)
    → ((b : ℕ) (n : ScoredNode) → p (with_geo_score b n) ≡ p n)
    → count_if p (assign ns) ≡ count_if p ns
unfolding assign
count_if-assign p [] h = refl
count_if-assign p (n ∷ ns) h =
    count_if-map p (with_geo_score n.geo_distance) (n ∷ ns)
    ∙ ap (λ q. count_if q (n ∷ ns)) (fun_ext (h n.geo_distance))

same_sum : (s g t l x : ℕ) → (s == 0) ≡ true → g ≡ t → ((s + g + l + x) == (t + l + x)) ≡ true
same_sum s g t l x h k = ground arith

module _ (sort : Sort) (distance : Distance) (lat lon : ℤ) (sorting : IsSorting sort) where
  pub count_if-geo_scores :
      (p : ScoredNode → Bool) (nodes : List ScoredNode)
      → ((b : ℕ) (n : ScoredNode) → p (with_geo_score b n) ≡ p n)
      → ((n : ScoredNode) → p (with_distance distance lat lon n) ≡ p n)
      → count_if p (geo_scores sort distance lat lon nodes) ≡ count_if p nodes
  unfolding geo_scores
  count_if-geo_scores p nodes h k =
      count_if-assign p (sort closer (map (with_distance distance lat lon) nodes)) h
      ∙ sorting.rearranges closer p (map (with_distance distance lat lon) nodes)
      ∙ count_if-map p (with_distance distance lat lon) nodes
      ∙ ap (λ q. count_if q nodes) (fun_ext k)

module _ (distance : Distance) (lat lon : ℤ) (nodes : List ScoredNode) where
  -- Within 1500 km of the closest node, and not overloaded.
  unfoldable pub is_free : ScoredNode → Bool
  unfolding is_within
  is_free n = is_within distance lat lon 1500 nodes n && get_load_score n == 2

  -- That, with the stream.
  unfoldable pub is_ideal : String → ScoredNode → Bool
  unfolding is_within
  is_ideal stream_id n =
      is_within distance lat lon 1500 nodes n && has_stream stream_id n && get_load_score n == 2

  -- The sum of the scores for distance, load and stream.
  unfoldable pub total_score : String → ScoredNode → ℕ
  unfolding geo_score_of
  total_score stream_id n =
      geo_score_of distance lat lon nodes n
      + get_load_score n
      + (if has_stream stream_id n then 2 else 0)

  pub free-tier :
      (ns : List ScoredNode)
      → All (λ m. m.geo_score ≡ geo_score_of distance lat lon nodes m) ns
      → All (λ m. local_not_overloaded m ≡ is_free m) ns
  unfolding local_not_overloaded is_free geo_score_of
  free-tier [] h = tt
  free-tier (n ∷ ns) h = (ground (arith, h.0), free-tier ns h.1)

  pub ideal-tier :
      (stream_id : String) (ns : List ScoredNode)
      → All (λ m. m.geo_score ≡ geo_score_of distance lat lon nodes m) ns
      → All (λ m. local_has_stream_not_overloaded stream_id m ≡ is_ideal stream_id m) ns
  unfolding local_has_stream_not_overloaded is_ideal geo_score_of
  ideal-tier stream_id [] h = tt
  ideal-tier stream_id (n ∷ ns) h = (ground (arith, h.0), ideal-tier stream_id ns h.1)

  pub weighted-total :
      (stream_id : String) (ns : List ScoredNode)
      → All (λ m. m.geo_score ≡ geo_score_of distance lat lon nodes m) ns
      → All (λ m. (m.score == 0) ≡ true) ns
      → All
          (λ m.
            ((weighted stream_id m).score == total_score stream_id (weighted stream_id m)) ≡ true)
          ns
  unfolding weighted total_score geo_score_of is_within has_stream get_load_score
  weighted-total stream_id [] h z = tt
  weighted-total stream_id (n ∷ ns) h z = (
    same_sum n.score n.geo_score (geo_score_of distance lat lon nodes n) (get_load_score n)
        (if has_stream stream_id n then 2 else 0) (z.0) (h.0),
    weighted-total stream_id ns h.1 z.1,
  )

pub choose-first :
    (sort : Sort) (shuffle : Shuffle) (stream_id : String) (k : ℕ) (xs ys zs : List ScoredNode)
    → 1 ≤ length xs
    → choose_tier sort shuffle stream_id k xs ys zs ≡ truncate_returned k (shuffle xs)
unfolding choose_tier
choose-first sort shuffle stream_id k [] ys zs h = absurd (omega arith)
choose-first sort shuffle stream_id k (x ∷ xs) ys zs h = refl

pub choose-second :
    (sort : Sort) (shuffle : Shuffle) (stream_id : String) (k : ℕ) (xs ys zs : List ScoredNode)
    → length xs ≡ 0
    → 1 ≤ length ys
    → choose_tier sort shuffle stream_id k xs ys zs ≡ truncate_returned k (shuffle ys)
unfolding choose_tier
choose-second sort shuffle stream_id k (x ∷ xs) ys zs e h = absurd (omega arith)
choose-second sort shuffle stream_id k [] [] zs e h = absurd (omega arith)
choose-second sort shuffle stream_id k [] (y ∷ ys) zs e h = refl

pub choose-third :
    (sort : Sort) (shuffle : Shuffle) (stream_id : String) (k : ℕ) (xs ys zs : List ScoredNode)
    → length xs ≡ 0
    → length ys ≡ 0
    → choose_tier sort shuffle stream_id k xs ys zs
      ≡ truncate_returned k (sort better (map (weighted stream_id) zs))
unfolding choose_tier
choose-third sort shuffle stream_id k (x ∷ xs) ys zs e h = absurd (omega arith)
choose-third sort shuffle stream_id k [] (y ∷ ys) zs e h = absurd (omega arith)
choose-third sort shuffle stream_id k [] [] zs e h = refl

-- A list that is cut from a rearranged one.
pub cut :
    (p : ScoredNode → Bool) (f : List ScoredNode → List ScoredNode) (k : ℕ) (ns : List ScoredNode)
    → IsRearranging f
    → All (λ n. p n ≡ true) ns
    → All (λ n. p n ≡ true) (truncate_returned k (f ns))
      × (length (truncate_returned k (f ns)) ≡ min k (length ns))
cut p f k ns h a = (
  All-truncate p k (f ns) (all-rearranging f p ns h a),
  length-truncate k (f ns) ∙ ap (min k) (length-rearranging f ns h),
)
