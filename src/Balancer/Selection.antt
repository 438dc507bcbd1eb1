-- ===== src/Balancer/Selection.antt =====
-- balancer/catabalancer/catalyst_balancer.go: `selectTopNodes` and `SelectNode`. The random shuffle
-- is a function on lists, the random index a number.
pub mod Counts
pub mod Tiers
pub mod Cuts
pub mod Best
pub mod Choice
use dms_api.Prelude.{
  ℕ, ◌+◌, ◌%◌, String, Bool, ◌&&◌, Option, none, some, List, [], ◌∷◌, map, ltb, ◌==◌, if◌then◌else◌,
  length, get_elem?, take,
}
use dms_api.Prelude.Int.{ℤ}
use dms_api.Errors.{Error, plain}
use dms_api.Result.{Result, ok, err}
use dms_api.Balancer.Nodes.{ScoredNode, Sort, Distance, has_stream, get_load_score, geo_scores}

abbrev pub Shuffle : Type 0
Shuffle = List ScoredNode → List ScoredNode

-- The nodes that pass a test, in order.
unfoldable pub keep : (ScoredNode → Bool) → List ScoredNode → List ScoredNode
keep p [] = []
keep p (n ∷ ns) = let rest = keep p ns in if p n then n ∷ rest else rest

unfoldable pub local_not_overloaded : ScoredNode → Bool
local_not_overloaded n = n.geo_score == 2 && get_load_score n == 2

unfoldable pub local_has_stream_not_overloaded : String → ScoredNode → Bool
local_has_stream_not_overloaded stream_id n =
    n.geo_score == 2 && has_stream stream_id n && get_load_score n == 2

unfoldable pub with_stream_score : ScoredNode → ScoredNode
with_stream_score n = record n { stream_score = 2 }

-- `truncateReturned`
unfoldable pub truncate_returned : ℕ → List ScoredNode → List ScoredNode
truncate_returned num_nodes ns = if ltb (length ns) num_nodes then ns else take num_nodes ns

-- The weighted score.
unfoldable pub weighted : String → ScoredNode → ScoredNode
weighted stream_id n = record n {
  score = n.score + n.geo_score + get_load_score n + (if has_stream stream_id n then 2 else 0);
  stream_score = if has_stream stream_id n then 2 else n.stream_score;
}

unfoldable pub better : ScoredNode → ScoredNode → Bool
better a b = ltb b.score a.score

-- The three tiers, from those with the stream, those without it, and all.
unfoldable pub choose_tier :
    Sort
    → Shuffle
    → String
    → ℕ
    → List ScoredNode
    → List ScoredNode
    → List ScoredNode
    → List ScoredNode
choose_tier sort shuffle stream_id n (x ∷ xs) ys zs = truncate_returned n (shuffle (x ∷ xs))
choose_tier sort shuffle stream_id n [] (y ∷ ys) zs = truncate_returned n (shuffle (y ∷ ys))
choose_tier sort shuffle stream_id n [] [] zs =
    truncate_returned n (sort better (map (weighted stream_id) zs))

unfoldable pub select_top_nodes :
    Sort → Shuffle → Distance → List ScoredNode → String → ℤ → ℤ → ℕ → List ScoredNode
unfolding choose_tier
select_top_nodes sort shuffle distance nodes stream_id lat lon num_nodes =
    let scored = geo_scores sort distance lat lon nodes in
    choose_tier sort shuffle stream_id num_nodes
      (map with_stream_score (keep (local_has_stream_not_overloaded stream_id) scored))
      (keep local_not_overloaded scored) scored

unfoldable pub pick : Option ScoredNode → Result String
pick none = err (plain "selectTopNodes returned no nodes")
pick (some n) = ok n.name

-- `SelectNode`: `random` stands for the draw, taken below the number of nodes.
unfoldable pub select_node :
    Sort → Shuffle → Distance → ℕ → List ScoredNode → String → ℤ → ℤ → Result String
unfolding pick
select_node sort shuffle distance random [] stream_id lat lon =
    err (plain "no nodes to select from")
select_node sort shuffle distance random (n ∷ ns) stream_id lat lon =
    let top = select_top_nodes sort shuffle distance (n ∷ ns) stream_id lat lon 3 in
    pick (get_elem? top (random % length top))
