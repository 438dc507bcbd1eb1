-- ===== src/Balancer/Nodes.antt =====
-- balancer/catabalancer/catalyst_balancer.go and geo.go: nodes and their scores. Percentages are
-- hundredths of a percent, coordinates millionths of a degree. The haversine distance, rounded to
-- kilometres, is computed in floating point by the source and is the parameter `distance` here.
use dms_api.Prelude.{
  ℕ, ◌+◌, String, Bool, true, false, ◌||◌, Option, none, some, List, [], ◌∷◌, map, ltb, leb,
  if◌then◌else◌,
}
use dms_api.Prelude.Int.{ℤ}
use dms_api.Prelude.Dict
use dms_api.Prelude.Dict.{Dict}

pub record Stream : Type 0 where
  pub id : String
  pub playback_id : String
  pub timestamp : ℕ

abbrev pub Streams : Type 0
Streams = Dict Stream

pub record NodeMetrics : Type 0 where
  pub cpu_usage_percentage : ℕ
  pub ram_usage_percentage : ℕ
  pub bandwidth_usage_percentage : ℕ
  pub geo_latitude : ℤ
  pub geo_longitude : ℤ
  pub timestamp : ℕ

pub record ScoredNode : Type 0 where
  pub score : ℕ
  pub geo_score : ℕ
  pub stream_score : ℕ
  pub geo_distance : ℕ
  pub name : String
  pub streams : Streams
  pub metrics : NodeMetrics

is_some {ℓ} : {A : Type ℓ} → Option A → Bool
is_some (some a) = true
is_some none = false

-- `HasStream`
unfoldable pub has_stream : String → ScoredNode → Bool
unfolding is_some
has_stream stream_id n = is_some (Dict.get stream_id n.streams)

exceeds : ℕ → NodeMetrics → Bool
exceeds limit m =
    ltb limit m.cpu_usage_percentage
    || ltb limit m.bandwidth_usage_percentage
    || ltb limit m.ram_usage_percentage

-- `GetLoadScore`
unfoldable pub get_load_score : ScoredNode → ℕ
unfolding exceeds
get_load_score n = if exceeds 8500 n.metrics then 0 else if exceeds 5000 n.metrics then 1 else 2

-- `sort.Slice`, by a strict comparison.
abbrev pub Sort : Type 0
Sort = (ScoredNode → ScoredNode → Bool) → List ScoredNode → List ScoredNode

abbrev pub Distance : Type 0
Distance = ℤ → ℤ → ℤ → ℤ → ℕ

-- The distance of a node from the request.
abbrev pub distance_of : Distance → ℤ → ℤ → ScoredNode → ℕ
distance_of distance lat lon n = distance lat lon n.metrics.geo_latitude n.metrics.geo_longitude

unfoldable pub with_distance : Distance → ℤ → ℤ → ScoredNode → ScoredNode
with_distance distance lat lon n = record n { geo_distance = distance_of distance lat lon n }

unfoldable pub closer : ScoredNode → ScoredNode → Bool
closer a b = ltb a.geo_distance b.geo_distance

-- The scores by the distance of the closest node.
unfoldable pub with_geo_score : ℕ → ScoredNode → ScoredNode
with_geo_score base n = record n {
  geo_score =
      if leb n.geo_distance (base + 1500)
      then 2
      else if leb n.geo_distance (base + 7500)
      then 1
      else 0;
}

unfoldable pub assign : List ScoredNode → List ScoredNode
assign [] = []
assign (n ∷ ns) = map (with_geo_score n.geo_distance) (n ∷ ns)

-- `geoScores`
unfoldable pub geo_scores : Sort → Distance → ℤ → ℤ → List ScoredNode → List ScoredNode
unfolding assign
geo_scores sort distance lat lon nodes =
    assign (sort closer (map (with_distance distance lat lon) nodes))
