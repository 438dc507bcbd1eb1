-- ===== src/Scenarios/Balancing.antt =====
-- The balancer at concrete nodes.
use dms_api.Prelude.{ℕ, ◌≤◌, ◌≡◌, refl, String, concat, List, [], ◌∷◌, ◌⊎◌}
use dms_api.Prelude.Int.{ℤ, pos}
use dms_api.Result.{Result, ok}
use dms_api.Prelude.Text.{occurs}
use dms_api.Balancer.Nodes.{ScoredNode, NodeMetrics, Distance}
use dms_api.Balancer.Selection.{Shuffle, select_top_nodes}
use dms_api.Balancer.Selection.Counts.{count_if}
use dms_api.Balancer.Selection.Cuts.{Test, passes}
use dms_api.Balancer.Selection.Choice.{IsBest, select_top_nodes-IsBest}
use dms_api.Balancer.Stats.{
  Stats, NodeUpdateEvent, coordinate, first_or, best_node, set_streams, get_streams,
  get_ingest_streams,
}
use dms_api.Balancer.Stats.Laws.{get_streams-set_streams}
use dms_api.Balancer.Stats.Node.{best_node_total, AllStale, HasFresh}
use dms_api.Scenarios.Sorting.{insertion_sort, insertion_sort-IsSorting}

-- Distance by latitude only, the list as it is.
abbrev pub far : Distance
far lat lon lat' lon' = elim lat' [ pos n ↦ n | _ ↦ 0 ]

abbrev pub keep_order : Shuffle
keep_order ns = ns

abbrev metrics_at : ℕ → ℕ → NodeMetrics
metrics_at cpu lat = record {
  cpu_usage_percentage = cpu;
  ram_usage_percentage = 0;
  bandwidth_usage_percentage = 0;
  geo_latitude = pos lat;
  geo_longitude = pos 0;
  timestamp = 1000;
}

abbrev node : String → ℕ → ℕ → ScoredNode
node name cpu lat = record {
  score = 0;
  geo_score = 0;
  stream_score = 0;
  geo_distance = 0;
  name = name;
  streams = [];
  metrics = metrics_at cpu lat;
}

abbrev three_nodes : List ScoredNode
three_nodes = node "a" 9000 0 ∷ node "b" 100 1200 ∷ node "c" 0 9000 ∷ []

select_top_nodes-IsBest_example :
    IsBest far
      (pos 0)
      (pos 0)
      three_nodes
      "stream"
      2
      (select_top_nodes insertion_sort keep_order far three_nodes "stream" (pos 0) (pos 0) 2)
    × ((q : Test)
        → count_if
            (passes q)
            (select_top_nodes insertion_sort keep_order far three_nodes "stream" (pos 0) (pos 0) 2)
          ≤ count_if (passes q) three_nodes)
select_top_nodes-IsBest_example =
    select_top_nodes-IsBest far (pos 0) (pos 0) three_nodes "stream" 2 insertion_sort keep_order
      insertion_sort-IsSorting (λ p ns. refl) (refl, (refl, (refl, tt)))

abbrev event : NodeUpdateEvent
event = record { node_id = "a"; node_metrics = metrics_at 0 0; streams = "" }

abbrev ids : List String
ids = "video+x" ∷ "video+y" ∷ []

get_streams-set_streams_example :
    (get_streams (set_streams ids ("z" ∷ []) event) ≡ ids)
    × (get_ingest_streams (set_streams ids ("z" ∷ []) event) ≡ "z" ∷ [])
unfolding occurs
get_streams-set_streams_example =
    get_streams-set_streams ids ("z" ∷ []) event ((refl, refl), ((refl, refl), tt))
      ((refl, refl), tt) (refl, (refl, tt))

abbrev pub table : Stats
table = record {
  streams = [];
  ingest_streams = [];
  node_metrics = ("a", metrics_at 9000 0) ∷ ("b", metrics_at 100 1200) ∷ [];
}

abbrev pub no_floats : String → Result ℤ
no_floats s = ok (pos 1)

best_node_total_example :
    (name : String) × (best_node insertion_sort keep_order far 7 no_floats "self" 2000 5000 []
        "stream" "" "" table
      ≡ ok (name, concat (first_or "video" []) (concat "+" "stream")))
    × ((AllStale 2000 5000 table.node_metrics × (name ≡ "self"))
        ⊎ HasFresh 2000 5000 name table.node_metrics)
unfolding coordinate
best_node_total_example =
    best_node_total insertion_sort keep_order far insertion_sort-IsSorting (λ p ns. refl) 7
      no_floats "self" 2000 5000 [] "stream" "" "" table (pos 0) (pos 0) refl refl
