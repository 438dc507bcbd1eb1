-- ===== src/Balancer/Stats.antt =====
-- balancer/catabalancer/catalyst_balancer.go: the table of nodes, read from the database and
-- cached, and the requests that it answers. The rows of the query, decoded from JSON, are an
-- argument; so is the parser of decimals. Times are milliseconds.
pub mod Laws
pub mod Node
use dms_api.Prelude.{
  ℕ, ◌+◌, String, concat, Bool, Option, none, some, List, [], ◌∷◌, str_eq, ltb, leb, if◌then◌else◌,
}
use dms_api.Prelude.Int.{ℤ, pos}
use dms_api.Prelude.Dict
use dms_api.Prelude.Dict.{Dict}
use dms_api.Prelude.Text.{split, cut, join}
use dms_api.Errors.{Error, plain, wrapped}
use dms_api.Result.{Result, ok, err, ◌>>=◌}
use dms_api.Balancer.Nodes.{Stream, Streams, NodeMetrics, ScoredNode, Sort, Distance}
use dms_api.Balancer.Selection.{Shuffle, select_node}

-- `stats`
pub record Stats : Type 0 where
  pub streams : Dict Streams
  pub ingest_streams : Dict Streams
  pub node_metrics : Dict NodeMetrics

pub record NodeUpdateEvent : Type 0 where
  pub node_id : String
  pub node_metrics : NodeMetrics
  pub streams : String

unfoldable pub set_streams : List String → List String → NodeUpdateEvent → NodeUpdateEvent
set_streams stream_ids ingest_stream_ids n = record n {
  streams = concat (join "|" stream_ids) (concat "~" (join "|" ingest_stream_ids));
}

unfoldable pub split_ids : String → List String
split_ids s = if str_eq s "" then [] else split b'|' s

unfoldable pub get_streams : NodeUpdateEvent → List String
unfolding split_ids
get_streams n = split_ids (cut b'~' n.streams).0

unfoldable pub get_ingest_streams : NodeUpdateEvent → List String
unfolding split_ids
get_ingest_streams n = split_ids (cut b'~' n.streams).1

-- `isStale`
unfoldable pub is_stale : ℕ → ℕ → ℕ → Bool
is_stale now timestamp stale = leb (timestamp + stale) now

second_of : String → List String → String
second_of s (a ∷ b ∷ []) = b
second_of s _ = s

-- `getPlaybackID`
unfoldable pub get_playback_id : String → String
unfolding second_of
get_playback_id stream_id = second_of stream_id (split b'+' stream_id)

stream_of : ℕ → String → Stream
stream_of now s = record { id = s; playback_id = get_playback_id s; timestamp = now }

-- The streams by playback id; a later one replaces an earlier one.
add_streams : ℕ → List String → Streams → Streams
add_streams now [] m = m
add_streams now (s ∷ ss) m = add_streams now ss (Dict.put (get_playback_id s) (stream_of now s) m)

-- The ingest streams by stream id.
add_ingest : ℕ → List String → Streams → Streams
add_ingest now [] m = m
add_ingest now (s ∷ ss) m = add_ingest now ss (Dict.put s (stream_of now s) m)

-- One row of the result set.
unfoldable pub add_row : ℕ → ℕ → NodeUpdateEvent → Stats → Stats
unfolding stream_of add_streams add_ingest
add_row now metric_timeout event s =
    if is_stale now event.node_metrics.timestamp metric_timeout then s else record {
      node_metrics = Dict.put event.node_id event.node_metrics s.node_metrics;
      streams =
          Dict.put event.node_id
            (add_streams now (get_ingest_streams event) (add_streams now (get_streams event) []))
            s.streams;
      ingest_streams =
          Dict.put event.node_id (add_ingest now (get_ingest_streams event) []) s.ingest_streams;
    }

-- The rows, each of them decoded or not; the first bad one ends the loop.
add_rows : ℕ → ℕ → List (Result NodeUpdateEvent) → Stats → Result Stats
add_rows now metric_timeout [] s = ok s
add_rows now metric_timeout (err e ∷ rows) s = err e
add_rows now metric_timeout (ok event ∷ rows) s =
    add_rows now metric_timeout rows (add_row now metric_timeout event s)

abbrev pub no_stats : Stats
no_stats = record { streams = []; ingest_streams = []; node_metrics = [] }

-- What the database gives: no connection, a failed query, or the rows with the error after them.
pub data Query : Type 0 where
  no_database : Query
  query_failed : Error → Query
  rows : List (Result NodeUpdateEvent) → Option Error → Query

finish_rows : Option Error → Result Stats → Result Stats
finish_rows after (err e) = err e
finish_rows none (ok s) = ok s
finish_rows (some e) (ok s) = err e

unfoldable pub read_stats : ℕ → ℕ → Query → Result Stats
unfolding add_rows finish_rows
read_stats now metric_timeout no_database = err (plain "node stats DB was nil")
read_stats now metric_timeout (query_failed e) = err (wrapped "failed to query node stats: " e)
read_stats now metric_timeout (rows events after) =
    finish_rows after (add_rows now metric_timeout events no_stats)

-- The cache holds one table until it expires; only a table that was read whole gets into it.
pub record Cache : Type 0 where
  pub stats : Option Stats
  pub expires : ℕ

cached : ℕ → Cache → Option Stats
cached now c = if ltb c.expires now then none else c.stats

stored : ℕ → ℕ → Cache → Result Stats → Result Stats × Cache
stored now expiry c (err e) = (err e, c)
stored now expiry c (ok s) = (ok s, record { stats = some s; expires = now + expiry })

-- `refreshNodes`, with the answer that the database would give.
unfoldable pub refresh_nodes : ℕ → ℕ → ℕ → Query → Cache → Result Stats × Cache
unfolding cached stored
refresh_nodes now metric_timeout expiry query c = elim (cached now c) [
  | some s ↦ (ok s, c)
  | none ↦ stored now expiry c (read_stats now metric_timeout query)
]

unfoldable pub fresh_streams : ℕ → ℕ → Streams → Streams
fresh_streams now metric_timeout [] = []
fresh_streams now metric_timeout ((k, s) ∷ m) =
    let rest = fresh_streams now metric_timeout m in
    if is_stale now s.timestamp metric_timeout then rest else (k, s) ∷ rest

unfoldable pub streams_of : String → Dict Streams → Streams
streams_of name m = elim (Dict.get name m) [ some streams ↦ streams | none ↦ [] ]

-- The loop of `createScoredNodes` over the metrics.
unfoldable pub scored_from : ℕ → ℕ → Stats → Dict NodeMetrics → List ScoredNode
scored_from now metric_timeout s [] = []
scored_from now metric_timeout s ((name, metrics) ∷ m) =
    let rest = scored_from now metric_timeout s m in
    if is_stale now metrics.timestamp metric_timeout
    then rest
    else record {
      score = 0;
      geo_score = 0;
      stream_score = 0;
      geo_distance = 0;
      name = name;
      streams = fresh_streams now metric_timeout (streams_of name s.streams);
      metrics = metrics;
    }
      ∷ rest

unfoldable pub create_scored_nodes : ℕ → ℕ → Stats → List ScoredNode
unfolding fresh_streams streams_of scored_from
create_scored_nodes now metric_timeout s = scored_from now metric_timeout s s.node_metrics

-- A coordinate of the request; an empty one is 0.
unfoldable pub coordinate : (String → Result ℤ) → String → Result ℤ
coordinate parse_float s = if str_eq s "" then ok (pos 0) else parse_float s

unfoldable pub first_or : String → List String → String
first_or d [] = d
first_or d (x ∷ xs) = x

unfoldable pub choose_node :
    Sort → Shuffle → Distance → ℕ → String → List ScoredNode → String → ℤ → ℤ → Result String
choose_node sort shuffle distance random own [] playback_id lat lon = ok own
choose_node sort shuffle distance random own (n ∷ ns) playback_id lat lon =
    select_node sort shuffle distance random (n ∷ ns) playback_id lat lon

-- `GetBestNode`, behind the refresh: the name of the node, and of the stream there.
unfoldable pub best_node :
    Sort
    → Shuffle
    → Distance
    → ℕ
    → (String → Result ℤ)
    → String
    → ℕ
    → ℕ
    → List String
    → String
    → String
    → String
    → Stats
    → Result (String × String)
unfolding coordinate first_or choose_node
best_node sort shuffle distance random parse_float own now metric_timeout prefixes playback_id lat
      lon s =
    do
      latf ← coordinate parse_float lat
      lonf ← coordinate parse_float lon
      name ←
          choose_node sort shuffle distance random own (create_scored_nodes now metric_timeout s)
            playback_id latf lonf
      ok (name, concat (first_or "video" prefixes) (concat "+" playback_id))

-- The loop of `MistUtilLoadSource` over the nodes: the first that has the ingest stream decides.
load_source : ℕ → ℕ → String → Dict Streams → Dict NodeMetrics → Result String
load_source now timeout stream_id ingest [] =
    err (plain (concat "catabalancer no node found for ingest stream: " stream_id))
load_source now timeout stream_id ingest ((name, metrics) ∷ m) =
    elim (Dict.get stream_id (streams_of name ingest)) [
      | none ↦ load_source now timeout stream_id ingest m
      | some stream ↦
          if is_stale now stream.timestamp timeout
          then err (plain (concat "catabalancer no node found for ingest stream: " stream_id))
          else ok (concat "dtsc://" name)
    ]

-- `MistUtilLoadSource`, behind the refresh.
unfoldable pub mist_util_load_source : ℕ → ℕ → String → Stats → Result String
unfolding load_source streams_of
mist_util_load_source now ingest_stream_timeout stream_id s =
    load_source now ingest_stream_timeout stream_id s.ingest_streams s.node_metrics
