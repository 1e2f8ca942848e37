-- ===== src/Connectivity/Paths.antt =====
-- The best paths of web/src/connectivity.ts from a node: `reachablePaths` and `shortestPathBetween`.
-- Each round of the loop takes one candidate off the queue and looks along its edges.
pub mod Loop
pub mod Runs
pub mod Load
pub mod Ends
pub mod Reach
pub mod Sound
pub mod Shortest
use Prim.Native.Nat.{compare, Ordering}
use Prim.Native.String.{◌++◌ as str_append}
use mc_carto_live.Prelude.{
  ℕ, zero, suc, ◌+◌, ◌^◌, max, String, string_discrete, ite, Bool, true, false, not, ◌&&◌, ◌||◌,
  Option, none, some, List, [], ◌∷◌, ◌++◌, map, length, filter, ◌⁇◌, if◌then◌else◌,
}
use mc_carto_live.Prelude.JsString.{is_empty}
use mc_carto_live.Prelude.JsMap.{JsMap, get, has, set}
use mc_carto_live.Prelude.JsSet
use mc_carto_live.Prelude.Sort.{sort}
use mc_carto_live.Types.{PublicNode, PublicRoute}
use mc_carto_live.Connectivity.{GraphEdge, ConnectivityGraph, edges_of, normalize_path_hash3}
use mc_carto_live.Connectivity.Compare.{◌else_by◌, is_before, not_after}

pub record PathCandidate : Type 0 where
  pub node_id : String
  pub hop_count : ℕ
  pub route_ids : List String
  pub node_ids : List String
  pub total_distance_km : ℕ
  pub strongest_route_packet_count : ℕ
  pub total_route_packets : ℕ
  pub last_heard : ℕ
  pub endpoint_labels : List String
  pub path_hash3 : List String

pub record ReachableNode : Type 0 where
  pub node : PublicNode
  pub hop_count : ℕ
  pub path_route_ids : List String
  pub path_node_ids : List String
  pub total_distance_km : ℕ
  pub strongest_route_packet_count : ℕ
  pub total_route_packets : ℕ
  pub last_heard : ℕ
  pub endpoint_labels : List String
  pub path_hash3 : List String
  pub meshcore_path3 : String

-- `best` and `queue` of `reachablePaths`.
pub record Search : Type 0 where
  pub best : JsMap PathCandidate
  pub queue : List PathCandidate

abbrev pub start_candidate : String → PathCandidate
start_candidate id = record {
  node_id = id;
  hop_count = 0;
  route_ids = [];
  node_ids = id ∷ [];
  total_distance_km = 0;
  strongest_route_packet_count = 0;
  total_route_packets = 0;
  last_heard = 0;
  endpoint_labels = [];
  path_hash3 = [];
}

-- The label of the end of a route that an edge leads to.
abbrev pub end_label : GraphEdge → String
end_label edge =
    ite (string_discrete edge.route.from.node_id edge.from_node_id) edge.route.to.label
      edge.route.from.label

unfoldable pub next_candidate : ConnectivityGraph → PathCandidate → GraphEdge → PathCandidate
next_candidate graph current edge = record {
  node_id = edge.to_node_id;
  hop_count = current.hop_count + 1;
  route_ids = current.route_ids ++ edge.route.id ∷ [];
  node_ids = current.node_ids ++ edge.to_node_id ∷ [];
  total_distance_km = current.total_distance_km + edge.route.distance_km;
  strongest_route_packet_count = max current.strongest_route_packet_count edge.route.packet_count;
  total_route_packets = current.total_route_packets + edge.route.packet_count;
  last_heard = max current.last_heard edge.route.last_heard;
  endpoint_labels = current.endpoint_labels ++ end_label edge ∷ [];
  path_hash3 = current.path_hash3 ++ (get edge.to_node_id graph.path_hash3_by_node_id ⁇ "") ∷ [];
}

-- Where every edge of the graph leads.
unfoldable pub all_targets : JsMap (List GraphEdge) → List String
all_targets [] = []
all_targets ((id, edges) ∷ m) = map (λ (e : GraphEdge). e.to_node_id) edges ++ all_targets m

-- With `e` edges, (1 + e)^e rounds and one more.
unfoldable pub enough_rounds : ConnectivityGraph → ℕ
unfolding all_targets
enough_rounds graph = let e = length (all_targets graph.adjacency) in suc e ^ e + 1

-- `[...].filter(Boolean).join(',')`
unfoldable pub join_filled : List String → String
join_filled [] = ""
join_filled (s ∷ texts) =
    let rest = join_filled texts in
    if is_empty s then rest else if is_empty rest then s else str_append s (str_append "," rest)

unfoldable pub meshcore_path3 : (String → String) → List String → String
unfolding normalize_path_hash3 join_filled
meshcore_path3 upper prefixes =
    join_filled (map (λ prefix. normalize_path_hash3 upper (some prefix)) prefixes)

abbrev pub reachable_node : (String → String) → PathCandidate → PublicNode → ReachableNode
reachable_node upper path node = record {
  node = node;
  hop_count = path.hop_count;
  path_route_ids = path.route_ids;
  path_node_ids = path.node_ids;
  total_distance_km = path.total_distance_km;
  strongest_route_packet_count = path.strongest_route_packet_count;
  total_route_packets = path.total_route_packets;
  last_heard = path.last_heard;
  endpoint_labels = path.endpoint_labels;
  path_hash3 = path.path_hash3;
  meshcore_path3 = meshcore_path3 upper path.path_hash3;
}

abbrev pub start_search : String → Search
start_search id = record { best = (id, start_candidate id) ∷ []; queue = start_candidate id ∷ [] }

-- A known node: not the empty text, and in the graph.
abbrev pub is_known : ConnectivityGraph → String → Bool
is_known graph id = not (is_empty id) && has id graph.nodes_by_id

abbrev pub end_of_path :
    (String → String) → Option PathCandidate → Option PublicNode → Option ReachableNode
end_of_path upper (some path) (some node) = some (reachable_node upper path node)
end_of_path upper path end = none

module _ (locale_compare : String → String → Ordering) where
  unfoldable pub compare_path_candidates : PathCandidate → PathCandidate → Ordering
  compare_path_candidates left right =
      compare left.hop_count right.hop_count
      else_by compare right.strongest_route_packet_count left.strongest_route_packet_count
      else_by compare right.last_heard left.last_heard
      else_by compare right.total_route_packets left.total_route_packets
      else_by compare left.total_distance_km right.total_distance_km
      else_by locale_compare left.node_id right.node_id

  abbrev pub path_not_after : PathCandidate → PathCandidate → Bool
  path_not_after left right = not_after (compare_path_candidates left right)

  -- `best.set`, `queue.push` and `queue.sort`
  unfoldable pub improve : PathCandidate → Search → Search
  improve next search = record {
    best = set next.node_id next search.best;
    queue = sort path_not_after (search.queue ++ next ∷ []);
  }

  -- Whether a candidate is better than what is known, if anything is.
  abbrev pub is_better : PathCandidate → Option PathCandidate → Bool
  is_better next none = true
  is_better next (some existing) = is_before (compare_path_candidates next existing)

  -- One edge of the inner loop.
  unfoldable pub consider : ConnectivityGraph → PathCandidate → GraphEdge → Search → Search
  unfolding improve next_candidate
  consider graph current edge search =
      let next = next_candidate graph current edge in
      if JsSet.has edge.to_node_id current.node_ids
      then search
      else if is_better next (get next.node_id search.best)
      then improve next search
      else search

  unfoldable pub consider_all : ConnectivityGraph → PathCandidate → List GraphEdge → Search → Search
  unfolding consider
  consider_all graph current [] search = search
  consider_all graph current (edge ∷ edges) search =
      consider_all graph current edges (consider graph current edge search)

  -- No result where the rounds run out.
  unfoldable pub paths_loop : ConnectivityGraph → ℕ → Search → Option (JsMap PathCandidate)
  unfolding consider_all
  paths_loop graph zero search = none
  paths_loop graph (suc rounds) search = elim search.queue [
    | [] ↦ some search.best
    | current ∷ rest ↦ paths_loop graph rounds (
        consider_all graph current (edges_of graph current.node_id)
          (record search { queue = rest }))
  ]

  unfoldable pub reachable_paths : ConnectivityGraph → String → Option (JsMap PathCandidate)
  unfolding paths_loop enough_rounds
  reachable_paths graph id = paths_loop graph (enough_rounds graph) (start_search id)

  -- The outer `none` stands for rounds that run out.
  unfoldable pub shortest_path_between :
      (String → String) → ConnectivityGraph → String → String → Option (Option ReachableNode)
  unfolding reachable_paths meshcore_path3
  shortest_path_between upper graph source target =
      let paths = reachable_paths graph source in
      if not (is_known graph source)
        || not (is_known graph target)
        || ite (string_discrete source target) true false
      then some none
      else elim paths [
        | none ↦ none
        | some best ↦ some (end_of_path upper (get target best) (get target graph.nodes_by_id))
      ]
