-- ===== src/Connectivity.antt =====
-- web/src/connectivity.ts: the graph of the routes between known nodes, and the direct neighbours of a
-- node. `upper` is `toUpperCase` and `locale_compare` is `localeCompare`. A comparator gives an
-- `Ordering` for the sign of its number.
pub mod Compare
pub mod Paths
pub mod Phonebook
pub mod Walks
pub mod Adjacency
pub mod Edges
pub mod Symmetric
pub mod Direct
use Prim.Native.Char.{code}
use Prim.Native.Nat.{Ordering}
use Prim.Native.String.{[] as end_of_text, ◌∷◌ as char_before}
use mc_carto_live.Prelude.{
  ℕ, zero, suc, String, Bool, true, false, not, ◌&&◌, ◌||◌, leb, Option, none, some, List, [], ◌∷◌,
  ◌++◌, map, ◌⁇◌, if◌then◌else◌,
}
use mc_carto_live.Prelude.JsString.{trim, is_empty}
use mc_carto_live.Prelude.JsMap.{JsMap, get, has, set}
use mc_carto_live.Prelude.JsSet.{add}
use mc_carto_live.Prelude.Sort.{sort}
use mc_carto_live.Types.{PublicNode, PublicRoute}
use mc_carto_live.Connectivity.Compare.{
  compare_routes_by_activity, compare_nodes_by_activity, not_after,
}

pub record GraphEdge : Type 0 where
  pub route : PublicRoute
  pub from_node_id : String
  pub to_node_id : String

pub record ConnectivityGraph : Type 0 where
  pub nodes_by_id : JsMap PublicNode
  pub routes_by_id : JsMap PublicRoute
  pub adjacency : JsMap (List GraphEdge)
  pub path_hash3_by_node_id : JsMap String

pub record DirectConnectivity : Type 0 where
  pub route_ids : List String
  pub node_ids : List String
  pub routes : List PublicRoute
  pub nodes : List PublicNode

-- `new Map(nodes.map((node) => [node.id, node]))`
unfoldable pub map_of_nodes : JsMap PublicNode → List PublicNode → JsMap PublicNode
map_of_nodes m [] = m
map_of_nodes m (node ∷ nodes) = map_of_nodes (set node.id node m) nodes

-- A digit, or a letter from A to F.
abbrev pub is_hex_code : ℕ → Bool
is_hex_code c = (leb 48 c && leb c 57) || (leb 65 c && leb c 70)

-- As many hexadecimal digits as the number says, and nothing else.
abbrev pub is_hex : ℕ → String → Bool
is_hex zero s = is_empty s
is_hex (suc n) end_of_text = false
is_hex (suc n) (char_before c s) = is_hex_code (code c) && is_hex n s

unfoldable pub append_edge : String → GraphEdge → JsMap (List GraphEdge) → JsMap (List GraphEdge)
append_edge node_id edge adjacency =
    set node_id ((get node_id adjacency ⁇ []) ++ edge ∷ []) adjacency

abbrev pub forward : PublicRoute → GraphEdge
forward route = record {
  route = route;
  from_node_id = route.from.node_id;
  to_node_id = route.to.node_id;
}

abbrev pub backward : PublicRoute → GraphEdge
backward route = record {
  route = route;
  from_node_id = route.to.node_id;
  to_node_id = route.from.node_id;
}

-- Each value of a map.
abbrev pub map_values : {A B : Type 0} → (A → B) → JsMap A → JsMap B
map_values f m = map (λ e. (e.0, f e.1)) m

-- What `map.get` finds of the keys.
abbrev pub found : {A : Type 0} → JsMap A → List String → List A
found m [] = []
found m (k ∷ keys) = elim (get k m) [ none ↦ found m keys | some a ↦ a ∷ found m keys ]

abbrev pub graph_of_nodes : List PublicNode → ConnectivityGraph
graph_of_nodes nodes = record {
  nodes_by_id = map_of_nodes [] nodes;
  routes_by_id = [];
  adjacency = [];
  path_hash3_by_node_id = [];
}

module _ (upper : String → String) where
  unfoldable pub normalize_path_hash3 : Option String → String
  normalize_path_hash3 value =
      let normalized = upper (trim (value ⁇ "")) in if is_hex 6 normalized then normalized else ""

  unfoldable pub register_path_hash3 : String → Option String → JsMap String → JsMap String
  unfolding normalize_path_hash3
  register_path_hash3 node_id value hashes =
      let normalized = normalize_path_hash3 value in
      if not (is_empty normalized) && not (has node_id hashes)
      then set node_id normalized hashes
      else hashes

  -- One route of the loop.
  unfoldable pub add_route : PublicRoute → ConnectivityGraph → ConnectivityGraph
  unfolding register_path_hash3 append_edge
  add_route route graph =
      if not (has route.from.node_id graph.nodes_by_id)
        || not (has route.to.node_id graph.nodes_by_id)
      then graph
      else record graph {
        path_hash3_by_node_id = register_path_hash3 route.to.node_id route.to.path_hash3 (
            register_path_hash3 route.from.node_id route.from.path_hash3
              graph.path_hash3_by_node_id);
        routes_by_id = set route.id route graph.routes_by_id;
        adjacency =
            append_edge route.to.node_id (backward route)
              (append_edge route.from.node_id (forward route) graph.adjacency);
      }

  unfoldable pub add_routes : List PublicRoute → ConnectivityGraph → ConnectivityGraph
  unfolding add_route
  add_routes [] graph = graph
  add_routes (route ∷ routes) graph = add_routes routes (add_route route graph)

module _ (locale_compare : String → String → Ordering) where
  -- `compareGraphEdges(left, right) <= 0`
  abbrev pub edge_not_after : GraphEdge → GraphEdge → Bool
  edge_not_after left right =
      not_after (compare_routes_by_activity locale_compare left.route right.route)

module _ (upper : String → String) (locale_compare : String → String → Ordering) where
  unfoldable pub build_connectivity_graph : List PublicNode → List PublicRoute → ConnectivityGraph
  unfolding add_routes map_of_nodes sort
  build_connectivity_graph nodes routes =
      let graph = add_routes upper routes (graph_of_nodes nodes) in
      record graph { adjacency = map_values (sort (edge_not_after locale_compare)) graph.adjacency }

-- `graph.adjacency.get(id) ?? []`
abbrev pub edges_of : ConnectivityGraph → String → List GraphEdge
edges_of graph id = get id graph.adjacency ⁇ []

abbrev pub add_route_ids : List GraphEdge → List String → List String
add_route_ids [] ids = ids
add_route_ids (edge ∷ edges) ids = add_route_ids edges (add edge.route.id ids)

abbrev pub add_node_ids : List GraphEdge → List String → List String
add_node_ids [] ids = ids
add_node_ids (edge ∷ edges) ids = add_node_ids edges (add edge.to_node_id ids)

module _ (locale_compare : String → String → Ordering) where
  unfoldable pub direct_connectivity : ConnectivityGraph → Option String → DirectConnectivity
  unfolding sort get add
  direct_connectivity graph none = record { route_ids = []; node_ids = []; routes = []; nodes = [] }
  direct_connectivity graph (some selected) =
      let edges = if is_empty selected then [] else edges_of graph selected in
      let route_ids = add_route_ids edges [] in
      let node_ids = add_node_ids edges [] in
      record {
        route_ids = route_ids;
        node_ids = node_ids;
        routes =
            sort (λ a b. not_after (compare_routes_by_activity locale_compare a b))
              (found graph.routes_by_id route_ids);
        nodes =
            sort (λ a b. not_after (compare_nodes_by_activity locale_compare a b))
              (found graph.nodes_by_id node_ids);
      }
