-- ===== src/Tests/Connectivity.antt =====
-- The routes between nodes (web/src/connectivity.ts) on three nodes in a line, and one apart. Texts are
-- compared by code points and left as they are.
use Prim.Native.Nat.{Ordering, compare as compare_numbers}
use Prim.Native.String.{compare}
use text.Mathlib.TextEquality.{eq_iff}
use mathlib.Core.List.{Memᴰ, Perm}
use mc_carto_live.Prelude.{
  ℕ, String, string_discrete, ne_of_test, Bool, true, ◌≡◌, ◌↔◌, refl, Option, none, some, List, [],
  ◌∷◌, map, All,
}
use mc_carto_live.Prelude.Int.{pos}
use mc_carto_live.Prelude.{if◌then◌else◌}
use mc_carto_live.Prelude.JsString.{is_empty}
use mc_carto_live.Prelude.JsMap.{JsMap, get, set}
use mc_carto_live.Prelude.JsSet.{has}
use mc_carto_live.Connectivity.Compare.{compare_routes_by_activity}
use mc_carto_live.Types.{NodeRole, PublicNode, PublicRoute, PublicRouteEndpoint}
use mc_carto_live.Connectivity.{
  direct_connectivity, ConnectivityGraph, build_connectivity_graph, edges_of, map_of_nodes, forward,
}
use mc_carto_live.Connectivity.Paths.{
  compare_path_candidates, PathCandidate, ReachableNode, is_known, reachable_paths,
  shortest_path_between,
}
use mc_carto_live.Connectivity.Paths.Shortest.{
  IsShortest, IsAnswer, reachable_paths_lem, shortest_path_between_lem,
}
use mc_carto_live.Connectivity.Edges.{IsEdge, build_connectivity_graph-edges}
use mc_carto_live.Connectivity.Direct.{direct_connectivity-hops}
use mc_carto_live.Connectivity.Symmetric.{hops_of, reachable_paths-symmetric}
use mc_carto_live.Connectivity.Phonebook.{
  PhonebookSortMode, PhonebookFilterOptions, PhonebookGroup, phonebook_groups_for_node,
}
use mc_carto_live.Connectivity.Phonebook.Signs.{flip, compare-flip}
use mc_carto_live.Connectivity.Phonebook.Order.{IsOrdered, phonebook_groups_for_node-IsOrdered}
use mc_carto_live.Connectivity.Phonebook.Groups.{all_items, IsRising, IsUniform}
use mc_carto_live.Connectivity.Phonebook.Made.{shown_items, phonebook_groups_for_node_lem}

abbrev node : String → ℕ → PublicNode
node id activity = record {
  seq = none;
  id = id;
  label = id;
  role = NodeRole.repeater;
  is_observer = none;
  latitude = pos 0;
  longitude = pos 0;
  last_seen = 0;
  first_seen = 0;
  iatas_heard_in = [];
  regions_heard_in = none;
  activity_count = activity;
}

abbrev end_at : String → PublicRouteEndpoint
end_at id = record { node_id = id; label = id; lat = pos 0; lng = pos 0; path_hash3 = none }

abbrev route : String → String → String → ℕ → PublicRoute
route id from to packets = record {
  id = id;
  from = end_at from;
  to = end_at to;
  distance_km = 10;
  packet_count = packets;
  last_heard = 5;
  frequency_bucket = 0;
  payload_type_names = [];
}

abbrev nodes : List PublicNode
nodes = node "a" 1 ∷ node "b" 2 ∷ node "c" 3 ∷ node "d" 4 ∷ []

abbrev route_bc : PublicRoute
route_bc = route "bc" "b" "c" 7

abbrev routes : List PublicRoute
routes = route "ab" "a" "b" 3 ∷ route_bc ∷ route "az" "a" "z" 9 ∷ []

abbrev as_is : String → String
as_is s = s

abbrev within : String → String → Bool
within s t = true

abbrev no_filter : PhonebookFilterOptions
no_filter = record { query = none; max_distance_km = none; sort_mode = none }

abbrev line : ConnectivityGraph
line = build_connectivity_graph as_is compare nodes routes

abbrev shortest_items : Option (Option ReachableNode) → List ReachableNode
shortest_items (some (some r)) = r ∷ []
shortest_items o = []

-- From `a` the walk to `c` takes both routes, and the route to the unknown node is not one.
shortest_path_between_run :
    map
      (λ (r : ReachableNode). r.path_node_ids)
      (shortest_items (shortest_path_between compare as_is line "a" "c"))
    ≡ ("a" ∷ "b" ∷ "c" ∷ []) ∷ []
unfolding shortest_path_between build_connectivity_graph get set string_discrete
    compare_routes_by_activity has
shortest_path_between_run = refl

abbrev heard : String → String → String → ℕ → ℕ → PublicRoute
heard id from to packets last = record (route id from to packets) { last_heard = last }

-- Two ways of two hops to `c`, and one route on to `d`.
abbrev ways : ConnectivityGraph
ways =
    build_connectivity_graph as_is compare
      (node "a" 1 ∷ node "x" 1 ∷ node "y" 1 ∷ node "c" 1 ∷ node "d" 1 ∷ [])
      (heard "ax" "a" "x" 5 10
        ∷ heard "ay" "a" "y" 6 1
        ∷ heard "xc" "x" "c" 1 1
        ∷ heard "yc" "y" "c" 1 1
        ∷ heard "cd" "c" "d" 100 0
        ∷ [])

-- The way over `y` is preferred at `c`, and so the one over `x` is not carried on to `d`, where it is as
-- strong and was heard later.
heard_later_run :
    map {B = List String × ℕ × ℕ}
      (λ (r : ReachableNode). (r.path_node_ids, r.strongest_route_packet_count, r.last_heard))
      (shortest_items (shortest_path_between compare as_is ways "a" "d"))
    ≡ ("a" ∷ "y" ∷ "c" ∷ "d" ∷ [], 100, 1) ∷ []
unfolding shortest_path_between build_connectivity_graph get set string_discrete
    compare_routes_by_activity has compare_path_candidates
heard_later_run = refl

known : is_known line "a" ≡ true
unfolding build_connectivity_graph get set string_discrete
known = refl

known_target : is_known line "c" ≡ true
unfolding build_connectivity_graph get set string_discrete
known_target = refl

reachable_paths_lem_example :
    (best : JsMap PathCandidate) × (reachable_paths compare line "a" ≡ some best)
    × ((v : String) → IsShortest line "a" v (get v best))
reachable_paths_lem_example = reachable_paths_lem compare line "a"

shortest_path_between_lem_example :
    (answer : Option ReachableNode) × (shortest_path_between compare as_is line "a" "c"
      ≡ some answer)
    × IsAnswer line "a" "c" answer
shortest_path_between_lem_example =
    shortest_path_between_lem as_is line "a" "c" compare known known_target
      (ne_of_test (eq_iff "a" "c") refl)

phonebook_groups_for_node_lem_example :
    (groups : List PhonebookGroup) × (best : JsMap PathCandidate) × (phonebook_groups_for_node as_is
        as_is within compare line
        (some "a")
        no_filter
      ≡ some groups)
    × IsRising groups
    × All IsUniform groups
    × Perm (all_items groups) (shown_items as_is as_is within line "a" no_filter best)
    × ((v : String) → IsShortest line "a" v (get v best))
phonebook_groups_for_node_lem_example =
    phonebook_groups_for_node_lem as_is as_is within line "a" no_filter compare known

build_connectivity_graph-edges_example :
    Memᴰ (forward route_bc) (edges_of line "b")
    ↔ IsEdge (map_of_nodes [] nodes) routes "b" (forward route_bc)
build_connectivity_graph-edges_example =
    build_connectivity_graph-edges as_is compare nodes routes "b" (forward route_bc)

reachable_paths-symmetric_example :
    (from_a : JsMap PathCandidate) × (from_c : JsMap PathCandidate) × (reachable_paths compare line
        "a"
      ≡ some from_a)
    × (reachable_paths compare line "c" ≡ some from_c)
    × (hops_of (get "c" from_a) ≡ hops_of (get "a" from_c))
reachable_paths-symmetric_example = reachable_paths-symmetric as_is compare nodes routes "a" "c"

direct_connectivity-hops_example :
    (best : JsMap PathCandidate) × (reachable_paths compare line "a" ≡ some best)
    × ((has "b" (direct_connectivity compare line (some "a")).node_ids ≡ true)
        ↔ (hops_of (get "b" best) ≡ some 1))
direct_connectivity-hops_example =
    direct_connectivity-hops compare line "a" "b" refl (ne_of_test (eq_iff "a" "b") refl)

-- The empty text first.
abbrev rank : String → ℕ
rank s = if is_empty s then 0 else 1

abbrev by_rank : String → String → Ordering
by_rank s t = compare_numbers (rank s) (rank t)

by_rank_opposite : (s t : String) → by_rank t s ≡ flip (by_rank s t)
by_rank_opposite s t = compare-flip (rank s) (rank t)

abbrev busiest_first : PhonebookFilterOptions
busiest_first = record no_filter { sort_mode = some PhonebookSortMode.busiest }

phonebook_groups_for_node-IsOrdered_example :
    (groups : List PhonebookGroup) × (phonebook_groups_for_node as_is as_is within by_rank line
        (some "a")
        busiest_first
      ≡ some groups)
    × All (λ (group : PhonebookGroup). IsOrdered PhonebookSortMode.busiest group.nodes) groups
phonebook_groups_for_node-IsOrdered_example =
    phonebook_groups_for_node-IsOrdered by_rank by_rank_opposite as_is as_is within line "a"
      busiest_first known
