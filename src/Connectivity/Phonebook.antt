-- ===== src/Connectivity/Phonebook.antt =====
-- The phonebook of web/src/connectivity.ts: the nodes reachable from a node, filtered, grouped by hops and
-- sorted. `lower` is `toLowerCase` and `includes` is `String.prototype.includes`, the text first.
pub mod Groups
pub mod Made
pub mod Order
pub mod Signs
use Prim.Native.Nat.{compare, Ordering}
use mc_carto_live.Prelude.{
  ℕ, String, string_discrete, ite, Bool, true, false, not, ◌&&◌, ◌||◌, ltb, leb, ◌==◌, Option, none,
  some, List, [], ◌∷◌, ◌++◌, map, any, filter, ◌⁇◌, if◌then◌else◌,
}
use mathlib.Core.Option
use mc_carto_live.Prelude.JsString.{trim, is_empty}
use mc_carto_live.Prelude.JsMap.{JsMap, get, has}
use mc_carto_live.Prelude.Sort.{sort}
use mc_carto_live.Types.{PublicNode}
use mc_carto_live.Api.State.Json.{role_name}
use mc_carto_live.Connectivity.{ConnectivityGraph}
use mc_carto_live.Connectivity.Compare.{◌else_by◌, not_after}
use mc_carto_live.Connectivity.Paths.{
  PathCandidate, ReachableNode, reachable_node, reachable_paths, is_known,
}

pub data PhonebookSortMode : Type 0 where
  best : PhonebookSortMode
  shortest : PhonebookSortMode
  busiest : PhonebookSortMode
  nearest : PhonebookSortMode
  recent : PhonebookSortMode

pub record PhonebookFilterOptions : Type 0 where
  pub query : Option String
  pub max_distance_km : Option ℕ
  pub sort_mode : Option PhonebookSortMode

pub record PhonebookGroup : Type 0 where
  pub hop_count : ℕ
  pub nodes : List ReachableNode

pub record HighlightedPath : Type 0 where
  pub target_node_id : String
  pub route_ids : List String
  pub node_ids : List String

unfoldable pub phonebook_search_fields : ReachableNode → List String
phonebook_search_fields item =
    filter (λ s. not (is_empty s))
      (item.node.id
        ∷ item.node.label
        ∷ role_name item.node.role
        ∷ item.meshcore_path3
        ∷ (item.node.iatas_heard_in ++ item.endpoint_labels))

-- `options.maxDistanceKm && item.totalDistanceKm > options.maxDistanceKm`: 0 is no limit.
abbrev pub is_too_far : ReachableNode → Option ℕ → Bool
is_too_far item none = false
is_too_far item (some limit) = not (limit == 0) && ltb limit item.total_distance_km

module _ (lower : String → String) (includes : String → String → Bool) where
  unfoldable pub phonebook_item_matches : ReachableNode → PhonebookFilterOptions → Bool
  unfolding phonebook_search_fields
  phonebook_item_matches item options =
      let query = lower (trim (options.query ⁇ "")) in
      if is_too_far item options.max_distance_km
      then false
      else if is_empty query
      then true
      else any (λ value. includes (lower value) query) (phonebook_search_fields item)

module _ (locale_compare : String → String → Ordering) where
  abbrev pub compare_best : ReachableNode → ReachableNode → Ordering
  compare_best left right =
      compare left.hop_count right.hop_count
      else_by compare right.strongest_route_packet_count left.strongest_route_packet_count
      else_by compare right.total_route_packets left.total_route_packets
      else_by compare right.last_heard left.last_heard
      else_by compare left.total_distance_km right.total_distance_km
      else_by compare right.node.activity_count left.node.activity_count
      else_by locale_compare left.node.label right.node.label

  unfoldable pub compare_reachable_nodes :
      PhonebookSortMode → ReachableNode → ReachableNode → Ordering
  compare_reachable_nodes PhonebookSortMode.best left right = compare_best left right
  compare_reachable_nodes PhonebookSortMode.shortest left right =
      compare left.hop_count right.hop_count
      else_by compare left.total_distance_km right.total_distance_km
      else_by compare_best left right
  compare_reachable_nodes PhonebookSortMode.busiest left right =
      compare right.total_route_packets left.total_route_packets
      else_by compare right.strongest_route_packet_count left.strongest_route_packet_count
      else_by compare_best left right
  compare_reachable_nodes PhonebookSortMode.nearest left right =
      compare left.total_distance_km right.total_distance_km
      else_by compare left.hop_count right.hop_count
      else_by compare_best left right
  compare_reachable_nodes PhonebookSortMode.recent left right =
      compare right.last_heard left.last_heard
      else_by compare left.hop_count right.hop_count
      else_by compare_best left right

  abbrev pub item_not_after : PhonebookSortMode → ReachableNode → ReachableNode → Bool
  item_not_after mode left right = not_after (compare_reachable_nodes mode left right)

-- `groups.set(hopCount, [...(groups.get(hopCount) ?? []), item])`, the entries in insertion order.
unfoldable pub add_to_group : ReachableNode → List PhonebookGroup → List PhonebookGroup
add_to_group item [] = record { hop_count = item.hop_count; nodes = item ∷ [] } ∷ []
add_to_group item (group ∷ groups) =
    let rest = add_to_group item groups in
    if group.hop_count == item.hop_count
    then record { hop_count = group.hop_count; nodes = group.nodes ++ item ∷ [] } ∷ groups
    else group ∷ rest

abbrev pub hops_not_after : PhonebookGroup → PhonebookGroup → Bool
hops_not_after left right = leb left.hop_count right.hop_count

module _ (upper : String → String) (lower : String → String) (includes : String → String → Bool)
    (graph : ConnectivityGraph) (selected : String) (options : PhonebookFilterOptions) where
  -- One path of the loop: what it makes of the path, if it is not passed over.
  unfoldable pub phonebook_item : PathCandidate → Option PublicNode → Option ReachableNode
  unfolding phonebook_item_matches
  phonebook_item path none = none
  phonebook_item path (some node) =
      let item = reachable_node upper path node in
      if ite (string_discrete path.node_id selected) true false
        || not (phonebook_item_matches lower includes item options)
      then none
      else some item

  unfoldable pub group_paths :
      List (String × PathCandidate) → List PhonebookGroup → List PhonebookGroup
  unfolding phonebook_item add_to_group
  group_paths [] groups = groups
  group_paths ((id, path) ∷ paths) groups =
      elim (phonebook_item path (get path.node_id graph.nodes_by_id)) [
        | none ↦ group_paths paths groups
        | some item ↦ group_paths paths (add_to_group item groups)
      ]

-- The groups in the order of their hops, the items of each in the order that is asked for.
unfoldable pub sort_groups :
    (String → String → Ordering) → PhonebookSortMode → List PhonebookGroup → List PhonebookGroup
unfolding sort compare_reachable_nodes
sort_groups locale_compare mode groups =
    map
      (λ (group : PhonebookGroup). record group {
        nodes = sort (item_not_after locale_compare mode) group.nodes;
      })
      (sort hops_not_after groups)

-- The outer `none` stands for rounds that run out.
unfoldable pub phonebook_groups_for_node :
    (String → String)
    → (String → String)
    → (String → String → Bool)
    → (String → String → Ordering)
    → ConnectivityGraph
    → Option String
    → PhonebookFilterOptions
    → Option (List PhonebookGroup)
unfolding reachable_paths group_paths sort_groups
phonebook_groups_for_node upper lower includes locale_compare graph none options = some []
phonebook_groups_for_node upper lower includes locale_compare graph (some selected) options =
    if not (is_known graph selected)
    then some []
    else elim (reachable_paths locale_compare graph selected) [
      | none ↦ none
      | some paths ↦ some (
          sort_groups locale_compare (options.sort_mode ⁇ PhonebookSortMode.best)
            (group_paths upper lower includes graph selected options paths []))
    ]

-- `group.nodes.find`
abbrev pub find_item : String → List ReachableNode → Option ReachableNode
find_item target [] = none
find_item target (item ∷ items) =
    ite (string_discrete item.node.id target) (some item) (find_item target items)

-- The loop over the groups.
abbrev pub find_in_groups : String → List PhonebookGroup → Option ReachableNode
find_in_groups target [] = none
find_in_groups target (group ∷ groups) = elim (find_item target group.nodes) [
  | none ↦ find_in_groups target groups
  | some item ↦ some item
]

unfoldable pub highlighted_path_for_target :
    List PhonebookGroup → Option String → Option HighlightedPath
highlighted_path_for_target groups none = none
highlighted_path_for_target groups (some target) =
    if is_empty target
    then none
    else Option.map
        (λ (item : ReachableNode). record {
          target_node_id = target;
          route_ids = item.path_route_ids;
          node_ids = item.path_node_ids;
        })
        (find_in_groups target groups)
