-- ===== src/Connectivity/Phonebook/Made.antt =====
-- The phonebook of web/src/connectivity.ts: `phonebookGroupsForNode` from the paths to the groups.
use Prim.Native.Nat.{Ordering}
use mathlib.Core.List.{Perm, append-nil}
use mathlib.Core.List.Perm
use mc_carto_live.Prelude.{
  String, Bool, true, ◌≡◌, refl, sym, subst, none, some, List, [], ◌∷◌, ◌++◌, All, All-append, ◌⁇◌,
}
use mc_carto_live.Prelude.JsMap.{JsMap, get}
use mc_carto_live.Connectivity.{ConnectivityGraph}
use mc_carto_live.Connectivity.Paths.{PathCandidate, ReachableNode, is_known}
use mc_carto_live.Connectivity.Paths.Shortest.{IsShortest, reachable_paths_lem}
use mc_carto_live.Connectivity.Phonebook.{
  PhonebookSortMode, PhonebookFilterOptions, PhonebookGroup, phonebook_item, add_to_group,
  group_paths, sort_groups, phonebook_groups_for_node,
}
use mc_carto_live.Connectivity.Phonebook.Groups.{
  all_items, IsRising, IsUniform, HasDistinctHops, middle-perm, add_to_group-perm, add_to_group-All,
  add_to_group-HasDistinctHops, sort_groups-perm, sort_groups-IsRising, sort_groups-IsUniform,
}

module _ (upper : String → String) (lower : String → String) (includes : String → String → Bool)
    (graph : ConnectivityGraph) (selected : String) (options : PhonebookFilterOptions) where
  -- The items of the paths that are not passed over.
  abbrev pub shown_items : List (String × PathCandidate) → List ReachableNode
  shown_items [] = []
  shown_items ((id, path) ∷ paths) =
      elim (phonebook_item upper lower includes graph selected options path
        (get path.node_id graph.nodes_by_id)) [
          | none ↦ shown_items paths
          | some item ↦ item ∷ shown_items paths
        ]

  -- Groups with different hops whose items have them.
  abbrev pub IsGrouped : List PhonebookGroup → Type 0
  IsGrouped groups = HasDistinctHops groups × All IsUniform groups

  add_to_group-IsGrouped :
      (item : ReachableNode) (groups : List PhonebookGroup)
      → IsGrouped groups
      → IsGrouped (add_to_group item groups)
  add_to_group-IsGrouped item groups h = (
    add_to_group-HasDistinctHops item groups h.0,
    add_to_group-All IsUniform item groups (refl, tt)
        (λ g e u.
          All-append (λ (x : ReachableNode). x.hop_count ≡ g.hop_count) g.nodes (item ∷ []) u
            (sym e, tt))
        h.1,
  )

  pub group_paths-IsGrouped :
      (paths : List (String × PathCandidate)) (groups : List PhonebookGroup)
      → IsGrouped groups
      → IsGrouped (group_paths upper lower includes graph selected options paths groups)
  unfolding group_paths
  group_paths-IsGrouped [] groups h = h
  group_paths-IsGrouped ((id, path) ∷ paths) groups h =
      elim (phonebook_item upper lower includes graph selected options path
          (get path.node_id graph.nodes_by_id))
        as (λ o. IsGrouped (elim o [
          | none ↦ group_paths upper lower includes graph selected options paths groups
          | some item ↦
              group_paths upper lower includes graph selected options paths
                (add_to_group item groups)
        ])) [
          | none ↦ group_paths-IsGrouped paths groups h
          | some item ↦
              group_paths-IsGrouped paths (add_to_group item groups)
                (add_to_group-IsGrouped item groups h)
        ]

  group_paths-perm :
      (paths : List (String × PathCandidate)) (groups : List PhonebookGroup)
      → Perm
          (all_items (group_paths upper lower includes graph selected options paths groups))
          (shown_items paths ++ all_items groups)
  unfolding group_paths
  group_paths-perm [] groups = Perm.refl (all_items groups)
  group_paths-perm ((id, path) ∷ paths) groups =
      elim (phonebook_item upper lower includes graph selected options path
          (get path.node_id graph.nodes_by_id))
        as (λ o.
          Perm
            (all_items (elim o [
              | none ↦ group_paths upper lower includes graph selected options paths groups
              | some item ↦
                  group_paths upper lower includes graph selected options paths
                    (add_to_group item groups)
            ]))
            (elim o [ none ↦ shown_items paths | some item ↦ item ∷ shown_items paths ]
              ++ all_items groups)) [
                | none ↦ group_paths-perm paths groups
                | some item ↦ Perm.trans (group_paths-perm paths (add_to_group item groups)) (
                    Perm.trans
                      (Perm.append_left (shown_items paths) (add_to_group-perm item groups))
                      (middle-perm (shown_items paths) (all_items groups)))
              ]

  -- For a node of the graph the phonebook is made, from a map of best paths. Its groups come in the order of
  -- ever more hops, every item has the hops of its group, and the items of all groups are, in another order,
  -- exactly those made of the paths of the map that lead to another node of the graph and that the filter
  -- lets through. The map has a simple walk of the fewest edges for each node that a walk leads to, and
  -- nothing for the others.
  pub phonebook_groups_for_node_lem :
      (locale_compare : String → String → Ordering)
      → is_known graph selected ≡ true
      → (groups : List PhonebookGroup) × (best : JsMap PathCandidate) × (phonebook_groups_for_node
            upper lower includes locale_compare graph
            (some selected)
            options
          ≡ some groups)
        × IsRising groups
        × All IsUniform groups
        × Perm (all_items groups) (shown_items best)
        × ((v : String) → IsShortest graph selected v (get v best))
  unfolding phonebook_groups_for_node
  phonebook_groups_for_node_lem locale_compare k =
      let (best, e, least) = reachable_paths_lem locale_compare graph selected in
      let mode : PhonebookSortMode = options.sort_mode ⁇ PhonebookSortMode.best in
      let grouped = group_paths-IsGrouped best [] (tt, tt) in
      (
        sort_groups locale_compare mode
            (group_paths upper lower includes graph selected options best []),
        best,
        rw (k, e) refl,
        sort_groups-IsRising locale_compare mode
            (group_paths upper lower includes graph selected options best []) grouped.0,
        sort_groups-IsUniform locale_compare mode
            (group_paths upper lower includes graph selected options best []) grouped.1,
        subst
            (λ items.
              Perm
                (all_items (
                  sort_groups locale_compare mode
                    (group_paths upper lower includes graph selected options best [])))
                items)
            (append-nil (shown_items best))
            (Perm.trans
              (sort_groups-perm locale_compare mode
                (group_paths upper lower includes graph selected options best []))
              (group_paths-perm best [])),
        least,
      )
