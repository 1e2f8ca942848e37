-- ===== src/Connectivity/Phonebook/Order.antt =====
-- The order of the items in the phonebook of web/src/connectivity.ts (`compareReachableNodes`).
use Prim.Native.Nat.{compare, Ordering}
use mc_carto_live.Prelude.{
  sym, ◌<◌, ◌≤◌, ◌⊎◌, inl, inr, ℕ, String, Bool, true, ◌≡◌, refl, ap, ◌∙◌, some, List, [], ◌∷◌, map,
  All, ◌⁇◌, arith,
}
use mc_carto_live.Prelude.Sort.{sort, sort-IsSorted, sort-All, IsSorted}
use mc_carto_live.Connectivity.{ConnectivityGraph}
use mc_carto_live.Connectivity.Compare.{◌else_by◌, not_after}
use mc_carto_live.Connectivity.Paths.{ReachableNode, is_known}
use mc_carto_live.Connectivity.Paths.Ends.{reachable_paths_ends}
use mc_carto_live.Connectivity.Phonebook.Groups.{IsUniform}
use mc_carto_live.Connectivity.Phonebook.Made.{group_paths-IsGrouped}
use mc_carto_live.Connectivity.Phonebook.Signs.{flip, flip-not_after, compare_reachable_nodes-flip}
use mc_carto_live.Connectivity.Phonebook.{
  PhonebookSortMode, PhonebookFilterOptions, PhonebookGroup, compare_best, compare_reachable_nodes,
  item_not_after, hops_not_after, group_paths, sort_groups, phonebook_groups_for_node,
}

-- Of two numbers with a tie-break the first is smaller, or they are equal and the tie-break counts.
abbrev pub LowerOr : ℕ → ℕ → Type 0 → Type 0
LowerOr a b P = (a < b) ⊎ ((a ≡ b) × P)

-- Which of two items with as many hops comes first: by the strongest route and then by all packets, by the
-- distance, by all packets, by the distance, or by the time, and then by the strongest route.
abbrev pub Precedes : PhonebookSortMode → ReachableNode → ReachableNode → Type 0
Precedes PhonebookSortMode.best x y =
    LowerOr y.strongest_route_packet_count x.strongest_route_packet_count
      (y.total_route_packets ≤ x.total_route_packets)
Precedes PhonebookSortMode.shortest x y =
    LowerOr x.total_distance_km y.total_distance_km
      (y.strongest_route_packet_count ≤ x.strongest_route_packet_count)
Precedes PhonebookSortMode.busiest x y =
    LowerOr y.total_route_packets x.total_route_packets
      (y.strongest_route_packet_count ≤ x.strongest_route_packet_count)
Precedes PhonebookSortMode.nearest x y =
    LowerOr x.total_distance_km y.total_distance_km
      (y.strongest_route_packet_count ≤ x.strongest_route_packet_count)
Precedes PhonebookSortMode.recent x y =
    LowerOr y.last_heard x.last_heard
      (y.strongest_route_packet_count ≤ x.strongest_route_packet_count)

-- Each item comes before the next one.
abbrev pub IsOrdered : PhonebookSortMode → List ReachableNode → Type 0
IsOrdered mode [] = Unit
IsOrdered mode (x ∷ []) = Unit
IsOrdered mode (x ∷ y ∷ items) = Precedes mode x y × IsOrdered mode (y ∷ items)

first_key :
    (a b : ℕ) (rest : Ordering)
    → not_after (compare a b else_by rest) ≡ true
    → LowerOr a b (not_after rest ≡ true)
first_key a b rest h = by_cases (compare a b) refl h
  where
    by_cases :
        (o : Ordering)
        → compare a b ≡ o
        → not_after (o else_by rest) ≡ true
        → LowerOr a b (not_after rest ≡ true)
    by_cases Ordering.lt e k = inl (ground (arith, e))
    by_cases Ordering.eq e k = inr (ground (arith, e), k)
    by_cases Ordering.gt e k = cc

-- Equal numbers leave it to the tie-break.
skip_key :
    (a b : ℕ) (rest : Ordering)
    → a ≡ b
    → not_after (compare a b else_by rest) ≡ true
    → not_after rest ≡ true
skip_key a b rest e h = elim (first_key a b rest h) [
  | inl lower ↦ absurd (omega (arith, e, lower))
  | inr (same, k) ↦ k
]

last_key : (a b : ℕ) (rest : Ordering) → not_after (compare a b else_by rest) ≡ true → a ≤ b
last_key a b rest h = elim (first_key a b rest h) [
  | inl lower ↦ omega (arith, lower)
  | inr (same, k) ↦ omega (arith, same)
]

then_by : {P Q : Type 0} → (a b : ℕ) → (P → Q) → LowerOr a b P → LowerOr a b Q
then_by a b f (inl lower) = inl lower
then_by a b f (inr (same, p)) = inr (same, f p)

module _ (locale_compare : String → String → Ordering) (x y : ReachableNode)
    (level : x.hop_count ≡ y.hop_count) where
  -- The best route of two with as many hops is no weaker.
  best_key :
      not_after (compare_best locale_compare x y) ≡ true
      → LowerOr y.strongest_route_packet_count x.strongest_route_packet_count
          (y.total_route_packets ≤ x.total_route_packets)
  best_key h =
      then_by _ _ (last_key _ _ _) (first_key _ _ _ (skip_key x.hop_count y.hop_count _ level h))

  no_weaker :
      not_after (compare_best locale_compare x y) ≡ true
      → y.strongest_route_packet_count ≤ x.strongest_route_packet_count
  no_weaker h = last_key _ _ _ (skip_key x.hop_count y.hop_count _ level h)

  item_not_after-Precedes :
      (mode : PhonebookSortMode) → item_not_after locale_compare mode x y ≡ true → Precedes mode x y
  unfolding compare_reachable_nodes
  item_not_after-Precedes PhonebookSortMode.best h = best_key h
  item_not_after-Precedes PhonebookSortMode.shortest h =
      then_by _ _ no_weaker (first_key _ _ _ (skip_key x.hop_count y.hop_count _ level h))
  item_not_after-Precedes PhonebookSortMode.busiest h =
      then_by _ _ (last_key _ _ _) (first_key _ _ _ h)
  item_not_after-Precedes PhonebookSortMode.nearest h =
      then_by _ _ (λ k. no_weaker (skip_key x.hop_count y.hop_count _ level k)) (first_key _ _ _ h)
  item_not_after-Precedes PhonebookSortMode.recent h =
      then_by _ _ (λ k. no_weaker (skip_key x.hop_count y.hop_count _ level k)) (first_key _ _ _ h)

module _ (locale_compare : String → String → Ordering)
    (opposite : (s t : String) → locale_compare t s ≡ flip (locale_compare s t)) where
  all_of : (xs : List ReachableNode) → All (λ x. Unit {0}) xs
  all_of [] = tt
  all_of (x ∷ xs) = (tt, all_of xs)

  sort-IsOrdered :
      (mode : PhonebookSortMode) (items : List ReachableNode)
      → IsSorted
          (item_not_after locale_compare mode)
          (sort (item_not_after locale_compare mode) items)
  sort-IsOrdered mode items =
      sort-IsSorted (item_not_after locale_compare mode) (λ x. Unit {0})
        (λ a b u v h.
          ap not_after (compare_reachable_nodes-flip locale_compare opposite mode a b)
          ∙ flip-not_after (compare_reachable_nodes locale_compare mode a b) h)
        items (all_of items)

  IsSorted-IsOrdered :
      (mode : PhonebookSortMode) (hops : ℕ) (items : List ReachableNode)
      → All (λ (item : ReachableNode). item.hop_count ≡ hops) items
      → IsSorted (item_not_after locale_compare mode) items
      → IsOrdered mode items
  IsSorted-IsOrdered mode hops [] u s = tt
  IsSorted-IsOrdered mode hops (x ∷ []) u s = tt
  IsSorted-IsOrdered mode hops (x ∷ y ∷ items) u s = (
    item_not_after-Precedes locale_compare x y (u.0 ∙ sym u.1.0) mode s.0,
    IsSorted-IsOrdered mode hops (y ∷ items) u.1 s.1,
  )

  map-IsOrdered :
      (mode : PhonebookSortMode) (groups : List PhonebookGroup)
      → All IsUniform groups
      → All
          (λ (group : PhonebookGroup). IsOrdered mode group.nodes)
          (map
            (λ (group : PhonebookGroup). record group {
              nodes = sort (item_not_after locale_compare mode) group.nodes;
            })
            groups)
  map-IsOrdered mode [] u = tt
  map-IsOrdered mode (group ∷ groups) u = (
    IsSorted-IsOrdered mode group.hop_count (sort (item_not_after locale_compare mode) group.nodes)
        (sort-All (item_not_after locale_compare mode)
          (λ (item : ReachableNode). item.hop_count ≡ group.hop_count) group.nodes u.0)
        (sort-IsOrdered mode group.nodes),
    map-IsOrdered mode groups u.1,
  )

  -- Where `localeCompare` changes its sign with the sides, the phonebook of a node of the graph is made, and
  -- in each of its groups, whose items have as many hops, each item comes before the next one as the
  -- options ask: the nearer first for `shortest` and `nearest`, the one with more packets for `busiest`,
  -- the one heard later for `recent`, and on a tie the one with the stronger strongest route; the one with
  -- the stronger strongest route for `best`, also if nothing is asked, and on a tie the one with more packets.
  pub phonebook_groups_for_node-IsOrdered :
      (upper : String → String) (lower : String → String) (includes : String → String → Bool)
      (graph : ConnectivityGraph) (selected : String) (options : PhonebookFilterOptions)
      → is_known graph selected ≡ true
      → (groups : List PhonebookGroup) × (phonebook_groups_for_node upper lower includes
            locale_compare graph
            (some selected)
            options
          ≡ some groups)
        × All
            (λ (group : PhonebookGroup).
              IsOrdered (options.sort_mode ⁇ PhonebookSortMode.best) group.nodes)
            groups
  unfolding phonebook_groups_for_node
  phonebook_groups_for_node-IsOrdered upper lower includes graph selected options k =
      let (best, e) = reachable_paths_ends locale_compare graph selected in
      let mode : PhonebookSortMode = options.sort_mode ⁇ PhonebookSortMode.best in
      let grouped = group_paths upper lower includes graph selected options best [] in
      (
        sort_groups locale_compare mode grouped,
        rw (k, e) refl,
        map-IsOrdered mode (sort hops_not_after grouped) (
            sort-All hops_not_after IsUniform grouped
              (group_paths-IsGrouped upper lower includes graph selected options best []
                (tt, tt)).1),
      )
