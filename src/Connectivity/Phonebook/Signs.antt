-- ===== src/Connectivity/Phonebook/Signs.antt =====
-- What the comparisons of web/src/connectivity.ts give with the sides changed (`compareReachableNodes`).
use Prim.Native.Nat.{compare, Ordering}
use mc_carto_live.Prelude.{ℕ, String, true, false, ◌≡◌, refl, arith}
use mc_carto_live.Connectivity.Compare.{◌else_by◌, not_after}
use mc_carto_live.Connectivity.Paths.{ReachableNode}
use mc_carto_live.Connectivity.Phonebook.{PhonebookSortMode, compare_best, compare_reachable_nodes}

-- The sign of a number, changed.
abbrev pub flip : Ordering → Ordering
flip Ordering.lt = Ordering.gt
flip Ordering.eq = Ordering.eq
flip Ordering.gt = Ordering.lt

pub compare-flip : (a b : ℕ) → compare b a ≡ flip (compare a b)
compare-flip a b = ground arith

else_by-flip :
    (x x' y y' : Ordering) → x' ≡ flip x → y' ≡ flip y → (x' else_by y') ≡ flip (x else_by y)
else_by-flip Ordering.lt x' y y' p q = rw p refl
else_by-flip Ordering.eq x' y y' p q = rw p q
else_by-flip Ordering.gt x' y y' p q = rw p refl

by_number :
    (a b : ℕ) (y y' : Ordering)
    → y' ≡ flip y
    → (compare b a else_by y') ≡ flip (compare a b else_by y)
by_number a b y y' q = else_by-flip (compare a b) (compare b a) y y' (compare-flip a b) q

pub flip-not_after : (o : Ordering) → not_after o ≡ false → not_after (flip o) ≡ true
flip-not_after Ordering.lt h = cc
flip-not_after Ordering.eq h = cc
flip-not_after Ordering.gt h = refl

module _ (locale_compare : String → String → Ordering)
    (opposite : (s t : String) → locale_compare t s ≡ flip (locale_compare s t)) where
  compare_best-flip :
      (a b : ReachableNode)
      → compare_best locale_compare b a ≡ flip (compare_best locale_compare a b)
  compare_best-flip a b = by_number a.hop_count b.hop_count _ _ (
      by_number b.strongest_route_packet_count a.strongest_route_packet_count _ _ (
        by_number b.total_route_packets a.total_route_packets _ _ (
          by_number b.last_heard a.last_heard _ _ (
            by_number a.total_distance_km b.total_distance_km _ _ (
              by_number b.node.activity_count a.node.activity_count _ _
                (opposite a.node.label b.node.label))))))

  pub compare_reachable_nodes-flip :
      (mode : PhonebookSortMode) (a b : ReachableNode)
      → compare_reachable_nodes locale_compare mode b a
        ≡ flip (compare_reachable_nodes locale_compare mode a b)
  unfolding compare_reachable_nodes
  compare_reachable_nodes-flip PhonebookSortMode.best a b = compare_best-flip a b
  compare_reachable_nodes-flip PhonebookSortMode.shortest a b =
      by_number a.hop_count b.hop_count _ _
        (by_number a.total_distance_km b.total_distance_km _ _ (compare_best-flip a b))
  compare_reachable_nodes-flip PhonebookSortMode.busiest a b =
      by_number b.total_route_packets a.total_route_packets _ _ (
        by_number b.strongest_route_packet_count a.strongest_route_packet_count _ _
          (compare_best-flip a b))
  compare_reachable_nodes-flip PhonebookSortMode.nearest a b =
      by_number a.total_distance_km b.total_distance_km _ _
        (by_number a.hop_count b.hop_count _ _ (compare_best-flip a b))
  compare_reachable_nodes-flip PhonebookSortMode.recent a b =
      by_number b.last_heard a.last_heard _ _
        (by_number a.hop_count b.hop_count _ _ (compare_best-flip a b))
