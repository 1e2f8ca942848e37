-- ===== src/Connectivity/Compare.antt =====
-- The comparators of web/src/connectivity.ts that need no graph: `a - b || c - d || ...` is a chain of
-- orderings, in which the first that is not equal counts.
use Prim.Native.Nat.{compare, Ordering}
use mc_carto_live.Prelude.{String, Bool, true, false}
use mc_carto_live.Types.{PublicNode, PublicRoute}

-- `first || second`
infixr 15 ◌else_by◌
abbrev pub ◌else_by◌ : Ordering → Ordering → Ordering
Ordering.eq else_by second = second
first else_by second = first

-- The number is negative.
abbrev pub is_before : Ordering → Bool
is_before Ordering.lt = true
is_before o = false

-- The number is not positive.
abbrev pub not_after : Ordering → Bool
not_after Ordering.gt = false
not_after o = true

module _ (locale_compare : String → String → Ordering) where
  unfoldable pub compare_routes_by_activity : PublicRoute → PublicRoute → Ordering
  compare_routes_by_activity left right =
      compare right.packet_count left.packet_count
      else_by compare right.last_heard left.last_heard
      else_by locale_compare left.id right.id

  unfoldable pub compare_nodes_by_activity : PublicNode → PublicNode → Ordering
  compare_nodes_by_activity left right =
      compare right.activity_count left.activity_count
      else_by compare right.last_seen left.last_seen
      else_by locale_compare left.label right.label
