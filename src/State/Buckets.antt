-- ===== src/State/Buckets.antt =====
-- The fields of a route that the client derives: `frequencyBucket`, `normalizeRouteBuckets`,
-- `indexRoutes` and `maxRoutePacketCount` of web/src/state.ts.
use mc_carto_live.Prelude.{
  ℕ, suc, ◌≤◌, max, min, List, [], ◌∷◌, map, arith, leb, if◌then◌else◌, String,
}
use mc_carto_live.Prelude.JsMap.{JsMap}
use mc_carto_live.Prelude.JsMap
use mc_carto_live.Prelude.JsSet
use mc_carto_live.Types.{PublicRoute}

-- `Math.max(1, ...routes.map((route) => route.packetCount))`
unfoldable pub max_route_packet_count : List PublicRoute → ℕ
max_route_packet_count [] = 1
max_route_packet_count (r ∷ rs) = max r.packet_count (max_route_packet_count rs)

-- A later route with the same id takes the entry.
unfoldable pub index_from : ℕ → List PublicRoute → JsMap ℕ → JsMap ℕ
index_from i [] index = index
index_from i (r ∷ rs) index = index_from (suc i) rs (JsMap.set r.id i index)

unfoldable pub index_routes : List PublicRoute → JsMap ℕ
unfolding index_from
index_routes routes = index_from 0 routes []

abbrev pub ids : List PublicRoute → List String
ids = map (λ r. r.id)

module _ (log_ratio : ℕ → ℕ → ℕ) where
  unfoldable pub frequency_bucket : ℕ → ℕ → ℕ
  frequency_bucket count max_count =
      if leb max_count 1 then 0 else max 0 (min 4 (log_ratio count max_count))

  abbrev pub normalize_route : ℕ → PublicRoute → PublicRoute
  normalize_route m r = record r {
    frequency_bucket = frequency_bucket r.packet_count m;
    payload_type_names = JsSet.sorted (JsSet.of_list r.payload_type_names);
  }

  unfoldable pub normalize_route_buckets : List PublicRoute → List PublicRoute
  unfolding frequency_bucket max_route_packet_count
  normalize_route_buckets routes = map (normalize_route (max_route_packet_count routes)) routes

  pub frequency_bucket-le : (count max_count : ℕ) → frequency_bucket count max_count ≤ 4
  unfolding frequency_bucket
  frequency_bucket-le count max_count = ground arith
