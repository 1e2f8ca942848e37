-- ===== src/State/Routes.antt =====
-- `upsertPulseRoutesBatch` of web/src/state.ts: the segments of a batch of pulses are gathered by
-- route, then counted into the known routes, and the other routes are added at the end.
-- `log_ratio` is as in State/Buckets.antt.
pub mod Position
pub mod Gather
pub mod Known
pub mod Fresh
pub mod Totals
pub mod Conserve
pub mod Index
use mc_carto_live.Prelude.{
  ℕ, zero, suc, ◌+◌, ◌-◌, ◌*◌, ◌≤◌, ◌<◌, max, ite, Bool, true, false, ◌&&◌, ◌||◌, not, Option, none,
  some, List, [], ◌∷◌, ◌++◌, String, ltb, leb, ◌==◌, if◌then◌else◌, length, get_elem?, set,
}
use mc_carto_live.Prelude.JsMap.{JsMap}
use mc_carto_live.Prelude.JsMap
use mc_carto_live.Prelude.JsSet
use mc_carto_live.Types.{PublicRoute, PublicRouteSegment, PublicRoutePulse}
use mc_carto_live.State.Buckets.{frequency_bucket, normalize_route_buckets}

abbrev pub route_visual_fresh_ms : ℕ
route_visual_fresh_ms = 900_000

-- The value that `touched` holds for a route.
pub record Touched : Type 0 where
  pub segment : PublicRouteSegment
  pub hits : ℕ
  pub last_heard : ℕ
  pub payload_type_names : List String

abbrev pub touch_again : PublicRoutePulse → Touched → Touched
touch_again pulse existing = record existing {
  hits = existing.hits + 1;
  last_heard = max existing.last_heard pulse.heard_at;
  payload_type_names = JsSet.add pulse.payload_type_name existing.payload_type_names;
}

abbrev pub touch_first : PublicRoutePulse → PublicRouteSegment → Touched
touch_first pulse segment = record {
  segment = segment;
  hits = 1;
  last_heard = pulse.heard_at;
  payload_type_names = JsSet.of_list (pulse.payload_type_name ∷ []);
}

-- The value after one more segment of the route.
abbrev pub touch : PublicRoutePulse → PublicRouteSegment → Option Touched → Touched
touch pulse segment none = touch_first pulse segment
touch pulse segment (some existing) = touch_again pulse existing

unfoldable pub touch_segments :
    PublicRoutePulse → List PublicRouteSegment → JsMap Touched → JsMap Touched
touch_segments pulse [] touched = touched
touch_segments pulse (s ∷ ss) touched =
    touch_segments pulse ss
      (JsMap.set s.route_id (touch pulse s (JsMap.get s.route_id touched)) touched)

unfoldable pub touch_pulses : List PublicRoutePulse → JsMap Touched → JsMap Touched
unfolding touch_segments
touch_pulses [] touched = touched
touch_pulses (p ∷ ps) touched = touch_pulses ps (touch_segments p p.segments touched)

pub record RouteBatchUpdate : Type 0 where
  pub routes : List PublicRoute
  pub route_index : JsMap ℕ
  pub max_packet_count : ℕ
  pub topology_changed : Bool
  pub visual_changed : Bool

-- The variables of the two loops: `left` is what stays of `touched`.
pub record Batch : Type 0 where
  pub next : List PublicRoute
  pub next_index : JsMap ℕ
  pub max_after : ℕ
  pub changed : Bool
  pub visual : Bool
  pub left : JsMap Touched

-- `maxAfter > maxBefore * ROUTE_BUCKET_REBALANCE_FACTOR`, with the factor 5/4.
abbrev pub needs_rebalance : ℕ → ℕ → Bool
needs_rebalance max_before max_after = ltb (5 * max_before) (4 * max_after)

module _ (log_ratio : ℕ → ℕ → ℕ) where
  abbrev pub updated_route : ℕ → PublicRoute → Touched → PublicRoute
  updated_route max_before route update = record route {
    packet_count = route.packet_count + update.hits;
    last_heard = max route.last_heard update.last_heard;
    frequency_bucket = frequency_bucket log_ratio (route.packet_count + update.hits) max_before;
    payload_type_names =
        JsSet.sorted
          (JsSet.add_all update.payload_type_names (JsSet.of_list route.payload_type_names));
  }

  -- `nextBucket !== route.frequencyBucket || route.lastHeard < update.lastHeard - FRESH`
  abbrev pub is_visual : ℕ → PublicRoute → Touched → Bool
  is_visual max_before route update =
      not (
        frequency_bucket log_ratio (route.packet_count + update.hits) max_before
        == route.frequency_bucket)
      || ltb (route.last_heard + route_visual_fresh_ms) update.last_heard

  -- One entry of `touched`, once its index and the route there are looked up.
  unfoldable pub update_known :
      ℕ → String → Touched → Option ℕ → (ℕ → Option PublicRoute) → Batch → Batch
  update_known max_before id update none route_at b = record b {
    left = b.left ++ (id, update) ∷ [];
  }
  update_known max_before id update (some i) route_at b = elim (route_at i) [
    | none ↦ record b { left = b.left ++ (id, update) ∷ [] }
    | some route ↦ record b {
      next = set b.next i (updated_route max_before route update);
      max_after = max b.max_after (route.packet_count + update.hits);
      changed = true;
      visual = b.visual || is_visual max_before route update;
    }
  ]

  unfoldable pub known_loop : ℕ → List PublicRoute → JsMap ℕ → JsMap Touched → Batch → Batch
  unfolding update_known
  known_loop max_before routes index [] b = b
  known_loop max_before routes index ((id, update) ∷ es) b =
      known_loop max_before routes index es
        (update_known max_before id update (JsMap.get id index) (get_elem? routes) b)

  abbrev pub new_route : ℕ → Touched → PublicRoute
  new_route max_before u = record {
    id = u.segment.route_id;
    from = u.segment.from;
    to = u.segment.to;
    distance_km = u.segment.distance_km;
    packet_count = u.hits;
    last_heard = u.last_heard;
    frequency_bucket = frequency_bucket log_ratio u.hits (max max_before u.hits);
    payload_type_names = JsSet.sorted u.payload_type_names;
  }

  unfoldable pub fresh_loop : ℕ → JsMap Touched → Batch → Batch
  fresh_loop max_before [] b = b
  fresh_loop max_before ((id, u) ∷ es) b = fresh_loop max_before es (record b {
    next = b.next ++ new_route max_before u ∷ [];
    next_index = JsMap.set u.segment.route_id (length b.next) b.next_index;
    max_after = max b.max_after u.hits;
  })

  -- From the loop over the known routes to the end.
  unfoldable pub finish_batch : ℕ → List PublicRoute → JsMap ℕ → Batch → RouteBatchUpdate
  unfolding fresh_loop normalize_route_buckets
  finish_batch max_before routes index b =
      let grown = ltb 0 (JsMap.size b.left) in
      let all = fresh_loop max_before b.left b in
      if not (b.changed || grown)
      then record {
        routes = routes;
        route_index = index;
        max_packet_count = all.max_after;
        topology_changed = false;
        visual_changed = false;
      }
      else (let rebalance = needs_rebalance max_before all.max_after in
          record {
            routes = if rebalance then normalize_route_buckets log_ratio all.next else all.next;
            route_index = all.next_index;
            max_packet_count = all.max_after;
            topology_changed = grown;
            visual_changed = b.visual || grown || rebalance;
          })

  unfoldable pub upsert_pulse_routes_batch :
      List PublicRoute → JsMap ℕ → ℕ → List PublicRoutePulse → RouteBatchUpdate
  unfolding touch_pulses known_loop finish_batch
  upsert_pulse_routes_batch routes index max_packet_count pulses =
      let touched = touch_pulses pulses [] in
      let max_before = max 1 max_packet_count in
      if JsMap.size touched == 0
      then record {
        routes = routes;
        route_index = index;
        max_packet_count = max_packet_count;
        topology_changed = false;
        visual_changed = false;
      }
      else finish_batch max_before routes index (
          known_loop max_before routes index touched (record {
            next = routes;
            next_index = index;
            max_after = max_before;
            changed = false;
            visual = false;
            left = [];
          }))
