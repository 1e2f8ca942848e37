-- ===== src/State/Snapshot.antt =====
-- How a snapshot of the server enters the state (web/src/state.ts): `initialAppState`,
-- `hydrateSnapshotTopology` and `mergeCurrentEntities`.
pub mod Merge
pub mod Indexed
use mathlib.Core.Option
use mc_carto_live.Prelude.{
  ℕ, ◌+◌, max, ◌==◌, not, Bool, Option, none, some, List, [], ◌∷◌, ◌++◌, String, ◌⁇◌, ◌<|>◌,
  if◌then◌else◌, length,
}
use mc_carto_live.Prelude.JsSet
use mc_carto_live.Types.{PublicNode, PublicRoute, PublicRoutePulse, PublicStats, PublicLiveState}
use mc_carto_live.State.Model.{AppState, RouteTraceHit}
use mc_carto_live.State.Buckets.{index_routes, max_route_packet_count, normalize_route_buckets}
use mc_carto_live.State.Traces.{add_route_trace_hits}
use mc_carto_live.State.Reduce.{one_if}

-- The loop of `mergeCurrentEntities`. `id` reads the id of an item.
unfoldable pub merge_loop {ℓ} : {A : Type ℓ} → (A → String) → List String → List A → List A
merge_loop id seen [] = []
merge_loop id seen (item ∷ items) =
    let rest = merge_loop id seen items in
    let fresh = merge_loop id (JsSet.add (id item) seen) items in
    if JsSet.has (id item) seen then rest else item ∷ fresh

abbrev pub merge_current_entities {ℓ} : {A : Type ℓ} → (A → String) → List A → List A → List A
merge_current_entities id current snapshot = merge_loop id [] (current ++ snapshot)

-- `state.stats?.latestSeq ?? 0`
abbrev pub stats_latest_seq : Option PublicStats → ℕ
stats_latest_seq stats = (elim stats [ none ↦ none | some s ↦ s.latest_seq ]) ⁇ 0

unfoldable pub pulse_traces : List PublicRoutePulse → ℕ → List RouteTraceHit → List RouteTraceHit
pulse_traces [] server_time traces = traces
pulse_traces (pulse ∷ pulses) server_time traces =
    pulse_traces pulses server_time (add_route_trace_hits traces pulse server_time)

module _ (log_ratio : ℕ → ℕ → ℕ) where
  unfoldable pub initial_app_state : PublicLiveState → AppState
  unfolding pulse_traces
  initial_app_state state =
      let routes = normalize_route_buckets log_ratio state.routes in
      record {
        nodes = state.nodes;
        routes = routes;
        activity = state.recent_activity;
        pulses = [];
        observer_bursts = [];
        route_traces = pulse_traces state.recent_pulses state.server_time [];
        stats = state.stats;
        server_time = state.server_time;
        latest_seq = stats_latest_seq state.stats;
        seen_seqs = [];
        route_index = index_routes routes;
        route_max_packet_count = max_route_packet_count routes;
        route_topology_revision = 1;
        route_traffic_revision = 1;
        route_visual_revision = 1;
      }

  unfoldable pub hydrate_snapshot_topology : AppState → PublicLiveState → AppState
  unfolding merge_loop
  hydrate_snapshot_topology current snapshot =
      let routes =
        merge_current_entities (λ (r : PublicRoute). r.id) current.routes
          (normalize_route_buckets log_ratio snapshot.routes) in
      let topology_changed = not (length routes == length current.routes) in
      record current {
        nodes = merge_current_entities (λ (n : PublicNode). n.id) current.nodes snapshot.nodes;
        routes = routes;
        route_index = if topology_changed then index_routes routes else current.route_index;
        route_max_packet_count = max current.route_max_packet_count (max_route_packet_count routes);
        route_topology_revision = current.route_topology_revision + one_if topology_changed;
        route_visual_revision = current.route_visual_revision + one_if topology_changed;
        stats = current.stats <|> snapshot.stats;
        server_time = max current.server_time snapshot.server_time;
        latest_seq = max current.latest_seq (stats_latest_seq snapshot.stats);
      }
