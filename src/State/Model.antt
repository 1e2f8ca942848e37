-- ===== src/State/Model.antt =====
-- `AppState` of web/src/state.ts, the statistics and the sequence numbers of the feed.
use mc_carto_live.Prelude.{
  ℕ, Bool, false, ◌&&◌, ◌||◌, Option, none, some, List, [], ◌∷◌, ◌++◌, String, ltb, leb, ◌==◌, ◌⁇◌,
  ◌<|>◌, if◌then◌else◌, any, take_last,
}
use mc_carto_live.Prelude.JsMap.{JsMap}
use mc_carto_live.Types.{
  PublicNode, PublicRoute, PublicActivity, PublicRoutePulse, PublicObserverBurst, PublicStats,
  PublicRouteEndpoint,
}

pub record RouteTraceHit : Type 0 where
  pub route_id : String
  pub heard_at : ℕ
  pub payload_type_name : String
  pub from : PublicRouteEndpoint
  pub to : PublicRouteEndpoint
  pub distance_km : ℕ

pub record AppState : Type 0 where
  pub nodes : List PublicNode
  pub routes : List PublicRoute
  pub activity : List PublicActivity
  pub pulses : List PublicRoutePulse
  pub observer_bursts : List PublicObserverBurst
  pub route_traces : List RouteTraceHit
  pub stats : Option PublicStats
  pub server_time : ℕ
  pub latest_seq : ℕ
  pub seen_seqs : List ℕ
  pub route_index : JsMap ℕ
  pub route_max_packet_count : ℕ
  pub route_topology_revision : ℕ
  pub route_traffic_revision : ℕ
  pub route_visual_revision : ℕ

abbrev pub empty_state : AppState
empty_state = record {
  nodes = [];
  routes = [];
  activity = [];
  pulses = [];
  observer_bursts = [];
  route_traces = [];
  stats = none;
  server_time = 0;
  latest_seq = 0;
  seen_seqs = [];
  route_index = [];
  route_max_packet_count = 1;
  route_topology_revision = 0;
  route_traffic_revision = 0;
  route_visual_revision = 0;
}

-- The fields of a `Partial<PublicStats>` that the reducer gives; `none` is `undefined`.
pub record StatsPatch : Type 0 where
  pub packets : Option ℕ
  pub active_nodes : Option ℕ
  pub active_routes : Option ℕ
  pub server_time : Option ℕ
  pub latest_seq : Option ℕ

abbrev pub no_patch : StatsPatch
no_patch = record {
  packets = none;
  active_nodes = none;
  active_routes = none;
  server_time = none;
  latest_seq = none;
}

unfoldable pub refresh_stats : Option PublicStats → StatsPatch → Option PublicStats
refresh_stats none next = none
refresh_stats (some stats) next = some (record stats {
  packets = next.packets ⁇ stats.packets;
  active_nodes = next.active_nodes ⁇ stats.active_nodes;
  active_routes = next.active_routes ⁇ stats.active_routes;
  server_time = next.server_time ⁇ stats.server_time;
  latest_seq = next.latest_seq <|> stats.latest_seq;
})

-- `seenSeqs.includes(seq)`
abbrev pub includes : ℕ → List ℕ → Bool
includes n xs = any (λ x. x == n) xs

-- `seq` is truthy: it is there, and not 0.
unfoldable pub with_latest_seq : AppState → Option ℕ → AppState
unfolding refresh_stats
with_latest_seq state none = state
with_latest_seq state (some seq) =
    if seq == 0 || leb seq state.latest_seq then state else record state {
      latest_seq = seq;
      stats = refresh_stats state.stats (record no_patch { latest_seq = some seq }) <|> state.stats;
    }

unfoldable pub remember_seq : AppState → Option ℕ → AppState
remember_seq state none = state
remember_seq state (some seq) =
    if seq == 0 || includes seq state.seen_seqs
    then state
    else record state { seen_seqs = take_last 1000 (state.seen_seqs ++ seq ∷ []) }

-- `message.seq && seenSeqs.includes(message.seq)`
unfoldable pub is_seen : Option ℕ → List ℕ → Bool
is_seen none seen = false
is_seen (some seq) seen = ltb 0 seq && includes seq seen
