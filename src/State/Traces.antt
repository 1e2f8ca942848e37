-- ===== src/State/Traces.antt =====
-- The windows of recent traffic in web/src/state.ts: route traces, observer bursts, rates.
-- `heardAt >= now - WINDOW` is written `now ≤ heardAt + WINDOW`, the same test on natural numbers.
pub mod Windows
pub mod Summaries
use Prim.Native.String.{◌++◌ as str_append}
use mc_carto_live.Prelude.{
  ℕ, zero, suc, ◌+◌, ◌-◌, ◌*◌, ◌/◌, ◌≤◌, max, min, Bool, true, false, ◌&&◌, ◌||◌, Option, none,
  some, List, [], ◌∷◌, ◌++◌, map, String, leb, ltb, ◌⁇◌, if◌then◌else◌, length, filter, take_last,
  ite, string_discrete,
}
use mc_carto_live.Prelude.JsMap.{JsMap}
use mc_carto_live.Prelude.JsMap
use mc_carto_live.Types.{
  PublicRouteSegment, PublicRoutePulse, PublicActivity, PublicObserverBurst, PublicObserverLocation,
  PublicAnimationState, route, observer, unmapped,
}
use mc_carto_live.State.Model.{RouteTraceHit}

abbrev pub route_trace_window_ms : ℕ
route_trace_window_ms = 900_000

abbrev pub route_trace_bin_count : ℕ
route_trace_bin_count = 12

abbrev pub packet_rate_window_ms : ℕ
packet_rate_window_ms = 60_000

abbrev pub observer_burst_window_ms : ℕ
observer_burst_window_ms = 900_000

-- The entry is no older than the window.
abbrev pub is_within : ℕ → ℕ → ℕ → Bool
is_within window now heard_at = leb now (heard_at + window)

unfoldable pub prune_route_traces : List RouteTraceHit → ℕ → List RouteTraceHit
prune_route_traces traces now = filter (λ t. is_within route_trace_window_ms now t.heard_at) traces

abbrev pub trace_hit : PublicRoutePulse → PublicRouteSegment → RouteTraceHit
trace_hit pulse segment = record {
  route_id = segment.route_id;
  heard_at = pulse.heard_at;
  payload_type_name = pulse.payload_type_name;
  from = segment.from;
  to = segment.to;
  distance_km = segment.distance_km;
}

unfoldable pub add_route_trace_hits : List RouteTraceHit → PublicRoutePulse → ℕ → List RouteTraceHit
unfolding prune_route_traces
add_route_trace_hits traces pulse now =
    take_last 2000 (prune_route_traces (traces ++ map (trace_hit pulse) pulse.segments) now)

unfoldable pub prune_observer_bursts : List PublicObserverBurst → ℕ → List PublicObserverBurst
prune_observer_bursts bursts now =
    filter (λ b. is_within observer_burst_window_ms now b.heard_at) bursts

abbrev pub burst_of : PublicActivity → PublicObserverLocation → PublicObserverBurst
burst_of activity location = record {
  id = str_append "observer-" activity.id;
  payload_type_name = activity.payload_type_name;
  heard_at = activity.heard_at;
  received_at = activity.received_at;
  display_at = activity.display_at;
  seq = activity.seq;
  location = location;
  message_sender = activity.message_sender;
  message_text = activity.message_text;
  message_anchor = activity.message_anchor;
}

-- The burst that an activity makes, if it is one of an observer with a location.
abbrev pub observer_burst :
    PublicAnimationState → Option PublicObserverLocation → PublicActivity → List PublicObserverBurst
observer_burst observer (some location) activity = burst_of activity location ∷ []
observer_burst observer none activity = []
observer_burst route location activity = []
observer_burst unmapped location activity = []

-- On a list that `pruneObserverBursts` leaves, with no burst to add, the source does not slice.
abbrev pub keep_bursts :
    List PublicObserverBurst → List PublicObserverBurst → ℕ → List PublicObserverBurst
keep_bursts bursts [] now = prune_observer_bursts bursts now
keep_bursts bursts (b ∷ bs) now = take_last 2000 (prune_observer_bursts (bursts ++ b ∷ bs) now)

unfoldable pub add_observer_burst :
    List PublicObserverBurst → PublicActivity → ℕ → List PublicObserverBurst
unfolding prune_observer_bursts
add_observer_burst bursts activity now =
    keep_bursts bursts (observer_burst activity.animation_state activity.observer_location activity)
      now

unfoldable pub is_packet_activity : PublicActivity → Bool
is_packet_activity item =
    ite (string_discrete item.kind "packet") true
      (ite (string_discrete item.kind "route") true false)

abbrev pub recent_packets : List PublicActivity → ℕ → List PublicActivity
recent_packets activity now =
    filter (λ a. is_packet_activity a && is_within packet_rate_window_ms now a.heard_at) activity

unfoldable pub current_packet_rate_per_minute : List PublicActivity → ℕ → ℕ
unfolding is_packet_activity
current_packet_rate_per_minute activity now = length (recent_packets activity now)

pub record LiveCoverageStats : Type 0 where
  pub received_per_minute : ℕ
  pub route_animated_per_minute : ℕ
  pub observer_burst_per_minute : ℕ
  pub unmapped_per_minute : ℕ
  pub last_packet_age_ms : Option ℕ

abbrev pub is_route : PublicAnimationState → Bool
is_route route = true
is_route observer = false
is_route unmapped = false

abbrev pub is_observer : PublicAnimationState → Bool
is_observer observer = true
is_observer route = false
is_observer unmapped = false

abbrev pub is_unmapped : PublicAnimationState → Bool
is_unmapped unmapped = true
is_unmapped route = false
is_unmapped observer = false

abbrev pub count_state : (PublicAnimationState → Bool) → List PublicActivity → ℕ
count_state test items = length (filter (λ a. test a.animation_state) items)

unfoldable pub latest_packet_at : List PublicActivity → ℕ → ℕ
latest_packet_at [] latest = latest
latest_packet_at (a ∷ rest) latest =
    latest_packet_at rest (if is_packet_activity a then max latest a.heard_at else latest)

unfoldable pub live_coverage_stats : List PublicActivity → ℕ → LiveCoverageStats
unfolding is_packet_activity latest_packet_at
live_coverage_stats activity now =
    let recent = recent_packets activity now in
    let last_packet_at = latest_packet_at activity 0 in
    record {
      received_per_minute = length recent;
      route_animated_per_minute = count_state is_route recent;
      observer_burst_per_minute = count_state is_observer recent;
      unmapped_per_minute = count_state is_unmapped recent;
      last_packet_age_ms = if ltb 0 last_packet_at then some (now - last_packet_at) else none;
    }
