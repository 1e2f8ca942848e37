-- ===== src/State/Traces/Windows.antt =====
-- The windows hold what is fresh, within their caps (web/src/state.ts).
use mc_carto_live.Prelude.{
  ℕ, ◌+◌, ◌≤◌, ◌≡◌, refl, List, [], ◌∷◌, ◌++◌, map, arith, length, filter, All, All-drop,
  length-take_last-le, length-filter-le,
}
use mc_carto_live.Types.{PublicRoutePulse, PublicActivity, PublicObserverBurst}
use mc_carto_live.State.Model.{RouteTraceHit}
use mc_carto_live.State.Traces.{
  route_trace_window_ms, observer_burst_window_ms, is_within, prune_route_traces,
  add_route_trace_hits, prune_observer_bursts, keep_bursts, observer_burst, add_observer_burst,
  trace_hit, count_state, is_route, is_observer, is_unmapped, recent_packets, live_coverage_stats,
  current_packet_rate_per_minute,
}

kept-within {ℓ} :
    {A : Type ℓ} (heard_at : A → ℕ) (window now : ℕ) (xs : List A)
    → All (λ x. now ≤ heard_at x + window) (filter (λ x. is_within window now (heard_at x)) xs)
kept-within heard_at window now [] = tt
kept-within heard_at window now (x ∷ xs) = ground (arith, kept-within heard_at window now xs)

-- After a pulse the traces number 2000 at most, and none of them is older than the window.
pub add_route_trace_hits-bounds :
    (traces : List RouteTraceHit) (pulse : PublicRoutePulse) (now : ℕ)
    → (length (add_route_trace_hits traces pulse now) ≤ 2000)
      × All (λ t. now ≤ t.heard_at + route_trace_window_ms) (add_route_trace_hits traces pulse now)
unfolding add_route_trace_hits
add_route_trace_hits-bounds traces pulse now =
    let fresh = prune_route_traces (traces ++ map (trace_hit pulse) pulse.segments) now in
    (
      length-take_last-le 2000 fresh,
      All-drop (λ t. now ≤ t.heard_at + route_trace_window_ms) _ fresh
          (kept-within (λ t. t.heard_at) route_trace_window_ms now _),
    )

keep_bursts-bounds :
    (bursts new : List PublicObserverBurst) (now : ℕ)
    → length bursts ≤ 2000
    → (length (keep_bursts bursts new now) ≤ 2000)
      × All (λ b. now ≤ b.heard_at + observer_burst_window_ms) (keep_bursts bursts new now)
unfolding prune_observer_bursts
keep_bursts-bounds bursts [] now h = (
  omega (
    arith,
    length-filter-le
        (λ (b : PublicObserverBurst). is_within observer_burst_window_ms now b.heard_at) bursts,
  ),
  kept-within (λ b. b.heard_at) observer_burst_window_ms now bursts,
)
keep_bursts-bounds bursts (b ∷ bs) now h =
    let fresh = prune_observer_bursts (bursts ++ b ∷ bs) now in
    (
      length-take_last-le 2000 fresh,
      All-drop (λ x. now ≤ x.heard_at + observer_burst_window_ms) _ fresh
          (kept-within (λ x. x.heard_at) observer_burst_window_ms now _),
    )

-- Of at most 2000 bursts an activity makes at most 2000, none of them older than the window.
pub add_observer_burst-bounds :
    (bursts : List PublicObserverBurst) (activity : PublicActivity) (now : ℕ)
    → length bursts ≤ 2000
    → (length (add_observer_burst bursts activity now) ≤ 2000)
      × All
          (λ b. now ≤ b.heard_at + observer_burst_window_ms)
          (add_observer_burst bursts activity now)
unfolding add_observer_burst
add_observer_burst-bounds bursts activity now h =
    keep_bursts-bounds bursts
      (observer_burst activity.animation_state activity.observer_location activity) now h

count-partition :
    (xs : List PublicActivity)
    → count_state is_route xs + count_state is_observer xs + count_state is_unmapped xs ≡ length xs
count-partition [] = omega arith
count-partition (x ∷ xs) = ground (arith, count-partition xs)

-- The three rates of the coverage statistics add up to the packets received in the window, which is
-- the packet rate.
pub live_coverage_stats-partition :
    (activity : List PublicActivity) (now : ℕ)
    → let s = live_coverage_stats activity now in
      (s.route_animated_per_minute + s.observer_burst_per_minute + s.unmapped_per_minute
        ≡ s.received_per_minute)
      × (s.received_per_minute ≡ current_packet_rate_per_minute activity now)
unfolding live_coverage_stats current_packet_rate_per_minute
live_coverage_stats-partition activity now = (count-partition (recent_packets activity now), refl)
