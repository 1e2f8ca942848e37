-- ===== src/Tests/State.antt =====
-- The state and its reducer (web/src/state.ts) on small inputs.
use mc_carto_live.Types.{PublicLiveEnvelope, route_pulse}
use mc_carto_live.Tests.Data.{envelope}
use mc_carto_live.Prelude.{◌≡◌, refl, map, true, false, List, [], ◌∷◌, arith}
use mc_carto_live.Prelude.JsSet
use mc_carto_live.Prelude.JsMap.{JsMap}
use mc_carto_live.Prelude.JsMap
use mc_carto_live.Types.{PublicRoutePulse}
use mc_carto_live.State.Routes.{known_loop, upsert_pulse_routes_batch, touch_pulses}
use mc_carto_live.State.Routes.Position.{position}
use mc_carto_live.State.Routes.Known.{overlay, unknown, start, known_loop-overlay}
use mc_carto_live.State.Routes.Totals.{packet_total}
use mc_carto_live.State.Routes.Conserve.{upsert_pulse_routes_batch-total}
use mc_carto_live.State.Reduce.{apply_public_envelopes, apply_public_events}
use mc_carto_live.State.Reduce.Monotone.{IsLater, apply_public_envelopes-IsLater}
use mc_carto_live.State.Reduce.Bounds.{IsBounded, apply_public_envelopes-IsBounded}
use mc_carto_live.State.Reduce.Motion.{
  still, IsStill, apply_public_envelopes-agree, apply_public_events-IsStill,
}
use mc_carto_live.State.Reduce.Routing.{IsRouted, apply_public_envelopes-IsRouted}
use mc_carto_live.State.Reduce.Replay.{apply_public_envelopes_again, apply_public_envelopes-later}
use mc_carto_live.State.Snapshot.{hydrate_snapshot_topology}
use mc_carto_live.State.Snapshot.Indexed.{hydrate_snapshot_topology-IsRouted}
use mc_carto_live.Tests.Data.{
  segment_ab, segment_bc, pulse, live_batch, app, snapshot, stored, log_ratio,
}

abbrev pulses : List PublicRoutePulse
pulses =
    pulse "p" 4000 (segment_ab ∷ segment_bc ∷ segment_ab ∷ [])
    ∷ pulse "q" 5000 (segment_bc ∷ [])
    ∷ []

abbrev new_pulse : PublicLiveEnvelope
new_pulse = envelope 4 (route_pulse (pulse "p" 4000 (segment_ab ∷ [])))

app-IsRouted : IsRouted app
unfolding position JsMap.get
app-IsRouted = record { indexed = λ k. refl; distinct = (refl, tt) }

app-IsBounded : IsBounded app
app-IsBounded = record {
  activity = omega arith;
  pulses = omega arith;
  bursts = omega arith;
  traces = omega arith;
  seqs = omega arith;
}

known_loop-overlay_example :
    let touched = touch_pulses pulses [] in
    let b =
      known_loop log_ratio 3 app.routes app.route_index touched
        (start log_ratio 3 app.routes app.route_index) in
    (b.next ≡ map (λ r. overlay log_ratio 3 app.routes app.route_index r touched r) app.routes)
    × (b.left ≡ unknown log_ratio 3 app.routes app.route_index touched)
    × (b.next_index ≡ app.route_index)
known_loop-overlay_example =
    known_loop-overlay log_ratio 3 app.routes app.route_index (touch_pulses pulses [])
      app-IsRouted.indexed app-IsRouted.distinct

-- Two hits on a route with three packets, and a new route with two.
upsert_pulse_routes_batch-total_example :
    packet_total (upsert_pulse_routes_batch log_ratio app.routes app.route_index 3 pulses).routes
    ≡ 7
unfolding packet_total
upsert_pulse_routes_batch-total_example =
    upsert_pulse_routes_batch-total log_ratio app.routes app.route_index 3 pulses app-IsRouted

apply_public_envelopes-IsLater_example :
    IsLater app (apply_public_envelopes log_ratio app live_batch true)
apply_public_envelopes-IsLater_example =
    apply_public_envelopes-IsLater log_ratio app live_batch true

apply_public_envelopes-IsBounded_example :
    IsBounded (apply_public_envelopes log_ratio app live_batch true)
apply_public_envelopes-IsBounded_example =
    apply_public_envelopes-IsBounded log_ratio app live_batch true app-IsBounded

apply_public_envelopes-agree_example :
    still (apply_public_envelopes log_ratio app live_batch true)
    ≡ still (apply_public_envelopes log_ratio app live_batch false)
apply_public_envelopes-agree_example = apply_public_envelopes-agree log_ratio app live_batch

apply_public_events-IsStill_example : IsStill app (apply_public_events log_ratio app stored)
apply_public_events-IsStill_example = apply_public_events-IsStill log_ratio app stored

apply_public_envelopes-IsRouted_example :
    IsRouted (apply_public_envelopes log_ratio app live_batch true)
apply_public_envelopes-IsRouted_example =
    apply_public_envelopes-IsRouted log_ratio app live_batch true app-IsRouted

apply_public_envelopes_again_example :
    apply_public_envelopes log_ratio
      (apply_public_envelopes log_ratio app (new_pulse ∷ []) true)
      (new_pulse ∷ [])
      false
    ≡ apply_public_envelopes log_ratio app (new_pulse ∷ []) true
apply_public_envelopes_again_example =
    apply_public_envelopes_again new_pulse 4 refl (omega arith) log_ratio app true false

apply_public_envelopes-later_example :
    apply_public_envelopes log_ratio
      (apply_public_envelopes log_ratio
        (apply_public_envelopes log_ratio app (new_pulse ∷ []) true)
        live_batch
        true)
      (new_pulse ∷ [])
      false
    ≡ apply_public_envelopes log_ratio
        (apply_public_envelopes log_ratio app (new_pulse ∷ []) true)
        live_batch
        true
unfolding apply_public_envelopes JsSet.has JsSet.add_all
apply_public_envelopes-later_example =
    apply_public_envelopes-later new_pulse 4 refl (omega arith) log_ratio app live_batch true true
      false refl refl

hydrate_snapshot_topology-IsRouted_example :
    IsRouted (hydrate_snapshot_topology log_ratio app snapshot)
hydrate_snapshot_topology-IsRouted_example =
    hydrate_snapshot_topology-IsRouted log_ratio app snapshot app-IsRouted
