-- ===== src/State/Reduce/Routing.antt =====
-- The routes of the state and their index agree, whatever the reducer does (web/src/state.ts).
use mc_carto_live.Prelude.{ℕ, Bool, false, arith, Option, none, some, List, [], ◌∷◌}
use mc_carto_live.Types.{PublicRoutePulse, PublicLiveEnvelope, PublicEvent}
use mc_carto_live.State.Model.{AppState, with_latest_seq, remember_seq}
use mc_carto_live.State.Routes.Fresh.{IsIndexed}
use mc_carto_live.State.Routes.Index.{upsert_pulse_routes_batch-IsIndexed}
use mc_carto_live.State.Reduce.{finish_reduction, apply_public_envelopes, apply_public_events}
use mc_carto_live.State.Reduce.Invariants.{
  Keeps, apply_public_envelopes-keeps, apply_public_events-keeps,
}

-- `routeIndex` gives each route of `routes` its position, and the ids are distinct.
abbrev pub IsRouted : AppState → Type 0
IsRouted s = IsIndexed s.routes s.route_index

with_latest_seq-IsRouted :
    (s : AppState) (o : Option ℕ) → IsRouted s → IsRouted (with_latest_seq s o)
unfolding with_latest_seq
with_latest_seq-IsRouted s none h = h
with_latest_seq-IsRouted s (some n) h = ground arith

remember_seq-IsRouted : (s : AppState) (o : Option ℕ) → IsRouted s → IsRouted (remember_seq s o)
unfolding remember_seq
remember_seq-IsRouted s none h = h
remember_seq-IsRouted s (some n) h = ground arith

module _ (log_ratio : ℕ → ℕ → ℕ) where
  finish_reduction-IsRouted :
      (s : AppState) (ps : List PublicRoutePulse)
      → IsRouted s
      → IsRouted (finish_reduction log_ratio s ps)
  unfolding finish_reduction
  finish_reduction-IsRouted s [] h = h
  finish_reduction-IsRouted s (p ∷ ps) h =
      upsert_pulse_routes_batch-IsIndexed log_ratio s.routes s.route_index s.route_max_packet_count
        (p ∷ ps) h

  Keeps-IsRouted : (animate : Bool) → Keeps log_ratio animate IsRouted
  Keeps-IsRouted animate = record {
    latest = with_latest_seq-IsRouted;
    remember = remember_seq-IsRouted;
    node = λ s n h. h;
    active = λ s m a new h. h;
    pulse = λ s m p h. h;
    routed = finish_reduction-IsRouted;
  }

  -- The index of the routes stays right: whatever batch of envelopes is reduced, the ids of the
  -- routes are distinct after it and the index gives each its position, if it did before.
  pub apply_public_envelopes-IsRouted :
      (s : AppState) (ms : List PublicLiveEnvelope) (animate : Bool)
      → IsRouted s
      → IsRouted (apply_public_envelopes log_ratio s ms animate)
  apply_public_envelopes-IsRouted s ms animate =
      apply_public_envelopes-keeps log_ratio IsRouted animate (Keeps-IsRouted animate) s ms

  -- The same for a page of stored events.
  pub apply_public_events-IsRouted :
      (s : AppState) (es : List PublicEvent)
      → IsRouted s
      → IsRouted (apply_public_events log_ratio s es)
  apply_public_events-IsRouted s es =
      apply_public_events-keeps log_ratio IsRouted (Keeps-IsRouted false) s es
