-- ===== src/State/Reduce/Monotone.antt =====
-- The clock and the latest sequence number never go back (web/src/state.ts).
use mc_carto_live.Prelude.{ℕ, ◌≤◌, Bool, false, Option, none, some, List, [], ◌∷◌, arith}
use mc_carto_live.Types.{PublicRoutePulse, PublicLiveEnvelope, PublicEvent}
use mc_carto_live.State.Model.{AppState, with_latest_seq, remember_seq}
use mc_carto_live.State.Reduce.{finish_reduction, apply_public_envelopes, apply_public_events}
use mc_carto_live.State.Reduce.Invariants.{
  Keeps, apply_public_envelopes-keeps, apply_public_events-keeps,
}

-- Later in both, and in the counts of the changes of routes.
pub record IsLater (s t : AppState) : Type 0 where
  pub seq : s.latest_seq ≤ t.latest_seq
  pub time : s.server_time ≤ t.server_time
  pub topology : s.route_topology_revision ≤ t.route_topology_revision
  pub traffic : s.route_traffic_revision ≤ t.route_traffic_revision
  pub visual : s.route_visual_revision ≤ t.route_visual_revision

with_latest_seq-IsLater :
    (s t : AppState) (o : Option ℕ) → IsLater s t → IsLater s (with_latest_seq t o)
unfolding with_latest_seq
with_latest_seq-IsLater s t none h = h
with_latest_seq-IsLater s t (some n) h = ground arith

remember_seq-IsLater : (s t : AppState) (o : Option ℕ) → IsLater s t → IsLater s (remember_seq t o)
unfolding remember_seq
remember_seq-IsLater s t none h = h
remember_seq-IsLater s t (some n) h = ground arith

module _ (log_ratio : ℕ → ℕ → ℕ) where
  finish_reduction-IsLater :
      (s t : AppState) (ps : List PublicRoutePulse)
      → IsLater s t
      → IsLater s (finish_reduction log_ratio t ps)
  unfolding finish_reduction
  finish_reduction-IsLater s t [] h = h
  finish_reduction-IsLater s t (p ∷ ps) h = record {
    seq = h.seq;
    time = h.time;
    topology = omega (arith, h.topology);
    traffic = omega (arith, h.traffic);
    visual = omega (arith, h.visual);
  }

  Keeps-IsLater : (animate : Bool) (s : AppState) → Keeps log_ratio animate (IsLater s)
  Keeps-IsLater animate s = record {
    latest = with_latest_seq-IsLater s;
    remember = remember_seq-IsLater s;
    node = λ t n h. record {
      seq = h.seq;
      time = h.time;
      topology = h.topology;
      traffic = h.traffic;
      visual = h.visual;
    };
    active = λ t m a new h. record {
      seq = h.seq;
      time = omega (arith, h.time);
      topology = h.topology;
      traffic = h.traffic;
      visual = h.visual;
    };
    pulse = λ t m p h. record {
      seq = h.seq;
      time = omega (arith, h.time);
      topology = h.topology;
      traffic = h.traffic;
      visual = h.visual;
    };
    routed = finish_reduction-IsLater s;
  }

  -- No batch of envelopes, live or recovered, moves the server time, the latest sequence number or a
  -- revision of the routes back, whatever the envelopes carry and in whatever order they come.
  pub apply_public_envelopes-IsLater :
      (s : AppState) (ms : List PublicLiveEnvelope) (animate : Bool)
      → IsLater s (apply_public_envelopes log_ratio s ms animate)
  apply_public_envelopes-IsLater s ms animate =
      apply_public_envelopes-keeps log_ratio (IsLater s) animate (Keeps-IsLater animate s) s ms
        (omega arith)

  -- Nor does a page of stored events.
  pub apply_public_events-IsLater :
      (s : AppState) (es : List PublicEvent) → IsLater s (apply_public_events log_ratio s es)
  apply_public_events-IsLater s es =
      apply_public_events-keeps log_ratio (IsLater s) (Keeps-IsLater false s) s es (omega arith)
