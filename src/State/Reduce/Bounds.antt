-- ===== src/State/Reduce/Bounds.antt =====
-- The lists of the state stay within their caps (web/src/state.ts).
use mc_carto_live.Prelude.{
  ℕ, ◌≤◌, ◌++◌, Bool, true, false, Option, none, some, List, [], ◌∷◌, arith, length, take,
  length-take-le, length-take_last-le, ◌||◌, ◌==◌, if◌then◌else◌, Bool-cases, inl, inr,
}
use mc_carto_live.Types.{PublicActivity, PublicRoutePulse, PublicLiveEnvelope, PublicEvent}
use mc_carto_live.State.Model.{AppState, with_latest_seq, remember_seq, includes}
use mc_carto_live.State.Traces.{add_observer_burst}
use mc_carto_live.State.Traces.Windows.{add_route_trace_hits-bounds, add_observer_burst-bounds}
use mc_carto_live.State.Reduce.{finish_reduction, apply_public_envelopes, apply_public_events}
use mc_carto_live.State.Reduce.Invariants.{
  Keeps, apply_public_envelopes-keeps, apply_public_events-keeps,
}

pub record IsBounded (s : AppState) : Type 0 where
  pub activity : length s.activity ≤ 240
  pub pulses : length s.pulses ≤ 2000
  pub bursts : length s.observer_bursts ≤ 2000
  pub traces : length s.route_traces ≤ 2000
  pub seqs : length s.seen_seqs ≤ 1000

with_latest_seq-IsBounded :
    (s : AppState) (o : Option ℕ) → IsBounded s → IsBounded (with_latest_seq s o)
unfolding with_latest_seq
with_latest_seq-IsBounded s none h = h
with_latest_seq-IsBounded s (some n) h = ground arith

remember_seq-IsBounded : (s : AppState) (o : Option ℕ) → IsBounded s → IsBounded (remember_seq s o)
unfolding remember_seq
remember_seq-IsBounded s none h = h
remember_seq-IsBounded s (some n) h = elim (Bool-cases (n == 0 || includes n s.seen_seqs)) [
  | inl old ↦ rw old h
  | inr new ↦ rw new (record {
    activity = h.activity;
    pulses = h.pulses;
    bursts = h.bursts;
    traces = h.traces;
    seqs = length-take_last-le 1000 (s.seen_seqs ++ n ∷ []);
  })
]

bursts_bound :
    (s : AppState) (a : PublicActivity) (now : ℕ) (animate : Bool)
    → length s.observer_bursts ≤ 2000
    → length (if animate then add_observer_burst s.observer_bursts a now else s.observer_bursts)
      ≤ 2000
bursts_bound s a now true h = (add_observer_burst-bounds s.observer_bursts a now h).0
bursts_bound s a now false h = h

pulses_bound :
    (s : AppState) (p : PublicRoutePulse) (animate : Bool)
    → length s.pulses ≤ 2000
    → length (if animate then take 2000 (p ∷ s.pulses) else s.pulses) ≤ 2000
pulses_bound s p true h = length-take-le 2000 (p ∷ s.pulses)
pulses_bound s p false h = h

module _ (log_ratio : ℕ → ℕ → ℕ) where
  finish_reduction-IsBounded :
      (s : AppState) (ps : List PublicRoutePulse)
      → IsBounded s
      → IsBounded (finish_reduction log_ratio s ps)
  unfolding finish_reduction
  finish_reduction-IsBounded s [] h = h
  finish_reduction-IsBounded s (p ∷ ps) h = record {
    activity = h.activity;
    pulses = h.pulses;
    bursts = h.bursts;
    traces = h.traces;
    seqs = h.seqs;
  }

  Keeps-IsBounded : (animate : Bool) → Keeps log_ratio animate IsBounded
  Keeps-IsBounded animate = record {
    latest = with_latest_seq-IsBounded;
    remember = remember_seq-IsBounded;
    node = λ s n h. record {
      activity = h.activity;
      pulses = h.pulses;
      bursts = h.bursts;
      traces = h.traces;
      seqs = h.seqs;
    };
    active = λ s m a new h. record {
      activity = length-take-le 240 (a ∷ s.activity);
      pulses = h.pulses;
      bursts = bursts_bound s a _ animate h.bursts;
      traces = h.traces;
      seqs = h.seqs;
    };
    pulse = λ s m p h. record {
      activity = h.activity;
      pulses = pulses_bound s p animate h.pulses;
      bursts = h.bursts;
      traces = (add_route_trace_hits-bounds s.route_traces p _).0;
      seqs = h.seqs;
    };
    routed = finish_reduction-IsBounded;
  }

  -- A state within its caps (240 activities, 2000 pulses, bursts and traces, 1000 remembered
  -- sequence numbers) stays within them, after any number of envelopes.
  pub apply_public_envelopes-IsBounded :
      (s : AppState) (ms : List PublicLiveEnvelope) (animate : Bool)
      → IsBounded s
      → IsBounded (apply_public_envelopes log_ratio s ms animate)
  apply_public_envelopes-IsBounded s ms animate =
      apply_public_envelopes-keeps log_ratio IsBounded animate (Keeps-IsBounded animate) s ms

  pub apply_public_events-IsBounded :
      (s : AppState) (es : List PublicEvent)
      → IsBounded s
      → IsBounded (apply_public_events log_ratio s es)
  apply_public_events-IsBounded s es =
      apply_public_events-keeps log_ratio IsBounded (Keeps-IsBounded false) s es
