-- ===== src/State/Reduce/Motion.antt =====
-- Motion on the map is for connected traffic alone (web/src/state.ts): without `animate` nothing
-- moves, and all else is the same.
use mc_carto_live.Prelude.{
  ℕ, ◌≡◌, refl, sym, ap, ◌∙◌, ◌||◌, ◌==◌, leb, Bool, true, false, Option, none, some, List, [], ◌∷◌,
  ◌++◌, arith, Bool-cases, inl, inr,
}
use mc_carto_live.Prelude.JsSet
use mc_carto_live.Types.{
  PublicActivity, PublicRoutePulse, PublicLiveEnvelope, EnvelopeBody, hello, pong, lagged,
  node_update, activity, route_pulse, unknown_event, unknown_type, PublicEvent,
}
use mc_carto_live.State.Model.{AppState, with_latest_seq, remember_seq, is_seen, includes}
use mc_carto_live.State.Reduce.{
  Reduction, mark, with_node, apply_node_update, with_activity, apply_activity,
  apply_non_route_envelope, accept_pulse, apply_pulse, apply_route_pulse, apply_message,
  reduce_messages, start_reduction, finish_reduction, apply_public_envelopes, apply_public_events,
  unless_seen, reported_seq, reported_or_known, has_activity, activity_with_timing,
  pulse_with_timing,
}
use mc_carto_live.State.Reduce.Invariants.{Keeps, apply_public_events-keeps}

-- The same motion on the map.
pub record IsStill (s t : AppState) : Type 0 where
  pub pulses : t.pulses ≡ s.pulses
  pub bursts : t.observer_bursts ≡ s.observer_bursts

with_latest_seq-IsStill :
    (s t : AppState) (o : Option ℕ) → IsStill s t → IsStill s (with_latest_seq t o)
unfolding with_latest_seq
with_latest_seq-IsStill s t none h = h
with_latest_seq-IsStill s t (some n) h = ground arith

remember_seq-IsStill : (s t : AppState) (o : Option ℕ) → IsStill s t → IsStill s (remember_seq t o)
unfolding remember_seq
remember_seq-IsStill s t none h = h
remember_seq-IsStill s t (some n) h = ground arith

-- The state without its motion.
pub still : AppState → AppState
still s = record s { pulses = []; observer_bursts = [] }

still-with_latest_seq :
    (s : AppState) (o : Option ℕ) → still (with_latest_seq s o) ≡ with_latest_seq (still s) o
unfolding still with_latest_seq
still-with_latest_seq s none = refl
still-with_latest_seq s (some n) = elim (Bool-cases (n == 0 || leb n s.latest_seq)) [
  | inl old ↦ rw old
  | inr new ↦ rw new
]

still-remember_seq :
    (s : AppState) (o : Option ℕ) → still (remember_seq s o) ≡ remember_seq (still s) o
unfolding still remember_seq
still-remember_seq s none = refl
still-remember_seq s (some n) = elim (Bool-cases (n == 0 || includes n s.seen_seqs)) [
  | inl old ↦ rw old
  | inr new ↦ rw new
]

still-mark : (m : PublicLiveEnvelope) (s : AppState) → still (mark m s) ≡ mark m (still s)
unfolding mark still
still-mark m s =
    let seq = reported_or_known m s in
    still-remember_seq (with_latest_seq s seq) m.seq
    ∙ ap (λ t. remember_seq t m.seq) (still-with_latest_seq s seq)

still-both :
    (s : AppState) (o : Option ℕ)
    → still (with_latest_seq s o) ≡ still (with_latest_seq (still s) o)
unfolding still
still-both s o = still-with_latest_seq s o ∙ sym (still-with_latest_seq (still s) o)

still-noted :
    (s : AppState) (o p : Option ℕ)
    → still (remember_seq (with_latest_seq s o) p)
      ≡ still (remember_seq (with_latest_seq (still s) o) p)
unfolding still
still-noted s o p =
    still-remember_seq (with_latest_seq s o) p
    ∙ ap (λ t. remember_seq t p) (still-both s o)
    ∙ sym (still-remember_seq (with_latest_seq (still s) o) p)

-- The reduction without the motion of its state.
abbrev still_reduction : Reduction → Reduction
still_reduction r = record r { next = still r.next }

abbrev accepted : Reduction → PublicRoutePulse → AppState → Reduction
accepted r p t = record {
  next = t;
  pulse_ids = JsSet.add p.id r.pulse_ids;
  accepted_pulses = r.accepted_pulses ++ p ∷ [];
}

-- Whatever is done with `animate`, without motion it is what is done to the still state.
module _ (animate : Bool) where
  still-unless_seen :
      (s t u : AppState) (m : PublicLiveEnvelope)
      → still t ≡ still u
      → still (unless_seen s m t) ≡ still (unless_seen (still s) m u)
  unfolding still
  still-unless_seen s t u m e = elim (Bool-cases (is_seen m.seq s.seen_seqs)) [
    | inl seen ↦ rw seen (still-both s (reported_seq m))
    | inr new ↦ rw new e
  ]

  still-apply_activity :
      (s : AppState) (m : PublicLiveEnvelope) (a : PublicActivity)
      → still (apply_activity s m a animate) ≡ still (apply_activity (still s) m a false)
  unfolding apply_activity still
  still-apply_activity s m a = elim (Bool-cases (has_activity a.id s.activity)) [
    | inl old ↦ rw old (still-mark m s ∙ sym (still-mark m (still s)))
    | inr new ↦
        let item = activity_with_timing a m in
        rw new (
          still-mark m (with_activity s m item animate)
          ∙ sym (still-mark m (with_activity (still s) m item false)))
  ]

  still-apply_non_route_envelope :
      (s : AppState) (m : PublicLiveEnvelope) (b : EnvelopeBody)
      → still (apply_non_route_envelope s m animate b)
        ≡ still (apply_non_route_envelope (still s) m false b)
  unfolding apply_non_route_envelope apply_node_update still
  still-apply_non_route_envelope s m hello = still-both s (reported_or_known m s)
  still-apply_non_route_envelope s m pong = still-both s (reported_or_known m s)
  still-apply_non_route_envelope s m lagged = still-both s (reported_or_known m s)
  still-apply_non_route_envelope s m (node_update n) =
      still-unless_seen s _ _ m
        (still-mark m (with_node s n) ∙ sym (still-mark m (with_node (still s) n)))
  still-apply_non_route_envelope s m (activity a) =
      still-unless_seen s _ _ m (still-apply_activity s m a)
  still-apply_non_route_envelope s m (route_pulse p) = still-unless_seen s s (still s) m refl
  still-apply_non_route_envelope s m unknown_event = still-unless_seen s s (still s) m refl
  still-apply_non_route_envelope s m unknown_type = refl

  still-apply_pulse :
      (r : Reduction) (m : PublicLiveEnvelope) (p : PublicRoutePulse)
      → still_reduction (apply_pulse r m p animate)
        ≡ still_reduction (apply_pulse (still_reduction r) m p false)
  unfolding apply_pulse still
  still-apply_pulse r m p = elim (Bool-cases (JsSet.has p.id r.pulse_ids)) [
    | inl old ↦
        rw old
          (ap (λ (t : AppState). record r { next = t }) (still-noted r.next (reported_seq m) m.seq))
    | inr new ↦ rw new (
        ap (accepted r p) (
          still-mark m (accept_pulse r.next m p animate)
          ∙ sym (still-mark m (accept_pulse (still r.next) m p false))))
  ]

  still-apply_route_pulse :
      (r : Reduction) (m : PublicLiveEnvelope) (p : PublicRoutePulse)
      → still_reduction (apply_route_pulse r m p animate)
        ≡ still_reduction (apply_route_pulse (still_reduction r) m p false)
  unfolding apply_route_pulse still
  still-apply_route_pulse r m p = elim (Bool-cases (is_seen m.seq r.next.seen_seqs)) [
    | inl seen ↦
        rw seen (ap (λ (t : AppState). record r { next = t }) (still-both r.next (reported_seq m)))
    | inr new ↦ rw new (still-apply_pulse r m (pulse_with_timing p m))
  ]

  still-apply_message :
      (r : Reduction) (m : PublicLiveEnvelope) (b : EnvelopeBody)
      → still_reduction (apply_message r m animate b)
        ≡ still_reduction (apply_message (still_reduction r) m false b)
  unfolding apply_message
  still-apply_message r m (route_pulse p) = still-apply_route_pulse r m p
  still-apply_message r m b =
      ap (λ (t : AppState). record r { next = t }) (still-apply_non_route_envelope r.next m b)

still-reduce_messages :
    (ms : List PublicLiveEnvelope) (animate : Bool) (r : Reduction)
    → still_reduction (reduce_messages ms animate r)
      ≡ still_reduction (reduce_messages ms false (still_reduction r))
unfolding reduce_messages still
still-reduce_messages [] animate r = refl
still-reduce_messages (m ∷ ms) animate r =
    still-reduce_messages ms animate (apply_message r m animate m.body)
    ∙ ap (λ (q : Reduction). still_reduction (reduce_messages ms false q))
        (still-apply_message animate r m m.body)
    ∙ sym (still-reduce_messages ms false (apply_message (still_reduction r) m false m.body))

still-finish_reduction :
    (log_ratio : ℕ → ℕ → ℕ) (s : AppState) (ps : List PublicRoutePulse)
    → still (finish_reduction log_ratio s ps) ≡ finish_reduction log_ratio (still s) ps
unfolding finish_reduction still
still-finish_reduction log_ratio s [] = refl
still-finish_reduction log_ratio s (p ∷ ps) = refl

-- The end of the reducer, without motion.
abbrev finished : (ℕ → ℕ → ℕ) → Reduction → AppState
finished log_ratio r = finish_reduction log_ratio r.next r.accepted_pulses

still-apply_public_envelopes :
    (log_ratio : ℕ → ℕ → ℕ) (s : AppState) (ms : List PublicLiveEnvelope) (animate : Bool)
    → still (apply_public_envelopes log_ratio s ms animate)
      ≡ finished log_ratio
          (still_reduction (reduce_messages ms false (still_reduction (start_reduction s))))
unfolding apply_public_envelopes
still-apply_public_envelopes log_ratio s ms animate =
    let r = reduce_messages ms animate (start_reduction s) in
    still-finish_reduction log_ratio r.next r.accepted_pulses
    ∙ ap (finished log_ratio) (still-reduce_messages ms animate (start_reduction s))

-- Reducing a batch with animation or without gives the same nodes, routes, activity, traces,
-- statistics, sequence numbers and indexes. The lists that move on the map are all that differ.
pub apply_public_envelopes-agree :
    (log_ratio : ℕ → ℕ → ℕ) (s : AppState) (ms : List PublicLiveEnvelope)
    → still (apply_public_envelopes log_ratio s ms true)
      ≡ still (apply_public_envelopes log_ratio s ms false)
apply_public_envelopes-agree log_ratio s ms =
    still-apply_public_envelopes log_ratio s ms true
    ∙ sym (still-apply_public_envelopes log_ratio s ms false)

finish_reduction-IsStill :
    (log_ratio : ℕ → ℕ → ℕ) (s t : AppState) (ps : List PublicRoutePulse)
    → IsStill s t
    → IsStill s (finish_reduction log_ratio t ps)
unfolding finish_reduction
finish_reduction-IsStill log_ratio s t [] h = h
finish_reduction-IsStill log_ratio s t (p ∷ ps) h = record { pulses = h.pulses; bursts = h.bursts }

recovered-IsStill : (log_ratio : ℕ → ℕ → ℕ) (s : AppState) → Keeps log_ratio false (IsStill s)
recovered-IsStill log_ratio s = record {
  latest = with_latest_seq-IsStill s;
  remember = remember_seq-IsStill s;
  node = λ t n h. record { pulses = h.pulses; bursts = h.bursts };
  active = λ t m a new h. record { pulses = h.pulses; bursts = h.bursts };
  pulse = λ t m p h. record { pulses = h.pulses; bursts = h.bursts };
  routed = finish_reduction-IsStill log_ratio s;
}

-- The events that are fetched after a lost connection move nothing on the map.
pub apply_public_events-IsStill :
    (log_ratio : ℕ → ℕ → ℕ) (s : AppState) (es : List PublicEvent)
    → IsStill s (apply_public_events log_ratio s es)
apply_public_events-IsStill log_ratio s es =
    apply_public_events-keeps log_ratio (IsStill s) (recovered-IsStill log_ratio s) s es
      (record { pulses = refl; bursts = refl })
