-- ===== src/State/Reduce/Invariants.antt =====
-- The rule for invariants of the reducer (web/src/state.ts): what every change of the state keeps,
-- every batch of envelopes keeps.
use mc_carto_live.Prelude.{
  ℕ, ◌≡◌, Bool, false, Option, none, some, List, [], ◌∷◌, Bool-cases, inl, inr,
}
use mc_carto_live.Prelude.JsSet
use mc_carto_live.Types.{
  PublicNode, PublicActivity, PublicRoutePulse, PublicLiveEnvelope, EnvelopeBody, hello, pong,
  lagged, node_update, activity, route_pulse, unknown_event, unknown_type, PublicEvent,
}
use mc_carto_live.State.Model.{AppState, with_latest_seq, remember_seq, is_seen}
use mc_carto_live.State.Reduce.{
  Reduction, mark, with_node, apply_node_update, with_activity, apply_activity,
  apply_non_route_envelope, accept_pulse, apply_pulse, apply_route_pulse, apply_message,
  reduce_messages, start_reduction, finish_reduction, apply_public_envelopes, apply_public_events,
  note_event, note_unknown, event_body, event_envelopes, unless_seen, reported_seq,
  reported_or_known, has_activity, activity_with_timing, pulse_with_timing,
}

-- Each change that the reducer makes keeps `P`.
pub record Keeps (log_ratio : ℕ → ℕ → ℕ) (animate : Bool) (P : AppState → Type 0) : Type 0 where
  pub latest : (s : AppState) (o : Option ℕ) → P s → P (with_latest_seq s o)
  pub remember : (s : AppState) (o : Option ℕ) → P s → P (remember_seq s o)
  pub node : (s : AppState) (n : PublicNode) → P s → P (with_node s n)
  pub active :
      (s : AppState) (m : PublicLiveEnvelope) (a : PublicActivity)
      → has_activity a.id s.activity ≡ false
      → P s
      → P (with_activity s m a animate)
  pub pulse :
      (s : AppState) (m : PublicLiveEnvelope) (p : PublicRoutePulse)
      → P s
      → P (accept_pulse s m p animate)
  pub routed :
      (s : AppState) (ps : List PublicRoutePulse) → P s → P (finish_reduction log_ratio s ps)

module _ (log_ratio : ℕ → ℕ → ℕ) (P : AppState → Type 0) where
  module _ (animate : Bool) (k : Keeps log_ratio animate P) where
    mark-keeps : (m : PublicLiveEnvelope) (s : AppState) → P s → P (mark m s)
    unfolding mark
    mark-keeps m s h =
        k.remember (with_latest_seq s (reported_or_known m s)) m.seq
          (k.latest s (reported_or_known m s) h)

    unless_seen-keeps :
        (s t : AppState) (m : PublicLiveEnvelope) → P s → P t → P (unless_seen s m t)
    unless_seen-keeps s t m h g = elim (Bool-cases (is_seen m.seq s.seen_seqs)) [
      | inl seen ↦ rw seen (k.latest s (reported_seq m) h)
      | inr new ↦ rw new g
    ]

    apply_activity-keeps :
        (s : AppState) (m : PublicLiveEnvelope) (a : PublicActivity)
        → P s
        → P (apply_activity s m a animate)
    unfolding apply_activity
    apply_activity-keeps s m a h = elim (Bool-cases (has_activity a.id s.activity)) [
      | inl old ↦ rw old (mark-keeps m s h)
      | inr new ↦
          let item = activity_with_timing a m in
          rw new (mark-keeps m (with_activity s m item animate) (k.active s m item new h))
    ]

    apply_non_route_envelope-keeps :
        (s : AppState) (m : PublicLiveEnvelope) (b : EnvelopeBody)
        → P s
        → P (apply_non_route_envelope s m animate b)
    unfolding apply_non_route_envelope apply_node_update
    apply_non_route_envelope-keeps s m hello h = k.latest s (reported_or_known m s) h
    apply_non_route_envelope-keeps s m pong h = k.latest s (reported_or_known m s) h
    apply_non_route_envelope-keeps s m lagged h = k.latest s (reported_or_known m s) h
    apply_non_route_envelope-keeps s m (node_update n) h =
        unless_seen-keeps s _ m h (mark-keeps m (with_node s n) (k.node s n h))
    apply_non_route_envelope-keeps s m (activity a) h =
        unless_seen-keeps s _ m h (apply_activity-keeps s m a h)
    apply_non_route_envelope-keeps s m (route_pulse p) h = unless_seen-keeps s s m h h
    apply_non_route_envelope-keeps s m unknown_event h = unless_seen-keeps s s m h h
    apply_non_route_envelope-keeps s m unknown_type h = h

    apply_pulse-keeps :
        (r : Reduction) (m : PublicLiveEnvelope) (p : PublicRoutePulse)
        → P r.next
        → P (apply_pulse r m p animate).next
    unfolding apply_pulse
    apply_pulse-keeps r m p h = elim (Bool-cases (JsSet.has p.id r.pulse_ids)) [
      | inl old ↦ rw old (k.remember _ m.seq (k.latest r.next (reported_seq m) h))
      | inr new ↦ rw new (mark-keeps m _ (k.pulse r.next m p h))
    ]

    apply_route_pulse-keeps :
        (r : Reduction) (m : PublicLiveEnvelope) (p : PublicRoutePulse)
        → P r.next
        → P (apply_route_pulse r m p animate).next
    unfolding apply_route_pulse
    apply_route_pulse-keeps r m p h = elim (Bool-cases (is_seen m.seq r.next.seen_seqs)) [
      | inl seen ↦ rw seen (k.latest r.next (reported_seq m) h)
      | inr new ↦ rw new (apply_pulse-keeps r m (pulse_with_timing p m) h)
    ]

    apply_message-keeps :
        (r : Reduction) (m : PublicLiveEnvelope) (b : EnvelopeBody)
        → P r.next
        → P (apply_message r m animate b).next
    unfolding apply_message
    apply_message-keeps r m (route_pulse p) h = apply_route_pulse-keeps r m p h
    apply_message-keeps r m b h = apply_non_route_envelope-keeps r.next m b h

    reduce_messages-keeps :
        (ms : List PublicLiveEnvelope) (r : Reduction)
        → P r.next
        → P (reduce_messages ms animate r).next
    unfolding reduce_messages
    reduce_messages-keeps [] r h = h
    reduce_messages-keeps (m ∷ ms) r h =
        reduce_messages-keeps ms (apply_message r m animate m.body)
          (apply_message-keeps r m m.body h)

    pub apply_public_envelopes-keeps :
        (s : AppState) (ms : List PublicLiveEnvelope)
        → P s
        → P (apply_public_envelopes log_ratio s ms animate)
    unfolding apply_public_envelopes
    apply_public_envelopes-keeps s ms h =
        let r = reduce_messages ms animate (start_reduction s) in
        k.routed r.next r.accepted_pulses (reduce_messages-keeps ms (start_reduction s) h)

  module _ (k : Keeps log_ratio false P) where
    note_event-keeps :
        (o : Option EnvelopeBody) (e : PublicEvent) (s : AppState) → P s → P (note_event o e s)
    note_event-keeps none e s h = k.latest s (some e.seq) h
    note_event-keeps (some b) e s h = h

    note_unknown-keeps : (es : List PublicEvent) (s : AppState) → P s → P (note_unknown es s)
    unfolding note_unknown
    note_unknown-keeps [] s h = h
    note_unknown-keeps (e ∷ es) s h =
        note_unknown-keeps es (note_event (event_body e.payload) e s)
          (note_event-keeps (event_body e.payload) e s h)

    pub apply_public_events-keeps :
        (s : AppState) (es : List PublicEvent) → P s → P (apply_public_events log_ratio s es)
    unfolding apply_public_events
    apply_public_events-keeps s es h =
        note_unknown-keeps es _ (apply_public_envelopes-keeps false k s (event_envelopes es) h)
