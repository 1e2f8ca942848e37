-- ===== src/State/Reduce.antt =====
-- The reducer of web/src/state.ts: `applyPublicEnvelopes` and what it calls. The duration that it
-- reports to the diagnostics is left out. `log_ratio` is as in State/Buckets.antt.
pub mod Invariants
pub mod Monotone
pub mod Bounds
pub mod Motion
pub mod Routing
pub mod Replay
use mc_carto_live.Prelude.{
  ℕ, suc, ◌+◌, ◌≤◌, max, not, ite, Bool, true, false, ◌&&◌, ◌||◌, Option, none, some, List, [], ◌∷◌,
  ◌++◌, map, String, string_discrete, ◌⁇◌, ◌<|>◌, if◌then◌else◌, length, take, filter, any,
}
use mathlib.Core.Option
use mc_carto_live.Prelude.JsSet
use mc_carto_live.Types.{
  PublicNode, PublicActivity, PublicRoutePulse, PublicLiveEnvelope, EnvelopeBody, hello, pong,
  lagged, node_update, activity, route_pulse, unknown_event, unknown_type, PublicStats, PublicEvent,
  PublicEventData, activity_data, route_pulse_data, node_update_data, unknown_data,
}
use mc_carto_live.State.Model.{
  AppState, no_patch, refresh_stats, with_latest_seq, remember_seq, is_seen,
}
use mc_carto_live.State.Traces.{add_route_trace_hits, add_observer_burst, is_packet_activity}
use mc_carto_live.State.Routes.{upsert_pulse_routes_batch, RouteBatchUpdate}

-- `withEnvelopeTiming`, for its two kinds of data. `receivedAt ?? data.displayAt` is the display time.
abbrev pub envelope_received_at : Option ℕ → PublicLiveEnvelope → Option ℕ
envelope_received_at data_received_at message =
    message.received_at <|> message.server_time <|> data_received_at

abbrev pub pulse_with_timing : PublicRoutePulse → PublicLiveEnvelope → PublicRoutePulse
pulse_with_timing pulse message = record pulse {
  received_at = envelope_received_at pulse.received_at message;
  display_at = envelope_received_at pulse.received_at message <|> pulse.display_at;
  seq = message.seq <|> pulse.seq;
}

abbrev pub activity_with_timing : PublicActivity → PublicLiveEnvelope → PublicActivity
activity_with_timing item message = record item {
  received_at = envelope_received_at item.received_at message;
  display_at = envelope_received_at item.received_at message <|> item.display_at;
  seq = message.seq <|> item.seq;
}

-- `message.latestSeq ?? message.seq`, and the same with `?? state.latestSeq`.
abbrev pub reported_seq : PublicLiveEnvelope → Option ℕ
reported_seq message = message.latest_seq <|> message.seq

abbrev pub reported_or_known : PublicLiveEnvelope → AppState → Option ℕ
reported_or_known message state = message.latest_seq <|> message.seq <|> some state.latest_seq

-- `mark(next)`
unfoldable pub mark : PublicLiveEnvelope → AppState → AppState
unfolding with_latest_seq remember_seq
mark message next = remember_seq (with_latest_seq next (reported_or_known message next)) message.seq

-- The state with the node in front, in place of an older one with its id.
abbrev pub with_node : AppState → PublicNode → AppState
with_node state node =
    let nodes =
      node ∷ filter (λ n. not (ite (string_discrete n.id node.id) true false)) state.nodes in
    record state {
      nodes = nodes;
      stats = refresh_stats state.stats (record no_patch { active_nodes = some (length nodes) });
    }

unfoldable pub apply_node_update : AppState → PublicLiveEnvelope → PublicNode → AppState
unfolding mark
apply_node_update state message node = mark message (with_node state node)

-- `state.stats?.packets`
abbrev pub stats_packets : AppState → Option ℕ
stats_packets state = Option.map (λ (s : PublicStats). s.packets) state.stats

abbrev pub stats_server_time : AppState → ℕ
stats_server_time state = Option.map (λ (s : PublicStats). s.server_time) state.stats ⁇ 0

abbrev pub has_activity : String → List PublicActivity → Bool
has_activity id items = any (λ a. ite (string_discrete a.id id) true false) items

-- The state with an activity that is new.
abbrev pub with_activity : AppState → PublicLiveEnvelope → PublicActivity → Bool → AppState
with_activity state message item animate =
    let packets =
      if is_packet_activity item
      then some ((stats_packets state ⁇ 0) + 1)
      else stats_packets state in
    let server_time = max state.server_time (message.server_time ⁇ item.heard_at) in
    record state {
      activity = take 240 (item ∷ state.activity);
      observer_bursts =
          if animate
          then add_observer_burst state.observer_bursts item server_time
          else state.observer_bursts;
      stats = refresh_stats state.stats (record no_patch {
        packets = packets;
        server_time = some (max (stats_server_time state) server_time);
      });
      server_time = server_time;
    }

unfoldable pub apply_activity : AppState → PublicLiveEnvelope → PublicActivity → Bool → AppState
unfolding mark
apply_activity state message payload animate =
    let item = activity_with_timing payload message in
    if has_activity item.id state.activity
    then mark message state
    else mark message (with_activity state message item animate)

-- The duplicate test of events with a sequence number, and then the event.
abbrev pub unless_seen : AppState → PublicLiveEnvelope → AppState → AppState
unless_seen state message next =
    if is_seen message.seq state.seen_seqs
    then with_latest_seq state (reported_seq message)
    else next

unfoldable pub apply_non_route_envelope :
    AppState → PublicLiveEnvelope → Bool → EnvelopeBody → AppState
unfolding apply_node_update apply_activity is_seen
apply_non_route_envelope state message animate hello =
    with_latest_seq state (reported_or_known message state)
apply_non_route_envelope state message animate pong =
    with_latest_seq state (reported_or_known message state)
apply_non_route_envelope state message animate lagged =
    with_latest_seq state (reported_or_known message state)
apply_non_route_envelope state message animate (node_update node) =
    unless_seen state message (apply_node_update state message node)
apply_non_route_envelope state message animate (activity item) =
    unless_seen state message (apply_activity state message item animate)
apply_non_route_envelope state message animate (route_pulse pulse) = unless_seen state message state
apply_non_route_envelope state message animate unknown_event = unless_seen state message state
apply_non_route_envelope state message animate unknown_type = state

-- The variables of the loop over the messages.
pub record Reduction : Type 0 where
  pub next : AppState
  pub pulse_ids : List String
  pub accepted_pulses : List PublicRoutePulse

-- `[pulse, ...next.pulses].slice(0, 2_000)` and the traces, for a pulse that is new.
abbrev pub accept_pulse : AppState → PublicLiveEnvelope → PublicRoutePulse → Bool → AppState
accept_pulse next message pulse animate =
    let server_time = max next.server_time (message.server_time ⁇ pulse.heard_at) in
    record next {
      pulses = if animate then take 2000 (pulse ∷ next.pulses) else next.pulses;
      route_traces = add_route_trace_hits next.route_traces pulse server_time;
      server_time = server_time;
    }

-- A pulse whose id is known is not shown again, but its sequence number is noted.
unfoldable pub apply_pulse : Reduction → PublicLiveEnvelope → PublicRoutePulse → Bool → Reduction
unfolding with_latest_seq remember_seq mark
apply_pulse r message pulse animate =
    if JsSet.has pulse.id r.pulse_ids
    then record r {
      next = remember_seq (with_latest_seq r.next (reported_seq message)) message.seq;
    }
    else record {
      next = mark message (accept_pulse r.next message pulse animate);
      pulse_ids = JsSet.add pulse.id r.pulse_ids;
      accepted_pulses = r.accepted_pulses ++ pulse ∷ [];
    }

unfoldable pub apply_route_pulse :
    Reduction → PublicLiveEnvelope → PublicRoutePulse → Bool → Reduction
unfolding apply_pulse is_seen
apply_route_pulse r message payload animate =
    if is_seen message.seq r.next.seen_seqs
    then record r { next = with_latest_seq r.next (reported_seq message) }
    else apply_pulse r message (pulse_with_timing payload message) animate

unfoldable pub apply_message : Reduction → PublicLiveEnvelope → Bool → EnvelopeBody → Reduction
unfolding apply_route_pulse apply_non_route_envelope
apply_message r message animate (route_pulse pulse) = apply_route_pulse r message pulse animate
apply_message r message animate body = record r {
  next = apply_non_route_envelope r.next message animate body;
}

unfoldable pub reduce_messages : List PublicLiveEnvelope → Bool → Reduction → Reduction
unfolding apply_message
reduce_messages [] animate r = r
reduce_messages (m ∷ ms) animate r = reduce_messages ms animate (apply_message r m animate m.body)

abbrev pub start_reduction : AppState → Reduction
start_reduction state = record {
  next = state;
  pulse_ids = JsSet.of_list (map (λ (p : PublicRoutePulse). p.id) state.pulses);
  accepted_pulses = [];
}

abbrev pub one_if : Bool → ℕ
one_if b = if b then 1 else 0

-- The types of event that the reducer knows.
abbrev pub event_body : PublicEventData → Option EnvelopeBody
event_body (activity_data a) = some (activity a)
event_body (route_pulse_data p) = some (route_pulse p)
event_body (node_update_data n) = some (node_update n)
event_body unknown_data = none

-- The envelope of a stored event. Its display time is its receipt time too.
abbrev pub event_envelope : PublicEvent → EnvelopeBody → PublicLiveEnvelope
event_envelope event body = record {
  seq = some event.seq;
  latest_seq = some event.seq;
  server_time = some (event.received_at ⁇ event.at);
  received_at = some (event.received_at ⁇ event.at);
  display_at = some (event.received_at ⁇ event.at);
  body = body;
}

abbrev pub envelope_of : PublicEvent → Option EnvelopeBody → List PublicLiveEnvelope
envelope_of event none = []
envelope_of event (some body) = event_envelope event body ∷ []

-- The `filter` and the `map` of `applyPublicEvents`.
abbrev pub event_envelopes : List PublicEvent → List PublicLiveEnvelope
event_envelopes [] = []
event_envelopes (e ∷ es) = envelope_of e (event_body e.payload) ++ event_envelopes es

abbrev pub note_event : Option EnvelopeBody → PublicEvent → AppState → AppState
note_event none event next = with_latest_seq next (some event.seq)
note_event (some body) event next = next

-- The sequence numbers of the events of unknown types.
unfoldable pub note_unknown : List PublicEvent → AppState → AppState
note_unknown [] next = next
note_unknown (e ∷ es) next = note_unknown es (note_event (event_body e.payload) e next)

module _ (log_ratio : ℕ → ℕ → ℕ) where
  -- The state with the outcome of the route update.
  abbrev pub with_routes : AppState → RouteBatchUpdate → AppState
  with_routes next u = record next {
    routes = u.routes;
    route_index = u.route_index;
    route_max_packet_count = u.max_packet_count;
    route_topology_revision = next.route_topology_revision + one_if u.topology_changed;
    route_traffic_revision = next.route_traffic_revision + 1;
    route_visual_revision = next.route_visual_revision + one_if u.topology_changed;
    stats = refresh_stats next.stats (record no_patch {
      active_routes = some (length u.routes);
      server_time = some (max (stats_server_time next) next.server_time);
    });
  }

  unfoldable pub finish_reduction : AppState → List PublicRoutePulse → AppState
  finish_reduction next [] = next
  finish_reduction next (p ∷ ps) = with_routes next (
      upsert_pulse_routes_batch log_ratio next.routes next.route_index next.route_max_packet_count
        (p ∷ ps))

  unfoldable pub apply_public_envelopes : AppState → List PublicLiveEnvelope → Bool → AppState
  unfolding reduce_messages finish_reduction
  apply_public_envelopes state messages animate =
      let r = reduce_messages messages animate (start_reduction state) in
      finish_reduction r.next r.accepted_pulses

  unfoldable pub apply_public_envelope : AppState → PublicLiveEnvelope → AppState
  apply_public_envelope state message = apply_public_envelopes state (message ∷ []) true

  unfoldable pub apply_public_event : AppState → PublicEvent → AppState
  apply_public_event state event = elim (event_body event.payload) [
    | none ↦ with_latest_seq state (some event.seq)
    | some body ↦ apply_public_envelopes state (event_envelope event body ∷ []) false
  ]

  unfoldable pub apply_public_events : AppState → List PublicEvent → AppState
  unfolding note_unknown
  apply_public_events state events =
      note_unknown events (apply_public_envelopes state (event_envelopes events) false)
