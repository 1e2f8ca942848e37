-- ===== src/Tests/Data.antt =====
-- Two routes, a few pulses, packets, nodes and envelopes for the tests.
use mathlib.Core.Option
use mc_carto_live.Prelude.{ℕ, ◌*◌, min, false, none, some, List, [], ◌∷◌, String}
use mc_carto_live.Prelude.Int.{pos, int}
use mc_carto_live.Types.{
  repeater, PublicNode, PublicRouteEndpoint, PublicRouteSegment, PublicRoute, PublicActivity,
  PublicRoutePulse, observer, observer_only, PublicLiveState, EnvelopeBody, hello, node_update,
  activity, route_pulse, PublicLiveEnvelope, PublicEvent, activity_data, route_pulse_data,
  unknown_data,
}
use mc_carto_live.Live.Wire.{Wire}
use mc_carto_live.State.Model.{AppState, empty_state}

abbrev pub place : String → PublicRouteEndpoint
place name = record { node_id = name; label = name; lat = pos 45; lng = pos 75; path_hash3 = none }

abbrev pub segment_ab : PublicRouteSegment
segment_ab = record { route_id = "ab"; from = place "a"; to = place "b"; distance_km = 12 }

abbrev pub segment_bc : PublicRouteSegment
segment_bc = record { route_id = "bc"; from = place "b"; to = place "c"; distance_km = 30 }

abbrev pub route_ab : PublicRoute
route_ab = record {
  id = "ab";
  from = place "a";
  to = place "b";
  distance_km = 12;
  packet_count = 3;
  last_heard = 1000;
  frequency_bucket = 2;
  payload_type_names = "ADVERT" ∷ [];
}

abbrev pub pulse : String → ℕ → List PublicRouteSegment → PublicRoutePulse
pulse id heard_at segments = record {
  id = id;
  iata = none;
  region = none;
  payload_type_name = "TEXT";
  message_sender = none;
  message_text = none;
  message_anchor = none;
  heard_at = heard_at;
  received_at = none;
  display_at = none;
  seq = none;
  segments = segments;
}

abbrev pub packet : String → ℕ → PublicActivity
packet id heard_at = record {
  id = id;
  kind = "packet";
  payload_type_name = "TEXT";
  route_type_name = none;
  iata = none;
  region = none;
  heard_at = heard_at;
  received_at = none;
  display_at = none;
  seq = none;
  hop_count = 1;
  has_route = false;
  animation_state = observer;
  resolution_bucket = observer_only;
  observer_location =
      some (record { label = "o"; iata = none; region = none; lat = pos 45; lng = pos 75 });
  route_ids = none;
  endpoint_labels = none;
  message_sender = none;
  message_text = none;
  message_anchor = none;
}

abbrev pub node : String → PublicNode
node id = record {
  seq = none;
  id = id;
  label = id;
  role = repeater;
  is_observer = none;
  latitude = pos 45;
  longitude = pos 75;
  last_seen = 1000;
  first_seen = 500;
  iatas_heard_in = [];
  regions_heard_in = none;
  activity_count = 1;
}

abbrev pub envelope : ℕ → EnvelopeBody → PublicLiveEnvelope
envelope n body = record {
  seq = some n;
  latest_seq = none;
  server_time = some (1000 * n);
  received_at = none;
  display_at = none;
  body = body;
}

-- An envelope with a pulse over both routes, one with a packet, one with a node, a hello.
abbrev pub live_batch : List PublicLiveEnvelope
live_batch =
    envelope 4 (route_pulse (pulse "p" 4000 (segment_ab ∷ segment_bc ∷ segment_ab ∷ [])))
    ∷ envelope 5 (activity (packet "x" 5000))
    ∷ envelope 6 (node_update (node "a"))
    ∷ envelope 6 hello
    ∷ []

-- They come out of order.
abbrev pub queue : List PublicLiveEnvelope
queue = envelope 9 hello ∷ envelope 7 hello ∷ envelope 8 (node_update (node "b")) ∷ []

abbrev pub live_wire : Wire PublicLiveEnvelope
live_wire = record {
  seq = λ m. Option.map (λ n. int (pos n)) m.seq;
  received_at = λ m. m.received_at;
  server_time = λ m. m.server_time;
  display_at = λ m. m.display_at;
}

abbrev pub app : AppState
app = record empty_state {
  nodes = node "a" ∷ node "b" ∷ [];
  routes = route_ab ∷ [];
  server_time = 3000;
  latest_seq = 3;
  route_index = ("ab", 0) ∷ [];
  route_max_packet_count = 3;
}

abbrev pub snapshot : PublicLiveState
snapshot = record {
  server_time = 9000;
  stats = none;
  nodes = node "b" ∷ node "c" ∷ [];
  routes = record route_ab { id = "bc" } ∷ route_ab ∷ [];
  recent_pulses = [];
  recent_activity = [];
}

abbrev pub stored : List PublicEvent
stored =
    record { seq = 5; at = 5000; received_at = none; payload = activity_data (packet "x" 5000) }
    ∷ record { seq = 6; at = 6000; received_at = none; payload = unknown_data }
    ∷ record {
      seq = 7;
      at = 7000;
      received_at = none;
      payload = route_pulse_data (pulse "p" 7000 (segment_bc ∷ []));
    }
    ∷ []

abbrev pub log_ratio : ℕ → ℕ → ℕ
log_ratio count max_count = min 4 count
