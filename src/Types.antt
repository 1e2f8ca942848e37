-- ===== src/Types.antt =====
-- web/src/types.ts: the public data that the server sends. Times, counts and sequence numbers are
-- natural numbers; a latitude or a longitude is an integer number of millionths of a degree, and a
-- distance a number of metres (the client only carries them here). Fields that no modelled code
-- reads or writes are left out of `PublicStats`, and `replayOptions` of a pulse.
use mc_carto_live.Prelude.{ℕ, String, Bool, Option, List}
use mc_carto_live.Prelude.Int.{ℤ}

pub data NodeRole : Type 0 where
  companion repeater room_server sensor unknown : NodeRole

pub record PublicNode : Type 0 where
  pub seq : Option ℕ
  pub id : String
  pub label : String
  pub role : NodeRole
  pub is_observer : Option Bool
  pub latitude : ℤ
  pub longitude : ℤ
  pub last_seen : ℕ
  pub first_seen : ℕ
  pub iatas_heard_in : List String
  pub regions_heard_in : Option (List String)
  pub activity_count : ℕ

pub record PublicRouteEndpoint : Type 0 where
  pub node_id : String
  pub label : String
  pub lat : ℤ
  pub lng : ℤ
  pub path_hash3 : Option String

pub record PublicRouteSegment : Type 0 where
  pub route_id : String
  pub from : PublicRouteEndpoint
  pub to : PublicRouteEndpoint
  pub distance_km : ℕ

pub record PublicRoute : Type 0 where
  pub id : String
  pub from : PublicRouteEndpoint
  pub to : PublicRouteEndpoint
  pub distance_km : ℕ
  pub packet_count : ℕ
  pub last_heard : ℕ
  pub frequency_bucket : ℕ
  pub payload_type_names : List String

pub data PublicAnimationState : Type 0 where
  route observer unmapped : PublicAnimationState

pub data PublicResolutionBucket : Type 0 where
  routed observer_only unresolved_path missing_location rf_gated distance_gated not_map_safe :
      PublicResolutionBucket

pub record PublicObserverLocation : Type 0 where
  pub label : String
  pub iata : Option String
  pub region : Option String
  pub lat : ℤ
  pub lng : ℤ

pub record PublicMessageAnchor : Type 0 where
  pub kind : String
  pub node_id : Option String
  pub label : String
  pub lat : ℤ
  pub lng : ℤ

pub record PublicActivity : Type 0 where
  pub id : String
  pub kind : String
  pub payload_type_name : String
  pub route_type_name : Option String
  pub iata : Option String
  pub region : Option String
  pub heard_at : ℕ
  pub received_at : Option ℕ
  pub display_at : Option ℕ
  pub seq : Option ℕ
  pub hop_count : ℕ
  pub has_route : Bool
  pub animation_state : PublicAnimationState
  pub resolution_bucket : PublicResolutionBucket
  pub observer_location : Option PublicObserverLocation
  pub route_ids : Option (List String)
  pub endpoint_labels : Option (List String)
  pub message_sender : Option String
  pub message_text : Option String
  pub message_anchor : Option PublicMessageAnchor

pub record PublicObserverBurst : Type 0 where
  pub id : String
  pub payload_type_name : String
  pub heard_at : ℕ
  pub received_at : Option ℕ
  pub display_at : Option ℕ
  pub seq : Option ℕ
  pub location : PublicObserverLocation
  pub message_sender : Option String
  pub message_text : Option String
  pub message_anchor : Option PublicMessageAnchor

pub record PublicRoutePulse : Type 0 where
  pub id : String
  pub iata : Option String
  pub region : Option String
  pub payload_type_name : String
  pub message_sender : Option String
  pub message_text : Option String
  pub message_anchor : Option PublicMessageAnchor
  pub heard_at : ℕ
  pub received_at : Option ℕ
  pub display_at : Option ℕ
  pub seq : Option ℕ
  pub segments : List PublicRouteSegment

pub record PublicStats : Type 0 where
  pub packets : ℕ
  pub active_nodes : ℕ
  pub active_routes : ℕ
  pub mqtt_connected : Bool
  pub mqtt_messages : ℕ
  pub ws_clients : ℕ
  pub server_time : ℕ
  pub latest_seq : Option ℕ

pub record PublicLiveState : Type 0 where
  pub server_time : ℕ
  pub stats : Option PublicStats
  pub nodes : List PublicNode
  pub routes : List PublicRoute
  pub recent_pulses : List PublicRoutePulse
  pub recent_activity : List PublicActivity

-- `type` and `event` of an envelope, with the payload. The last two are what the types rule out
-- and the code still meets with a `return state`.
pub data EnvelopeBody : Type 0 where
  hello pong lagged : EnvelopeBody
  node_update : PublicNode → EnvelopeBody
  activity : PublicActivity → EnvelopeBody
  route_pulse : PublicRoutePulse → EnvelopeBody
  unknown_event unknown_type : EnvelopeBody

pub record PublicLiveEnvelope : Type 0 where
  pub seq : Option ℕ
  pub latest_seq : Option ℕ
  pub server_time : Option ℕ
  pub received_at : Option ℕ
  pub display_at : Option ℕ
  pub body : EnvelopeBody

-- `type` and `data` of a stored event; `unknown_data` is any other type.
pub data PublicEventData : Type 0 where
  activity_data : PublicActivity → PublicEventData
  route_pulse_data : PublicRoutePulse → PublicEventData
  node_update_data : PublicNode → PublicEventData
  unknown_data : PublicEventData

pub record PublicEvent : Type 0 where
  pub seq : ℕ
  pub at : ℕ
  pub received_at : Option ℕ
  pub payload : PublicEventData
