-- ===== src/Api/Data.antt =====
-- What the sanitizers of web/src/api.ts give: the types of web/src/types.ts over any type of finite
-- numbers, since a response may hold any. `health`, an object that is passed on as it is, is left out.
use mc_carto_live.Prelude.{String, Bool, Option, List}
use mc_carto_live.Types.{NodeRole, PublicAnimationState, PublicResolutionBucket}

pub data AnimationStyle : Type 0 where
  comet pulse minimal : AnimationStyle

pub record ReplayOptions (N : Type 0) : Type 0 where
  pub force : Option Bool
  pub travel_duration_ms : Option N
  pub brightness : Option N
  pub trail_scale : Option N
  pub animation_style : Option AnimationStyle

pub record PublicNode (N : Type 0) : Type 0 where
  pub id : String
  pub label : String
  pub role : NodeRole
  pub is_observer : Bool
  pub latitude : N
  pub longitude : N
  pub last_seen : N
  pub first_seen : N
  pub iatas_heard_in : List String
  pub regions_heard_in : List String
  pub activity_count : N

pub record PublicRouteEndpoint (N : Type 0) : Type 0 where
  pub node_id : String
  pub label : String
  pub lat : N
  pub lng : N
  pub path_hash3 : Option String

pub record PublicRouteSegment (N : Type 0) : Type 0 where
  pub route_id : String
  pub from : PublicRouteEndpoint N
  pub to : PublicRouteEndpoint N
  pub distance_km : N

pub record PublicRoute (N : Type 0) : Type 0 where
  pub id : String
  pub from : PublicRouteEndpoint N
  pub to : PublicRouteEndpoint N
  pub distance_km : N
  pub packet_count : N
  pub last_heard : N
  pub frequency_bucket : N
  pub payload_type_names : List String

pub record PublicMessageAnchor (N : Type 0) : Type 0 where
  pub kind : String
  pub node_id : Option String
  pub label : String
  pub lat : N
  pub lng : N

pub record PublicObserverLocation (N : Type 0) : Type 0 where
  pub label : String
  pub iata : Option String
  pub region : Option String
  pub lat : N
  pub lng : N

pub record PublicRoutePulse (N : Type 0) : Type 0 where
  pub id : String
  pub iata : Option String
  pub region : Option String
  pub payload_type_name : String
  pub message_sender : Option String
  pub message_text : Option String
  pub message_anchor : Option (PublicMessageAnchor N)
  pub heard_at : N
  pub received_at : N
  pub display_at : N
  pub seq : N
  pub segments : List (PublicRouteSegment N)
  pub replay_options : Option (ReplayOptions N)

pub data ActivityKind : Type 0 where
  packet route : ActivityKind

pub record PublicActivity (N : Type 0) : Type 0 where
  pub id : String
  pub kind : ActivityKind
  pub payload_type_name : String
  pub route_type_name : Option String
  pub iata : Option String
  pub region : Option String
  pub heard_at : N
  pub received_at : N
  pub display_at : N
  pub seq : N
  pub hop_count : N
  pub has_route : Bool
  pub animation_state : PublicAnimationState
  pub resolution_bucket : PublicResolutionBucket
  pub observer_location : Option (PublicObserverLocation N)
  pub route_ids : List String
  pub endpoint_labels : List String
  pub message_sender : Option String
  pub message_text : Option String
  pub message_anchor : Option (PublicMessageAnchor N)

pub record Bounds (N : Type 0) : Type 0 where
  pub min_lat : N
  pub max_lat : N
  pub min_lng : N
  pub max_lng : N

pub record PublicMapConfig (N : Type 0) : Type 0 where
  pub region_preset : Option String
  pub default_region : Option String
  pub default_center : Option (N × N)
  pub default_zoom : Option N
  pub bounds : Option (Bounds N)

pub record PublicStats (N : Type 0) : Type 0 where
  pub packets : N
  pub active_nodes : N
  pub active_routes : N
  pub mqtt_connected : Bool
  pub mqtt_messages : N
  pub ws_clients : N
  pub server_time : N
  pub latest_seq : Option N
  pub resolution_buckets : Option (List (String × List (String × N)))
  pub excluded_iatas : Option (List (String × N))
  pub excluded_regions : Option (List (String × N))

pub record PublicLiveState (N : Type 0) : Type 0 where
  pub server_time : N
  pub map : Option (PublicMapConfig N)
  pub nodes : List (PublicNode N)
  pub routes : List (PublicRoute N)
  pub recent_pulses : List (PublicRoutePulse N)
  pub recent_activity : List (PublicActivity N)
  pub stats : PublicStats N
