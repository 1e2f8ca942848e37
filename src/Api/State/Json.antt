-- ===== src/Api/State/Json.antt =====
-- The values that `JSON.parse` reads where `JSON.stringify` has written the public state of
-- web/src/api.ts. A field that is `undefined` is left out of the text, and reads as `undefined`.
use mc_carto_live.Prelude.{String, List, [], ◌∷◌}
use mc_carto_live.Prelude.JsValue.{
  Value, Fields, boolean, number, string, array, object, no_values, values, no_fields, field,
  of_option, of_list,
}
use mc_carto_live.Types.{
  NodeRole, companion, repeater, room_server, sensor, unknown, PublicAnimationState, observer,
  unmapped, PublicResolutionBucket, routed, observer_only, unresolved_path, missing_location,
  rf_gated, distance_gated, not_map_safe,
}
use mc_carto_live.Api.Data.{
  PublicNode, PublicRouteEndpoint, PublicRouteSegment, PublicRoute, PublicMessageAnchor,
  PublicObserverLocation, PublicRoutePulse, PublicActivity, Bounds, PublicMapConfig, PublicStats,
  PublicLiveState, ReplayOptions, ActivityKind, AnimationStyle, comet, pulse, minimal,
}

abbrev pub role_name : NodeRole → String
role_name companion = "companion"
role_name repeater = "repeater"
role_name room_server = "room_server"
role_name sensor = "sensor"
role_name unknown = "unknown"

abbrev pub animation_state_name : PublicAnimationState → String
animation_state_name PublicAnimationState.route = "route"
animation_state_name observer = "observer"
animation_state_name unmapped = "unmapped"

abbrev pub resolution_bucket_name : PublicResolutionBucket → String
resolution_bucket_name routed = "routed"
resolution_bucket_name observer_only = "observer_only"
resolution_bucket_name unresolved_path = "unresolved_path"
resolution_bucket_name missing_location = "missing_location"
resolution_bucket_name rf_gated = "rf_gated"
resolution_bucket_name distance_gated = "distance_gated"
resolution_bucket_name not_map_safe = "not_map_safe"

abbrev pub activity_kind_name : ActivityKind → String
activity_kind_name ActivityKind.packet = "packet"
activity_kind_name ActivityKind.route = "route"

abbrev pub animation_style_name : AnimationStyle → String
animation_style_name comet = "comet"
animation_style_name pulse = "pulse"
animation_style_name minimal = "minimal"

module _ {N : Type 0} where
  abbrev pub strings : List String → Value N
  strings xs = array (of_list string xs)

  abbrev pub fields_of : {A : Type 0} → (A → Value N) → List (String × A) → Fields N
  fields_of f [] = no_fields
  fields_of f ((k, a) ∷ es) = field k (f a) (fields_of f es)

  abbrev pub json_counts : List (String × N) → Value N
  json_counts es = object (fields_of number es)

  abbrev pub json_buckets : List (String × List (String × N)) → Value N
  json_buckets es = object (fields_of json_counts es)

  abbrev pub json_pair : N × N → Value N
  json_pair (a, b) = array (values (number a) (values (number b) no_values))

  unfoldable pub json_endpoint : PublicRouteEndpoint N → Value N
  json_endpoint x = object (
      field "nodeId" (string x.node_id) (
        field "label" (string x.label) (
          field "lat" (number x.lat) (
            field "lng" (number x.lng)
              (field "pathHash3" (of_option string x.path_hash3) (no_fields))))))

  unfoldable pub json_anchor : PublicMessageAnchor N → Value N
  json_anchor x = object (
      field "kind" (string x.kind) (
        field "nodeId" (of_option string x.node_id) (
          field "label" (string x.label)
            (field "lat" (number x.lat) (field "lng" (number x.lng) (no_fields))))))

  unfoldable pub json_location : PublicObserverLocation N → Value N
  json_location x = object (
      field "label" (string x.label) (
        field "iata" (of_option string x.iata) (
          field "region" (of_option string x.region)
            (field "lat" (number x.lat) (field "lng" (number x.lng) (no_fields))))))

  unfoldable pub json_segment : PublicRouteSegment N → Value N
  json_segment x = object (
      field "routeId" (string x.route_id) (
        field "from" (json_endpoint x.from) (
          field "to" (json_endpoint x.to) (field "distanceKm" (number x.distance_km) (no_fields)))))

  unfoldable pub json_route : PublicRoute N → Value N
  json_route x = object (
      field "id" (string x.id) (
        field "from" (json_endpoint x.from) (
          field "to" (json_endpoint x.to) (
            field "distanceKm" (number x.distance_km) (
              field "packetCount" (number x.packet_count) (
                field "lastHeard" (number x.last_heard) (
                  field "frequencyBucket" (number x.frequency_bucket)
                    (field "payloadTypeNames" (strings x.payload_type_names) (no_fields)))))))))

  unfoldable pub json_replay_options : ReplayOptions N → Value N
  json_replay_options x = object (
      field "force" (of_option boolean x.force) (
        field "travelDurationMs" (of_option number x.travel_duration_ms) (
          field "brightness" (of_option number x.brightness) (
            field "trailScale" (of_option number x.trail_scale) (
              field "animationStyle"
                (of_option (λ s. string (animation_style_name s)) x.animation_style)
                (no_fields))))))

  unfoldable pub json_node : PublicNode N → Value N
  json_node x = object (
      field "id" (string x.id) (
        field "label" (string x.label) (
          field "role" (string (role_name x.role)) (
            field "isObserver" (boolean x.is_observer) (
              field "latitude" (number x.latitude) (
                field "longitude" (number x.longitude) (
                  field "lastSeen" (number x.last_seen) (
                    field "firstSeen" (number x.first_seen) (
                      field "iatasHeardIn" (strings x.iatas_heard_in) (
                        field "regionsHeardIn" (strings x.regions_heard_in)
                          (field "activityCount" (number x.activity_count) (no_fields))))))))))))

  unfoldable pub json_pulse : PublicRoutePulse N → Value N
  json_pulse x = object (
      field "id" (string x.id) (
        field "iata" (of_option string x.iata) (
          field "region" (of_option string x.region) (
            field "payloadTypeName" (string x.payload_type_name) (
              field "messageSender" (of_option string x.message_sender) (
                field "messageText" (of_option string x.message_text) (
                  field "messageAnchor" (of_option json_anchor x.message_anchor) (
                    field "heardAt" (number x.heard_at) (
                      field "receivedAt" (number x.received_at) (
                        field "displayAt" (number x.display_at) (
                          field "seq" (number x.seq) (
                            field "segments" (array (of_list json_segment x.segments)) (
                              field "replayOptions" (of_option json_replay_options x.replay_options)
                                (no_fields))))))))))))))

  unfoldable pub json_activity : PublicActivity N → Value N
  json_activity x = object (
      field "id" (string x.id) (
        field "kind" (string (activity_kind_name x.kind)) (
          field "payloadTypeName" (string x.payload_type_name) (
            field "routeTypeName" (of_option string x.route_type_name) (
              field "iata" (of_option string x.iata) (
                field "region" (of_option string x.region) (
                  field "heardAt" (number x.heard_at) (
                    field "receivedAt" (number x.received_at) (
                      field "displayAt" (number x.display_at) (
                        field "seq" (number x.seq) (
                          field "hopCount" (number x.hop_count) (
                            field "hasRoute" (boolean x.has_route) (
                              field "animationState"
                                (string (animation_state_name x.animation_state))
                                (field "resolutionBucket"
                                  (string (resolution_bucket_name x.resolution_bucket))
                                  (field "observerLocation"
                                    (of_option json_location x.observer_location)
                                    (field "routeIds" (strings x.route_ids) (
                                      field "endpointLabels" (strings x.endpoint_labels) (
                                        field "messageSender" (of_option string x.message_sender) (
                                          field "messageText" (of_option string x.message_text) (
                                            field "messageAnchor"
                                              (of_option json_anchor x.message_anchor)
                                              (no_fields)))))))))))))))))))))

  unfoldable pub json_bounds : Bounds N → Value N
  json_bounds x = object (
      field "minLat" (number x.min_lat) (
        field "maxLat" (number x.max_lat)
          (field "minLng" (number x.min_lng) (field "maxLng" (number x.max_lng) (no_fields)))))

  unfoldable pub json_map_config : PublicMapConfig N → Value N
  json_map_config x = object (
      field "regionPreset" (of_option string x.region_preset) (
        field "defaultRegion" (of_option string x.default_region) (
          field "defaultCenter" (of_option json_pair x.default_center) (
            field "defaultZoom" (of_option number x.default_zoom)
              (field "bounds" (of_option json_bounds x.bounds) (no_fields))))))

  unfoldable pub json_stats : PublicStats N → Value N
  json_stats x = object (
      field "packets" (number x.packets) (
        field "activeNodes" (number x.active_nodes) (
          field "activeRoutes" (number x.active_routes) (
            field "mqttConnected" (boolean x.mqtt_connected) (
              field "mqttMessages" (number x.mqtt_messages) (
                field "wsClients" (number x.ws_clients) (
                  field "serverTime" (number x.server_time) (
                    field "latestSeq" (of_option number x.latest_seq) (
                      field "resolutionBuckets" (of_option json_buckets x.resolution_buckets) (
                        field "excludedIatas" (of_option json_counts x.excluded_iatas) (
                          field "excludedRegions" (of_option json_counts x.excluded_regions)
                            (no_fields))))))))))))

  unfoldable pub json_state : PublicLiveState N → Value N
  json_state x = object (
      field "serverTime" (number x.server_time) (
        field "map" (of_option json_map_config x.map) (
          field "nodes" (array (of_list json_node x.nodes)) (
            field "routes" (array (of_list json_route x.routes)) (
              field "recentPulses" (array (of_list json_pulse x.recent_pulses)) (
                field "recentActivity" (array (of_list json_activity x.recent_activity))
                  (field "stats" (json_stats x.stats) (no_fields))))))))
