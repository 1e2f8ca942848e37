-- ===== src/Api/State.antt =====
-- The sanitizers of web/src/api.ts for the public state and what it is made of. `now` is
-- `Date.now()`, and `lower` is `toLowerCase`.
pub mod Json
pub mod Sane
pub mod Back
pub mod Made
use mc_carto_live.Prelude.{
  String, Bool, true, false, not, ◌||◌, Option, none, some, List, [], ◌∷◌, if◌then◌else◌,
}
use mc_carto_live.Prelude.JsString.{is_empty}
use mc_carto_live.Prelude.JsValue.{
  JsNumbers, Value, Values, array, boolean, values, no_values, get, is_object, is_true,
}
use mc_carto_live.Api.Data.{
  PublicNode, PublicRouteEndpoint, PublicRouteSegment, PublicRoute, PublicMessageAnchor,
  PublicObserverLocation, PublicRoutePulse, PublicActivity, Bounds, PublicMapConfig, PublicStats,
  PublicLiveState, ReplayOptions,
}
use mc_carto_live.Api.Scalars.{
  sanitize_string, sanitize_string_or_undefined, sanitize_number, sanitize_optional_number,
  safe_string_list, sanitize_list, sanitize_string_number_map, sanitize_nested_number_map,
  sanitize_activity_kind, sanitize_animation_state, sanitize_resolution_bucket, normalize_node_role,
  choose, animation_styles,
}
use mc_carto_live.Api.Places.{
  sanitize_public_route_endpoint, sanitize_public_message_anchor, sanitize_public_observer_location,
  with_ends, sanitize_public_state_segment, sanitize_public_state_route,
}

module _ {N : Type 0} (js : JsNumbers N) where
  -- `next.force === true || next.force === false ? next.force : undefined`
  abbrev pub boolean_or_undefined : Value N → Option Bool
  boolean_or_undefined (boolean b) = some b
  boolean_or_undefined value = none

  unfoldable pub sanitize_route_replay_options : Value N → Option (ReplayOptions N)
  sanitize_route_replay_options value =
      if is_object value
      then some (record {
        force = boolean_or_undefined (get "force" value);
        travel_duration_ms = sanitize_optional_number js (get "travelDurationMs" value);
        brightness = sanitize_optional_number js (get "brightness" value);
        trail_scale = sanitize_optional_number js (get "trailScale" value);
        animation_style =
            choose (sanitize_string js (get "animationStyle" value) "") animation_styles;
      })
      else none

  unfoldable pub sanitize_public_state_node :
      (String → String) → N → Value N → Option (PublicNode N)
  sanitize_public_state_node lower now value =
      let id = sanitize_string js (get "id" value) "" in
      if not (is_object value) || is_empty id
      then none
      else some (record {
        id = id;
        label = sanitize_string js (get "label" value) id;
        role = normalize_node_role js lower (get "role" value);
        is_observer = is_true (get "isObserver" value);
        latitude = sanitize_number js (get "latitude" value) (js.numeral 0);
        longitude = sanitize_number js (get "longitude" value) (js.numeral 0);
        last_seen = sanitize_number js (get "lastSeen" value) now;
        first_seen = sanitize_number js (get "firstSeen" value) (js.numeral 0);
        iatas_heard_in = safe_string_list js (get "iatasHeardIn" value);
        regions_heard_in = safe_string_list js (get "regionsHeardIn" value);
        activity_count = sanitize_number js (get "activityCount" value) (js.numeral 0);
      })

  unfoldable pub sanitize_public_state_pulse : N → Value N → Option (PublicRoutePulse N)
  sanitize_public_state_pulse now value =
      let id = sanitize_string js (get "id" value) "" in
      let heard_at = sanitize_number js (get "heardAt" value) now in
      if not (is_object value) || is_empty id
      then none
      else some (record {
        id = id;
        iata = sanitize_string_or_undefined js (get "iata" value);
        region = sanitize_string_or_undefined js (get "region" value);
        payload_type_name = sanitize_string js (get "payloadTypeName" value) "Message";
        message_sender = sanitize_string_or_undefined js (get "messageSender" value);
        message_text = sanitize_string_or_undefined js (get "messageText" value);
        message_anchor = sanitize_public_message_anchor js (get "messageAnchor" value);
        heard_at = heard_at;
        received_at = sanitize_number js (get "receivedAt" value) heard_at;
        display_at = sanitize_number js (get "displayAt" value) heard_at;
        seq = sanitize_number js (get "seq" value) (js.numeral 0);
        segments = sanitize_list js (sanitize_public_state_segment js) (get "segments" value);
        replay_options = sanitize_route_replay_options (get "replayOptions" value);
      })

  unfoldable pub sanitize_public_state_activity : N → Value N → Option (PublicActivity N)
  sanitize_public_state_activity now value =
      let id = sanitize_string js (get "id" value) "" in
      let heard_at = sanitize_number js (get "heardAt" value) now in
      if not (is_object value) || is_empty id
      then none
      else some (record {
        id = id;
        kind = sanitize_activity_kind js (get "kind" value);
        payload_type_name = sanitize_string js (get "payloadTypeName" value) "Message";
        route_type_name = sanitize_string_or_undefined js (get "routeTypeName" value);
        iata = sanitize_string_or_undefined js (get "iata" value);
        region = sanitize_string_or_undefined js (get "region" value);
        heard_at = heard_at;
        received_at = sanitize_number js (get "receivedAt" value) heard_at;
        display_at = sanitize_number js (get "displayAt" value) heard_at;
        seq = sanitize_number js (get "seq" value) (js.numeral 0);
        hop_count = sanitize_number js (get "hopCount" value) (js.numeral 0);
        has_route = is_true (get "hasRoute" value);
        animation_state = sanitize_animation_state js (get "animationState" value);
        resolution_bucket = sanitize_resolution_bucket js (get "resolutionBucket" value);
        observer_location = sanitize_public_observer_location js (get "observerLocation" value);
        route_ids = safe_string_list js (get "routeIds" value);
        endpoint_labels = safe_string_list js (get "endpointLabels" value);
        message_sender = sanitize_string_or_undefined js (get "messageSender" value);
        message_text = sanitize_string_or_undefined js (get "messageText" value);
        message_anchor = sanitize_public_message_anchor js (get "messageAnchor" value);
      })

  unfoldable pub sanitize_numeric_tuple : Value N → Option (N × N)
  sanitize_numeric_tuple (array (values lat (values lng rest))) =
      some (sanitize_number js lat (js.numeral 0), sanitize_number js lng (js.numeral 0))
  sanitize_numeric_tuple value = none

  unfoldable pub sanitize_public_bounds : Value N → Option (Bounds N)
  sanitize_public_bounds value =
      if is_object value
      then some (record {
        min_lat = sanitize_number js (get "minLat" value) (js.numeral 0);
        max_lat = sanitize_number js (get "maxLat" value) (js.numeral 0);
        min_lng = sanitize_number js (get "minLng" value) (js.numeral 0);
        max_lng = sanitize_number js (get "maxLng" value) (js.numeral 0);
      })
      else none

  unfoldable pub sanitize_public_map_config : Value N → Option (PublicMapConfig N)
  sanitize_public_map_config value =
      if is_object value
      then some (record {
        region_preset = sanitize_string_or_undefined js (get "regionPreset" value);
        default_region = sanitize_string_or_undefined js (get "defaultRegion" value);
        default_center = sanitize_numeric_tuple (get "defaultCenter" value);
        default_zoom = sanitize_optional_number js (get "defaultZoom" value);
        bounds = sanitize_public_bounds (get "bounds" value);
      })
      else none

  unfoldable pub default_public_stats : PublicStats N
  default_public_stats = record {
    packets = js.numeral 0;
    active_nodes = js.numeral 0;
    active_routes = js.numeral 0;
    mqtt_connected = false;
    mqtt_messages = js.numeral 0;
    ws_clients = js.numeral 0;
    server_time = js.numeral 0;
    latest_seq = none;
    resolution_buckets = none;
    excluded_iatas = none;
    excluded_regions = none;
  }

  unfoldable pub sanitize_public_stats : N → Value N → PublicStats N
  unfolding default_public_stats
  sanitize_public_stats now value =
      if is_object value
      then record {
        packets = sanitize_number js (get "packets" value) (js.numeral 0);
        active_nodes = sanitize_number js (get "activeNodes" value) (js.numeral 0);
        active_routes = sanitize_number js (get "activeRoutes" value) (js.numeral 0);
        mqtt_connected = is_true (get "mqttConnected" value);
        mqtt_messages = sanitize_number js (get "mqttMessages" value) (js.numeral 0);
        ws_clients = sanitize_number js (get "wsClients" value) (js.numeral 0);
        server_time = sanitize_number js (get "serverTime" value) now;
        latest_seq = sanitize_optional_number js (get "latestSeq" value);
        resolution_buckets = sanitize_nested_number_map js (get "resolutionBuckets" value);
        excluded_iatas = sanitize_string_number_map js (get "excludedIatas" value);
        excluded_regions = sanitize_string_number_map js (get "excludedRegions" value);
      }
      else default_public_stats

  unfoldable pub sanitize_public_state : (String → String) → N → Value N → PublicLiveState N
  unfolding sanitize_public_stats
  sanitize_public_state lower now value = record {
    server_time = sanitize_number js (get "serverTime" value) now;
    map = sanitize_public_map_config (get "map" value);
    nodes = sanitize_list js (sanitize_public_state_node lower now) (get "nodes" value);
    routes = sanitize_list js (sanitize_public_state_route js) (get "routes" value);
    recent_pulses = sanitize_list js (sanitize_public_state_pulse now) (get "recentPulses" value);
    recent_activity =
        sanitize_list js (sanitize_public_state_activity now) (get "recentActivity" value);
    stats = sanitize_public_stats now (get "stats" value);
  }
