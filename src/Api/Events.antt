-- ===== src/Api/Events.antt =====
-- The sanitizers of web/src/api.ts for stored events, a viewport, and the bootstrap of the page. `now` is
-- `Date.now()`, and `lower` is `toLowerCase`. `health`, which is passed on as it is, is left out.
pub mod Sound
use mc_carto_live.Prelude.{
  ℕ, String, string_discrete, ite, Bool, true, false, not, ◌||◌, ◌&&◌, Option, none, some, List, [],
  ◌∷◌, if◌then◌else◌, map, take, length, ◌⁇◌, zero, suc,
}
use mc_carto_live.Prelude.JsString.{is_empty}
use mc_carto_live.Prelude.JsValue.{
  JsNumbers, Value, Values, undefined, null, boolean, number, infinity, string, array, object,
  values, no_values, get, is_object, is_true, coalesce,
}
use mc_carto_live.Api.Data.{
  PublicNode, PublicRoute, PublicRouteEndpoint, PublicRouteSegment, PublicMessageAnchor,
  PublicRoutePulse, PublicActivity, PublicMapConfig, PublicStats,
}
use mc_carto_live.Api.Scalars.{
  sanitize_string, sanitize_string_or_undefined, sanitize_number, sanitize_optional_number,
  safe_string_list, sanitize_list,
}
use mc_carto_live.Api.Places.{
  sanitize_public_route_endpoint, sanitize_public_message_anchor, sanitize_public_state_segment,
  sanitize_public_state_route, with_ends,
}
use mc_carto_live.Api.State.{
  sanitize_public_state_node, sanitize_public_state_pulse, sanitize_public_state_activity,
  sanitize_public_map_config, sanitize_public_stats,
}

pub data PublicEventData (N : Type 0) : Type 0 where
  activity : PublicActivity N → PublicEventData N
  route_pulse : PublicRoutePulse N → PublicEventData N
  node_update : PublicNode N → PublicEventData N
  other : Value N → PublicEventData N

pub record PublicEvent (N : Type 0) : Type 0 where
  pub seq : N
  pub type : String
  pub at : N
  pub received_at : Option N
  pub iata : Option String
  pub region : Option String
  pub payload_type_name : Option String
  pub message : Bool
  pub route_ids : List String
  pub node_ids : List String
  pub body : PublicEventData N

pub record PublicEventsResponse (N : Type 0) : Type 0 where
  pub server_time : N
  pub oldest_seq : N
  pub latest_seq : N
  pub reset_required : Bool
  pub events : List (PublicEvent N)
  pub next_cursor : Option String

pub record PublicMapCluster (N : Type 0) : Type 0 where
  pub id : String
  pub latitude : N
  pub longitude : N
  pub count : N
  pub activity_count : Option N
  pub last_seen : Option N
  pub region : Option String

pub record PublicViewportResponse (N : Type 0) : Type 0 where
  pub server_time : N
  pub latest_seq : Option N
  pub nodes : List (PublicNode N)
  pub routes : List (PublicRoute N)
  pub clusters : List (PublicMapCluster N)
  pub events : List (PublicEvent N)
  pub bbox : Option (List N)
  pub zoom : Option N
  pub includes : List String

pub record PublicBootstrapResponse (N : Type 0) : Type 0 where
  pub server_time : N
  pub map : Option (PublicMapConfig N)
  pub stats : PublicStats N
  pub latest_seq : N
  pub clusters : List (PublicMapCluster N)
  pub recent_activity : List (PublicActivity N)

-- What is made of a result, if there is one.
abbrev pub made : {A B : Type 0} → (A → B) → Option A → Option B
made f none = none
made f (some a) = some (f a)

module _ {N : Type 0} (js : JsNumbers N) where
  -- The data of an event of the type; none if they are refused.
  unfoldable pub sanitize_event_data :
      (String → String) → N → String → Value N → Option (PublicEventData N)
  sanitize_event_data lower now type value =
      ite (string_discrete type "activity")
        (made activity (sanitize_public_state_activity js now value))
        (ite (string_discrete type "routePulse")
          (made route_pulse (sanitize_public_state_pulse js now value))
          (ite (string_discrete type "nodeUpdate")
            (made node_update (sanitize_public_state_node js lower now value))
            (some (other value))))

  -- `{ ...base, type, data }`
  abbrev pub event_of : N → Value N → PublicEventData N → PublicEvent N
  event_of now value body =
      let seq = sanitize_number js (get "seq" value) (js.numeral 0) in
      let type = sanitize_string js (get "type" value) "" in
      record {
        seq = seq;
        type = type;
        at = sanitize_number js (get "at" value) now;
        received_at = sanitize_optional_number js (get "receivedAt" value);
        iata = sanitize_string_or_undefined js (get "iata" value);
        region = sanitize_string_or_undefined js (get "region" value);
        payload_type_name = sanitize_string_or_undefined js (get "payloadTypeName" value);
        message = is_true (get "message" value);
        route_ids = safe_string_list js (get "routeIds" value);
        node_ids = safe_string_list js (get "nodeIds" value);
        body = body;
      }

  unfoldable pub sanitize_public_event : (String → String) → N → Value N → Option (PublicEvent N)
  unfolding sanitize_event_data
  sanitize_public_event lower now value =
      let seq = sanitize_number js (get "seq" value) (js.numeral 0) in
      let type = sanitize_string js (get "type" value) "" in
      if not (is_object value) || js.le seq (js.numeral 0) || is_empty type
      then none
      else made (event_of now value) (sanitize_event_data lower now type (get "data" value))

  -- `events[0]?.seq ?? 0`
  abbrev pub first_seq : List (PublicEvent N) → N
  first_seq [] = js.numeral 0
  first_seq (event ∷ events) = event.seq

  -- `events.reduce((latest, event) => Math.max(latest, event.seq), latest)`
  unfoldable pub largest_seq : N → List (PublicEvent N) → N
  largest_seq latest [] = latest
  largest_seq latest (event ∷ events) = largest_seq (js.max latest event.seq) events

  unfoldable pub sanitize_public_events_response :
      (String → String) → N → Value N → PublicEventsResponse N
  unfolding sanitize_public_event largest_seq
  sanitize_public_events_response lower now value =
      let events = sanitize_list js (sanitize_public_event lower now) (get "events" value) in
      record {
        server_time = sanitize_number js (get "serverTime" value) now;
        oldest_seq = sanitize_number js (get "oldestSeq" value) (first_seq events);
        latest_seq = sanitize_number js (get "latestSeq" value) (largest_seq (js.numeral 0) events);
        reset_required = is_true (get "resetRequired" value);
        events = events;
        next_cursor = sanitize_string_or_undefined js (get "nextCursor" value);
      }

  unfoldable pub sanitize_public_map_cluster : Value N → Option (PublicMapCluster N)
  sanitize_public_map_cluster value =
      let id = sanitize_string js (get "id" value) "" in
      let count = sanitize_number js (get "count" value) (js.numeral 0) in
      if not (is_object value) || is_empty id
      then none
      else elim (sanitize_optional_number js (coalesce (get "latitude" value) (get "lat" value))) [
        | none ↦ none
        | some latitude ↦
            elim (sanitize_optional_number js
              (coalesce (get "longitude" value) (get "lng" value))) [
                | none ↦ none
                | some longitude ↦
                    if js.le count (js.numeral 0)
                    then none
                    else some (record {
                      id = id;
                      latitude = latitude;
                      longitude = longitude;
                      count = count;
                      activity_count = sanitize_optional_number js (get "activityCount" value);
                      last_seen = sanitize_optional_number js (get "lastSeen" value);
                      region = sanitize_string_or_undefined js (get "region" value);
                    })
              ]
      ]

  -- `value.map((item) => sanitizeNumber(item, 0))`
  abbrev pub number_items : Values N → List N
  number_items no_values = []
  number_items (values v vs) = sanitize_number js v (js.numeral 0) ∷ number_items vs

  unfoldable pub sanitize_bbox : Value N → Option (List N)
  sanitize_bbox (array vs) = some (take 4 (number_items vs))
  sanitize_bbox value = none

  unfoldable pub sanitize_public_viewport_response :
      (String → String) → N → Value N → PublicViewportResponse N
  unfolding sanitize_bbox sanitize_public_event
  sanitize_public_viewport_response lower now value = record {
    server_time = sanitize_number js (get "serverTime" value) now;
    latest_seq = sanitize_optional_number js (get "latestSeq" value);
    nodes = sanitize_list js (sanitize_public_state_node js lower now) (get "nodes" value);
    routes = sanitize_list js (sanitize_public_state_route js) (get "routes" value);
    clusters = sanitize_list js sanitize_public_map_cluster (get "clusters" value);
    events = sanitize_list js (sanitize_public_event lower now) (get "events" value);
    bbox = sanitize_bbox (get "bbox" value);
    zoom = sanitize_optional_number js (get "zoom" value);
    includes = safe_string_list js (get "includes" value);
  }

  unfoldable pub sanitize_public_bootstrap_response : N → Value N → PublicBootstrapResponse N
  sanitize_public_bootstrap_response now value = record {
    server_time = sanitize_number js (get "serverTime" value) now;
    map = sanitize_public_map_config js (get "map" value);
    stats = sanitize_public_stats js now (get "stats" value);
    latest_seq = sanitize_number js (get "latestSeq" value) (js.numeral 0);
    clusters = sanitize_list js sanitize_public_map_cluster (get "clusters" value);
    recent_activity =
        sanitize_list js (sanitize_public_state_activity js now) (get "recentActivity" value);
  }
