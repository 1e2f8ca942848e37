-- ===== src/Api/Places.antt =====
-- The sanitizers of web/src/api.ts for what a route, a message or an observer is placed at, and for the
-- segments and the routes between endpoints.
use mc_carto_live.Prelude.{not, ◌||◌, Option, none, some, if◌then◌else◌}
use mc_carto_live.Prelude.JsString.{is_empty}
use mc_carto_live.Prelude.JsValue.{JsNumbers, Value, get, is_object}
use mc_carto_live.Api.Data.{
  PublicRouteEndpoint, PublicRouteSegment, PublicRoute, PublicMessageAnchor, PublicObserverLocation,
}
use mc_carto_live.Api.Scalars.{
  sanitize_string, sanitize_string_or_undefined, sanitize_number, safe_string_list,
}

module _ {N : Type 0} (js : JsNumbers N) where
  unfoldable pub sanitize_public_route_endpoint : Value N → Option (PublicRouteEndpoint N)
  sanitize_public_route_endpoint value =
      let node_id = sanitize_string js (get "nodeId" value) "" in
      if not (is_object value) || is_empty node_id
      then none
      else some (record {
        node_id = node_id;
        label = sanitize_string js (get "label" value) node_id;
        lat = sanitize_number js (get "lat" value) (js.numeral 0);
        lng = sanitize_number js (get "lng" value) (js.numeral 0);
        path_hash3 = sanitize_string_or_undefined js (get "pathHash3" value);
      })

  unfoldable pub sanitize_public_message_anchor : Value N → Option (PublicMessageAnchor N)
  sanitize_public_message_anchor value =
      let label = sanitize_string js (get "label" value) "" in
      if not (is_object value) || is_empty label
      then none
      else some (record {
        kind = sanitize_string js (get "kind" value) "";
        node_id = sanitize_string_or_undefined js (get "nodeId" value);
        label = label;
        lat = sanitize_number js (get "lat" value) (js.numeral 0);
        lng = sanitize_number js (get "lng" value) (js.numeral 0);
      })

  unfoldable pub sanitize_public_observer_location : Value N → Option (PublicObserverLocation N)
  sanitize_public_observer_location value =
      let label = sanitize_string js (get "label" value) "" in
      if not (is_object value) || is_empty label
      then none
      else some (record {
        label = label;
        iata = sanitize_string_or_undefined js (get "iata" value);
        region = sanitize_string_or_undefined js (get "region" value);
        lat = sanitize_number js (get "lat" value) (js.numeral 0);
        lng = sanitize_number js (get "lng" value) (js.numeral 0);
      })

  -- Both endpoints, if both are there.
  abbrev pub with_ends :
      {A : Type 0} → (PublicRouteEndpoint N → PublicRouteEndpoint N → A) → Value N → Option A
  with_ends make value = elim (sanitize_public_route_endpoint (get "from" value)) [
    | none ↦ none
    | some from ↦ elim (sanitize_public_route_endpoint (get "to" value)) [
      | none ↦ none
      | some to ↦ some (make from to)
    ]
  ]

  unfoldable pub sanitize_public_state_segment : Value N → Option (PublicRouteSegment N)
  sanitize_public_state_segment value =
      let route_id = sanitize_string js (get "routeId" value) "" in
      if not (is_object value) || is_empty route_id
      then none
      else with_ends
          (λ start end. record {
            route_id = route_id;
            from = start;
            to = end;
            distance_km = sanitize_number js (get "distanceKm" value) (js.numeral 0);
          })
          value

  unfoldable pub sanitize_public_state_route : Value N → Option (PublicRoute N)
  sanitize_public_state_route value =
      let id = sanitize_string js (get "id" value) "" in
      if not (is_object value) || is_empty id
      then none
      else with_ends
          (λ start end. record {
            id = id;
            from = start;
            to = end;
            distance_km = sanitize_number js (get "distanceKm" value) (js.numeral 0);
            packet_count = sanitize_number js (get "packetCount" value) (js.numeral 0);
            last_heard = sanitize_number js (get "lastHeard" value) (js.numeral 0);
            frequency_bucket = sanitize_number js (get "frequencyBucket" value) (js.numeral 0);
            payload_type_names = safe_string_list js (get "payloadTypeNames" value);
          })
          value
