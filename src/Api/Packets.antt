-- ===== src/Api/Packets.antt =====
-- The sanitizers of web/src/api.ts for the packet list. `now` is `Date.now()`.
use mc_carto_live.Prelude.{
  String, Bool, true, false, not, ◌||◌, ◌&&◌, Option, none, some, List, if◌then◌else◌, length,
}
use mc_carto_live.Prelude.JsString.{is_empty}
use mc_carto_live.Prelude.JsValue.{
  JsNumbers, Value, undefined, null, boolean, number, string, get, is_object, is_true,
}
use mc_carto_live.Api.Data.{PublicRouteEndpoint, PublicRouteSegment}
use mc_carto_live.Api.Scalars.{
  sanitize_string, sanitize_string_or_undefined, sanitize_number, safe_string_list, sanitize_list,
}

pub record PublicHistoryWindow (N : Type 0) : Type 0 where
  pub from : N
  pub to : N
  pub count : N

pub record PublicPacketPath (N : Type 0) : Type 0 where
  pub id : String
  pub at : N
  pub iata : Option String
  pub region : Option String
  pub payload_type_name : String
  pub message_sender : Option String
  pub message_text : Option String
  pub hop_count : N
  pub segment_count : N
  pub distance_km : N
  pub route_ids : List String
  pub endpoint_labels : List String
  pub segments : List (PublicRouteSegment N)

pub record PublicPacketScan (N : Type 0) : Type 0 where
  pub events_scanned : N
  pub scan_limit : N
  pub filtered : Bool
  pub partial : Bool

pub record PublicPacketsResponse (N : Type 0) : Type 0 where
  pub window : PublicHistoryWindow N
  pub server_time : N
  pub next_cursor : Option String
  pub packets : List (PublicPacketPath N)
  pub scan : Option (PublicPacketScan N)

module _ {N : Type 0} (js : JsNumbers N) where
  unfoldable pub sanitize_history_window : Value N → PublicHistoryWindow N
  sanitize_history_window value =
      if is_object value
      then record {
        from = sanitize_number js (get "from" value) (js.numeral 0);
        to = sanitize_number js (get "to" value) (js.numeral 0);
        count = sanitize_number js (get "count" value) (js.numeral 0);
      }
      else record { from = js.numeral 0; to = js.numeral 0; count = js.numeral 0 }

  abbrev pub sanitize_packets_window : Value N → PublicHistoryWindow N
  sanitize_packets_window value = sanitize_history_window value

  unfoldable pub sanitize_public_packet_endpoint : Value N → Option (PublicRouteEndpoint N)
  sanitize_public_packet_endpoint value =
      let node_id = sanitize_string js (get "nodeId" value) "" in
      if not (is_object value) || is_empty node_id
      then none
      else some (record {
        node_id = node_id;
        label = sanitize_string js (get "label" value) node_id;
        lat = sanitize_number js (get "lat" value) (js.numeral 0);
        lng = sanitize_number js (get "lng" value) (js.numeral 0);
        path_hash3 = sanitize_string_or_undefined js (get "pathHash3" value);
      })

  unfoldable pub sanitize_public_packet_segment : Value N → Option (PublicRouteSegment N)
  sanitize_public_packet_segment value =
      let route_id = sanitize_string js (get "routeId" value) "" in
      if not (is_object value) || is_empty route_id
      then none
      else elim (sanitize_public_packet_endpoint (get "from" value)) [
        | none ↦ none
        | some start ↦ elim (sanitize_public_packet_endpoint (get "to" value)) [
          | none ↦ none
          | some end ↦ some (record {
            route_id = route_id;
            from = start;
            to = end;
            distance_km = sanitize_number js (get "distanceKm" value) (js.numeral 0);
          })
        ]
      ]

  unfoldable pub sanitize_public_packet : Value N → Option (PublicPacketPath N)
  sanitize_public_packet value =
      let segments = sanitize_list js sanitize_public_packet_segment (get "segments" value) in
      let segment_count =
        sanitize_number js (get "segmentCount" value) (js.numeral (length segments)) in
      let id = sanitize_string js (get "id" value) "" in
      if not (is_object value) || is_empty id
      then none
      else some (record {
        id = id;
        at = sanitize_number js (get "at" value) (js.numeral 0);
        iata = sanitize_string_or_undefined js (get "iata" value);
        region = sanitize_string_or_undefined js (get "region" value);
        payload_type_name = sanitize_string js (get "payloadTypeName" value) "Message";
        message_sender = sanitize_string_or_undefined js (get "messageSender" value);
        message_text = sanitize_string_or_undefined js (get "messageText" value);
        hop_count = sanitize_number js (get "hopCount" value) (js.numeral 0);
        segment_count = sanitize_number js (get "segmentCount" value) segment_count;
        distance_km = sanitize_number js (get "distanceKm" value) (js.numeral 0);
        route_ids = safe_string_list js (get "routeIds" value);
        endpoint_labels = safe_string_list js (get "endpointLabels" value);
        segments = segments;
      })

  -- Whether `value` counts as true: no `undefined` or `null`, not 0, no empty text.
  abbrev pub is_truthy : Value N → Bool
  is_truthy undefined = false
  is_truthy null = false
  is_truthy (boolean b) = b
  is_truthy (number n) = not (js.le n (js.numeral 0) && js.le (js.numeral 0) n)
  is_truthy (string s) = not (is_empty s)
  is_truthy value = true

  unfoldable pub sanitize_scan : Value N → Option (PublicPacketScan N)
  sanitize_scan value =
      if is_truthy value
      then some (record {
        events_scanned = sanitize_number js (get "eventsScanned" value) (js.numeral 0);
        scan_limit = sanitize_number js (get "scanLimit" value) (js.numeral 0);
        filtered = is_true (get "filtered" value);
        partial = is_true (get "partial" value);
      })
      else none

  unfoldable pub sanitize_public_packets_response : N → Value N → PublicPacketsResponse N
  unfolding sanitize_scan sanitize_public_packet sanitize_history_window
  sanitize_public_packets_response now value = record {
    window = sanitize_packets_window (get "window" value);
    server_time = sanitize_number js (get "serverTime" value) now;
    next_cursor = sanitize_string_or_undefined js (get "nextCursor" value);
    packets = sanitize_list js sanitize_public_packet (get "packets" value);
    scan = sanitize_scan (get "scan" value);
  }
