-- ===== src/Packets.antt =====
-- web/src/packets.ts: the packets of the live view, their filter and what is shown of them. `lower`,
-- `upper` and `includes` are the methods of texts, `show` writes a number. Times are natural numbers.
pub mod Merged
use Prim.Native.String.{◌++◌ as str_append}
use mc_carto_live.Prelude.{
  ℕ, zero, suc, ◌+◌, ◌-◌, max, String, string_discrete, ite, Bool, true, false, not, ◌&&◌, ◌||◌,
  ltb, leb, Option, none, some, List, [], ◌∷◌, ◌++◌, ◌⁇◌, map, filter, any, length, if◌then◌else◌,
}
use mc_carto_live.Prelude.JsString.{trim, is_empty}
use mc_carto_live.Prelude.JsSet.{has, add, of_list}
use mc_carto_live.Prelude.Sort.{sort}
use mc_carto_live.Chat.{differs, filled_texts}
use mc_carto_live.Types.{PublicActivity, PublicRoutePulse, PublicRouteSegment}

pub record PublicPacketPath : Type 0 where
  pub id : String
  pub at : ℕ
  pub iata : Option String
  pub region : Option String
  pub payload_type_name : String
  pub message_sender : Option String
  pub message_text : Option String
  pub hop_count : ℕ
  pub segment_count : ℕ
  pub distance_km : ℕ
  pub route_ids : List String
  pub endpoint_labels : List String
  pub segments : List PublicRouteSegment

pub record PacketFilters : Type 0 where
  pub query : String
  pub iata : String
  pub payload : String
  pub min_hops : ℕ
  pub message_only : Bool

abbrev pub segment_fields : List PublicRouteSegment → List String
segment_fields [] = []
segment_fields (segment ∷ segments) =
    segment.from.label
    ∷ segment.to.label
    ∷ (segment.from.path_hash3 ⁇ "")
    ∷ (segment.to.path_hash3 ⁇ "")
    ∷ segment_fields segments

unfoldable pub packet_search_fields : PublicPacketPath → List String
packet_search_fields packet = filled_texts (
    packet.id
    ∷ (packet.region ⁇ "")
    ∷ (packet.iata ⁇ "")
    ∷ packet.payload_type_name
    ∷ (packet.message_sender ⁇ "")
    ∷ (packet.message_text ⁇ "")
    ∷ (packet.endpoint_labels ++ (packet.route_ids ++ segment_fields packet.segments)))

abbrev pub packet_region : PublicPacketPath → String
packet_region packet = packet.region ⁇ packet.iata ⁇ ""

module _ (lower : String → String) (upper : String → String)
    (includes : String → String → Bool) where
  unfoldable pub packet_matches_filters : PublicPacketPath → PacketFilters → Bool
  unfolding packet_search_fields
  packet_matches_filters packet filters =
      let query = lower (trim filters.query) in
      if not (is_empty filters.iata) && differs (upper (packet_region packet)) (upper filters.iata)
      then false
      else if not (is_empty filters.payload)
          && differs (upper packet.payload_type_name) (upper filters.payload)
      then false
      else if ltb 0 filters.min_hops && ltb packet.hop_count filters.min_hops
      then false
      else if filters.message_only && is_empty (trim (packet.message_text ⁇ ""))
      then false
      else if is_empty query
      then true
      else any (λ field. includes (lower field) query) (packet_search_fields packet)

  abbrev pub filter_packets : List PublicPacketPath → PacketFilters → List PublicPacketPath
  filter_packets packets filters = filter (λ packet. packet_matches_filters packet filters) packets

-- `texts.join('|')`
abbrev pub join_by_bar : List String → String
join_by_bar [] = ""
join_by_bar (s ∷ []) = s
join_by_bar (s ∷ t ∷ texts) = str_append s (str_append "|" (join_by_bar (t ∷ texts)))

-- `segments[0]?.from.label ?? ''`
abbrev pub first_label : List PublicRouteSegment → String
first_label [] = ""
first_label (segment ∷ segments) = segment.from.label

abbrev pub distance_of : List PublicRouteSegment → ℕ
distance_of [] = 0
distance_of (segment ∷ segments) = max 0 segment.distance_km + distance_of segments

-- `item.kind !== 'packet' && item.kind !== 'route'`
abbrev pub is_shown_kind : String → Bool
is_shown_kind kind =
    ite (string_discrete kind "packet") true (ite (string_discrete kind "route") true false)

module _ (show : ℕ → String) where
  unfoldable pub live_packet_key : ℕ → String → List String → String
  live_packet_key at payload_type_name route_ids =
      str_append (show at)
        (str_append ":" (str_append payload_type_name (str_append ":" (join_by_bar route_ids))))

  -- `seq ?? id`
  abbrev pub number_or_id : Option ℕ → String → String
  number_or_id none id = id
  number_or_id (some seq) id = show seq

  abbrev pub pulse_key : PublicRoutePulse → String
  pulse_key pulse =
      live_packet_key pulse.heard_at pulse.payload_type_name
        (map (λ (segment : PublicRouteSegment). segment.route_id) pulse.segments)

  abbrev pub packet_of_pulse : PublicRoutePulse → PublicPacketPath
  packet_of_pulse pulse = record {
    id = str_append "live-pulse:" (number_or_id pulse.seq pulse.id);
    at = pulse.heard_at;
    iata = pulse.iata;
    region = pulse.region;
    payload_type_name = pulse.payload_type_name;
    message_sender = pulse.message_sender;
    message_text = pulse.message_text;
    hop_count = length pulse.segments;
    segment_count = length pulse.segments;
    distance_km = distance_of pulse.segments;
    route_ids = map (λ (segment : PublicRouteSegment). segment.route_id) pulse.segments;
    endpoint_labels = filled_texts (
        first_label pulse.segments
        ∷ map (λ (segment : PublicRouteSegment). segment.to.label) pulse.segments);
    segments = pulse.segments;
  }

  abbrev pub activity_key : PublicActivity → String
  activity_key item = live_packet_key item.heard_at item.payload_type_name (item.route_ids ⁇ [])

  abbrev pub packet_of_activity : PublicActivity → PublicPacketPath
  packet_of_activity item = record {
    id = str_append "live-activity:" (number_or_id item.seq item.id);
    at = item.heard_at;
    iata = item.iata;
    region = item.region;
    payload_type_name = item.payload_type_name;
    message_sender = item.message_sender;
    message_text = item.message_text;
    hop_count = max 0 item.hop_count;
    segment_count = 0;
    distance_km = 0;
    route_ids = item.route_ids ⁇ [];
    endpoint_labels = item.endpoint_labels ⁇ [];
    segments = [];
  }

  -- The loop over the pulses, with `pulseKeys` and `output`.
  unfoldable pub pulses_loop :
      List PublicRoutePulse
      → List String
      → List PublicPacketPath
      → List String × List PublicPacketPath
  unfolding live_packet_key add
  pulses_loop [] keys output = (keys, output)
  pulses_loop (pulse ∷ pulses) keys output = elim pulse.segments [
    | [] ↦ pulses_loop pulses keys output
    | segment ∷ segments ↦
        pulses_loop pulses (add (pulse_key pulse) keys) (output ++ packet_of_pulse pulse ∷ [])
  ]

  -- The loop over the activity.
  unfoldable pub activity_loop :
      List PublicActivity → List String → List PublicPacketPath → List PublicPacketPath
  unfolding live_packet_key has
  activity_loop [] keys output = output
  activity_loop (item ∷ activity) keys output = activity_loop activity keys (
      if not (is_shown_kind item.kind) || has (activity_key item) keys
      then output
      else output ++ packet_of_activity item ∷ [])

  -- `right.at - left.at <= 0`
  abbrev pub latest_first : PublicPacketPath → PublicPacketPath → Bool
  latest_first left right = leb right.at left.at

  unfoldable pub live_packets_from_activity :
      List PublicActivity → List PublicRoutePulse → List PublicPacketPath
  unfolding pulses_loop activity_loop sort
  live_packets_from_activity activity pulses =
      let (keys, output) = pulses_loop pulses [] [] in
      sort latest_first (activity_loop activity keys output)

abbrev pub packet_route_ids : Option PublicPacketPath → List String
packet_route_ids none = []
packet_route_ids (some packet) = of_list packet.route_ids

-- `if (id) ids.add(id)`
abbrev pub add_filled : String → List String → List String
add_filled id ids = if is_empty id then ids else add id ids

abbrev pub add_ends : List PublicRouteSegment → List String → List String
add_ends [] ids = ids
add_ends (segment ∷ segments) ids =
    add_ends segments (add_filled segment.to.node_id (add_filled segment.from.node_id ids))

abbrev pub packet_node_ids : Option PublicPacketPath → List String
packet_node_ids none = []
packet_node_ids (some packet) = add_ends packet.segments []

-- The last of the labels.
abbrev pub last_label : String → List String → String
last_label label [] = label
last_label label (next ∷ labels) = last_label next labels

abbrev pub endpoint_summary : List String → String
endpoint_summary [] = "Unknown path"
endpoint_summary (label ∷ []) = label
endpoint_summary (label ∷ next ∷ labels) =
    str_append label (str_append " -> " (last_label next labels))

abbrev pub packet_endpoint_summary : PublicPacketPath → String
packet_endpoint_summary packet = endpoint_summary packet.endpoint_labels

-- `now` is rounded already. The start, and the end.
abbrev pub packet_window_for_scope : ℕ → ℕ → ℕ × ℕ
packet_window_for_scope now scope_ms = (now - scope_ms, now)
