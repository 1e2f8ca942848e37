-- ===== src/Api/State/Back/Parts.antt =====
-- The sanitizers of web/src/api.ts read back each sane part of a state that was written.
use mc_carto_live.Prelude.{String, string_discrete, ◌≡◌, refl, Option, none, some}
use mc_carto_live.Prelude.JsValue.{JsNumbers, Value, undefined, get, of_option}
use mc_carto_live.Types.{NodeRole}
use mc_carto_live.Api.Data.{
  PublicNode, PublicRouteEndpoint, PublicRouteSegment, PublicRoute, PublicMessageAnchor,
  PublicObserverLocation, PublicRoutePulse, PublicActivity, ReplayOptions,
}
use mc_carto_live.Api.Scalars.{sanitize_number}
use mc_carto_live.Api.Places.{
  sanitize_public_route_endpoint, sanitize_public_message_anchor, sanitize_public_observer_location,
  with_ends, sanitize_public_state_segment, sanitize_public_state_route,
}
use mc_carto_live.Api.State.{
  sanitize_route_replay_options, sanitize_public_state_node, sanitize_public_state_pulse,
  sanitize_public_state_activity,
}
use mc_carto_live.Api.State.Json.{
  role_name, json_endpoint, json_anchor, json_location, json_segment, json_route,
  json_replay_options, json_node, json_pulse, json_activity,
}
use mc_carto_live.Api.State.Sane.{
  OnSome, IsEndpoint, IsAnchor, IsLocation, IsSegment, IsRoute, IsNode, IsPulse, IsActivity,
}
use mc_carto_live.Api.State.Back.{
  option_back, list_back, sanitize_string-text, sanitize_string-trimmed, optional_text_back,
  optional_number_back, safe_string_list-strings, role_back, activity_kind_back,
  animation_state_back, resolution_bucket_back, animation_style_back, boolean_back,
}

module _ {N : Type 0} (js : JsNumbers N) where
  pub endpoint_back :
      (e : PublicRouteEndpoint N)
      → IsEndpoint e
      → sanitize_public_route_endpoint js (json_endpoint e) ≡ some e
  unfolding sanitize_public_route_endpoint json_endpoint string_discrete sanitize_number get
  endpoint_back e h =
      rw
        (
          sanitize_string-text js e.node_id "" h.node_id,
          h.node_id.filled,
          sanitize_string-text js e.label e.node_id h.label,
          optional_text_back js e.path_hash3 h.path_hash3,
        )
        refl

  pub anchor_back :
      (a : PublicMessageAnchor N)
      → IsAnchor a
      → sanitize_public_message_anchor js (json_anchor a) ≡ some a
  unfolding sanitize_public_message_anchor json_anchor string_discrete sanitize_number get
  anchor_back a h =
      rw
        (
          sanitize_string-text js a.label "" h.label,
          h.label.filled,
          sanitize_string-trimmed js a.kind h.kind,
          optional_text_back js a.node_id h.node_id,
        )
        refl

  pub location_back :
      (l : PublicObserverLocation N)
      → IsLocation l
      → sanitize_public_observer_location js (json_location l) ≡ some l
  unfolding sanitize_public_observer_location json_location string_discrete sanitize_number get
  location_back l h =
      rw
        (
          sanitize_string-text js l.label "" h.label,
          h.label.filled,
          optional_text_back js l.iata h.iata,
          optional_text_back js l.region h.region,
        )
        refl

  with_ends_back :
      {A : Type 0}
      → (make : PublicRouteEndpoint N → PublicRouteEndpoint N → A) → (v : Value N)
      → (start end : PublicRouteEndpoint N) → get "from" v ≡ json_endpoint start
      → get "to" v ≡ json_endpoint end
      → IsEndpoint start
      → IsEndpoint end
      → with_ends js make v ≡ some (make start end)
  with_ends_back make v start end from to hs he =
      rw (with_ends, from, endpoint_back start hs, to, endpoint_back end he) refl

  pub segment_back :
      (s : PublicRouteSegment N)
      → IsSegment s
      → sanitize_public_state_segment js (json_segment s) ≡ some s
  unfolding sanitize_public_state_segment json_segment string_discrete sanitize_number get
  segment_back s h =
      rw (sanitize_string-text js s.route_id "" h.route_id, h.route_id.filled)
        (with_ends_back _ (json_segment s) s.from s.to refl refl h.from h.to)

  pub route_back :
      (r : PublicRoute N) → IsRoute r → sanitize_public_state_route js (json_route r) ≡ some r
  unfolding sanitize_public_state_route json_route string_discrete sanitize_number get
  route_back r h =
      rw
        (
          sanitize_string-text js r.id "" h.id,
          h.id.filled,
          safe_string_list-strings js r.payload_type_names,
        )
        (with_ends_back _ (json_route r) r.from r.to refl refl h.from h.to)

  pub replay_options_back :
      (o : ReplayOptions N) → sanitize_route_replay_options js (json_replay_options o) ≡ some o
  unfolding sanitize_route_replay_options json_replay_options string_discrete get
  replay_options_back o =
      rw
        (
          boolean_back js o.force,
          optional_number_back js o.travel_duration_ms,
          optional_number_back js o.brightness,
          optional_number_back js o.trail_scale,
          animation_style_back js o.animation_style,
        )
        refl

  pub node_back :
      (lower : String → String)
      → ((r : NodeRole) → lower (role_name r) ≡ role_name r)
      → (now : N) → (n : PublicNode N) → IsNode n
      → sanitize_public_state_node js lower now (json_node n) ≡ some n
  unfolding sanitize_public_state_node json_node string_discrete sanitize_number get
  node_back lower roles now n h =
      rw
        (
          sanitize_string-text js n.id "" h.id,
          h.id.filled,
          sanitize_string-text js n.label n.id h.label,
          role_back js lower roles n.role,
          safe_string_list-strings js n.iatas_heard_in,
          safe_string_list-strings js n.regions_heard_in,
        )
        refl

  anchor_none : sanitize_public_message_anchor js undefined ≡ none
  unfolding sanitize_public_message_anchor
  anchor_none = refl

  location_none : sanitize_public_observer_location js undefined ≡ none
  unfolding sanitize_public_observer_location
  location_none = refl

  replay_options_none : sanitize_route_replay_options js undefined ≡ none
  unfolding sanitize_route_replay_options
  replay_options_none = refl

  optional_anchor_back :
      (o : Option (PublicMessageAnchor N))
      → OnSome IsAnchor o
      → sanitize_public_message_anchor js (of_option json_anchor o) ≡ o
  optional_anchor_back =
      option_back (sanitize_public_message_anchor js) json_anchor IsAnchor anchor_none anchor_back

  optional_location_back :
      (o : Option (PublicObserverLocation N))
      → OnSome IsLocation o
      → sanitize_public_observer_location js (of_option json_location o) ≡ o
  optional_location_back =
      option_back (sanitize_public_observer_location js) json_location IsLocation location_none
        location_back

  optional_replay_options_back :
      (o : Option (ReplayOptions N))
      → sanitize_route_replay_options js (of_option json_replay_options o) ≡ o
  optional_replay_options_back none = replay_options_none
  optional_replay_options_back (some o) = replay_options_back o

  pub pulse_back :
      (now : N)
      → (p : PublicRoutePulse N) → IsPulse p
      → sanitize_public_state_pulse js now (json_pulse p) ≡ some p
  unfolding sanitize_public_state_pulse json_pulse string_discrete sanitize_number get
  pulse_back now p h =
      rw
        (
          sanitize_string-text js p.id "" h.id,
          h.id.filled,
          sanitize_string-text js p.payload_type_name "Message" h.payload_type_name,
          optional_text_back js p.iata h.iata,
          optional_text_back js p.region h.region,
          optional_text_back js p.message_sender h.message_sender,
          optional_text_back js p.message_text h.message_text,
          optional_anchor_back p.message_anchor h.message_anchor,
          list_back (sanitize_public_state_segment js) json_segment IsSegment segment_back js
              p.segments h.segments,
          optional_replay_options_back p.replay_options,
        )
        refl

  pub activity_back :
      (now : N)
      → (a : PublicActivity N) → IsActivity a
      → sanitize_public_state_activity js now (json_activity a) ≡ some a
  unfolding sanitize_public_state_activity json_activity string_discrete sanitize_number get
  activity_back now a h =
      rw
        (
          sanitize_string-text js a.id "" h.id,
          h.id.filled,
          activity_kind_back js a.kind,
          sanitize_string-text js a.payload_type_name "Message" h.payload_type_name,
          optional_text_back js a.route_type_name h.route_type_name,
          optional_text_back js a.iata h.iata,
          optional_text_back js a.region h.region,
          animation_state_back js a.animation_state,
          resolution_bucket_back js a.resolution_bucket,
          optional_location_back a.observer_location h.observer_location,
          safe_string_list-strings js a.route_ids,
          safe_string_list-strings js a.endpoint_labels,
          optional_text_back js a.message_sender h.message_sender,
          optional_text_back js a.message_text h.message_text,
          optional_anchor_back a.message_anchor h.message_anchor,
        )
        refl
