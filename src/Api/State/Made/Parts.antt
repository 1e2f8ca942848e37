-- ===== src/Api/State/Made/Parts.antt =====
-- Each part of the public state that the sanitizers of web/src/api.ts make is sane.
use mc_carto_live.Prelude.{String, refl, Option, none, some}
use mc_carto_live.Prelude.JsString.{trim}
use mc_carto_live.Prelude.JsValue.{JsNumbers, Value, get, is_object}
use mc_carto_live.Api.Data.{PublicRouteEndpoint}
use mc_carto_live.Api.Scalars.{sanitize_string}
use mc_carto_live.Api.Places.{
  sanitize_public_route_endpoint, sanitize_public_message_anchor, sanitize_public_observer_location,
  with_ends, sanitize_public_state_segment, sanitize_public_state_route,
}
use mc_carto_live.Api.State.{
  sanitize_public_state_node, sanitize_public_state_pulse, sanitize_public_state_activity,
}
use mc_carto_live.Api.State.Sane.{
  OnSome, IsText, IsEndpoint, IsAnchor, IsLocation, IsSegment, IsRoute, IsNode, IsPulse, IsActivity,
}
use mc_carto_live.Api.State.Made.{
  guarded, sanitize_string-IsText, sanitize_string-trimmed, sanitize_string-filled,
  sanitize_string_or_undefined-IsText, sanitize_list-All,
}

both_ends :
    {N A : Type 0}
    → (Q : A → Type 0) → (make : PublicRouteEndpoint N → PublicRouteEndpoint N → A)
    → (from to : Option (PublicRouteEndpoint N)) → OnSome IsEndpoint from
    → OnSome IsEndpoint to
    → ((start end : PublicRouteEndpoint N) → IsEndpoint start → IsEndpoint end → Q (make start end))
    → OnSome Q (elim from [
      | none ↦ none
      | some start ↦ elim to [ none ↦ none | some end ↦ some (make start end) ]
    ])
both_ends Q make none to hf ht h = tt
both_ends Q make (some start) none hf ht h = tt
both_ends Q make (some start) (some end) hf ht h = h start end hf ht

module _ {N : Type 0} (js : JsNumbers N) (numerals : (n : N) → IsText (js.to_string n)) where
  Message-IsText : IsText "Message"
  unfolding trim
  Message-IsText = record { trimmed = refl; filled = refl }

  pub sanitize_public_route_endpoint-IsEndpoint :
      (v : Value N) → OnSome IsEndpoint (sanitize_public_route_endpoint js v)
  unfolding sanitize_public_route_endpoint
  sanitize_public_route_endpoint-IsEndpoint v =
      guarded IsEndpoint (is_object v) (sanitize_string js (get "nodeId" v) "") _ (λ filled.
        record {
          node_id = sanitize_string-filled js numerals (get "nodeId" v) filled;
          label =
              sanitize_string-IsText js numerals (get "label" v) _
                (sanitize_string-filled js numerals (get "nodeId" v) filled);
          path_hash3 = sanitize_string_or_undefined-IsText js numerals (get "pathHash3" v);
        })

  pub sanitize_public_message_anchor-IsAnchor :
      (v : Value N) → OnSome IsAnchor (sanitize_public_message_anchor js v)
  unfolding sanitize_public_message_anchor
  sanitize_public_message_anchor-IsAnchor v =
      guarded IsAnchor (is_object v) (sanitize_string js (get "label" v) "") _ (λ filled. record {
        kind = sanitize_string-trimmed js numerals (get "kind" v);
        node_id = sanitize_string_or_undefined-IsText js numerals (get "nodeId" v);
        label = sanitize_string-filled js numerals (get "label" v) filled;
      })

  pub sanitize_public_observer_location-IsLocation :
      (v : Value N) → OnSome IsLocation (sanitize_public_observer_location js v)
  unfolding sanitize_public_observer_location
  sanitize_public_observer_location-IsLocation v =
      guarded IsLocation (is_object v) (sanitize_string js (get "label" v) "") _ (λ filled. record {
        label = sanitize_string-filled js numerals (get "label" v) filled;
        iata = sanitize_string_or_undefined-IsText js numerals (get "iata" v);
        region = sanitize_string_or_undefined-IsText js numerals (get "region" v);
      })

  with_ends-OnSome :
      {A : Type 0}
      → (Q : A → Type 0) → (make : PublicRouteEndpoint N → PublicRouteEndpoint N → A)
      → (v : Value N)
      → ((start end : PublicRouteEndpoint N)
          → IsEndpoint start
          → IsEndpoint end
          → Q (make start end))
      → OnSome Q (with_ends js make v)
  with_ends-OnSome Q make v h =
      both_ends Q make (sanitize_public_route_endpoint js (get "from" v))
        (sanitize_public_route_endpoint js (get "to" v))
        (sanitize_public_route_endpoint-IsEndpoint (get "from" v))
        (sanitize_public_route_endpoint-IsEndpoint (get "to" v)) h

  pub sanitize_public_state_segment-IsSegment :
      (v : Value N) → OnSome IsSegment (sanitize_public_state_segment js v)
  unfolding sanitize_public_state_segment
  sanitize_public_state_segment-IsSegment v =
      guarded IsSegment (is_object v) (sanitize_string js (get "routeId" v) "") _ (λ filled.
        with_ends-OnSome IsSegment _ v (λ start end hs he. record {
          route_id = sanitize_string-filled js numerals (get "routeId" v) filled;
          from = hs;
          to = he;
        }))

  pub sanitize_public_state_route-IsRoute :
      (v : Value N) → OnSome IsRoute (sanitize_public_state_route js v)
  unfolding sanitize_public_state_route
  sanitize_public_state_route-IsRoute v =
      guarded IsRoute (is_object v) (sanitize_string js (get "id" v) "") _ (λ filled.
        with_ends-OnSome IsRoute _ v (λ start end hs he. record {
          id = sanitize_string-filled js numerals (get "id" v) filled;
          from = hs;
          to = he;
        }))

  pub sanitize_public_state_node-IsNode :
      (lower : String → String)
      → (now : N) → (v : Value N) → OnSome IsNode (sanitize_public_state_node js lower now v)
  unfolding sanitize_public_state_node
  sanitize_public_state_node-IsNode lower now v =
      guarded IsNode (is_object v) (sanitize_string js (get "id" v) "") _ (λ filled. record {
        id = sanitize_string-filled js numerals (get "id" v) filled;
        label =
            sanitize_string-IsText js numerals (get "label" v) _
              (sanitize_string-filled js numerals (get "id" v) filled);
      })

  pub sanitize_public_state_pulse-IsPulse :
      (now : N) → (v : Value N) → OnSome IsPulse (sanitize_public_state_pulse js now v)
  unfolding sanitize_public_state_pulse
  sanitize_public_state_pulse-IsPulse now v =
      guarded IsPulse (is_object v) (sanitize_string js (get "id" v) "") _ (λ filled. record {
        id = sanitize_string-filled js numerals (get "id" v) filled;
        iata = sanitize_string_or_undefined-IsText js numerals (get "iata" v);
        region = sanitize_string_or_undefined-IsText js numerals (get "region" v);
        payload_type_name =
            sanitize_string-IsText js numerals (get "payloadTypeName" v) "Message" Message-IsText;
        message_sender = sanitize_string_or_undefined-IsText js numerals (get "messageSender" v);
        message_text = sanitize_string_or_undefined-IsText js numerals (get "messageText" v);
        message_anchor = sanitize_public_message_anchor-IsAnchor (get "messageAnchor" v);
        segments =
            sanitize_list-All js IsSegment (sanitize_public_state_segment js)
              sanitize_public_state_segment-IsSegment (get "segments" v);
      })

  pub sanitize_public_state_activity-IsActivity :
      (now : N) → (v : Value N) → OnSome IsActivity (sanitize_public_state_activity js now v)
  unfolding sanitize_public_state_activity
  sanitize_public_state_activity-IsActivity now v =
      guarded IsActivity (is_object v) (sanitize_string js (get "id" v) "") _ (λ filled. record {
        id = sanitize_string-filled js numerals (get "id" v) filled;
        payload_type_name =
            sanitize_string-IsText js numerals (get "payloadTypeName" v) "Message" Message-IsText;
        route_type_name = sanitize_string_or_undefined-IsText js numerals (get "routeTypeName" v);
        iata = sanitize_string_or_undefined-IsText js numerals (get "iata" v);
        region = sanitize_string_or_undefined-IsText js numerals (get "region" v);
        observer_location = sanitize_public_observer_location-IsLocation (get "observerLocation" v);
        message_sender = sanitize_string_or_undefined-IsText js numerals (get "messageSender" v);
        message_text = sanitize_string_or_undefined-IsText js numerals (get "messageText" v);
        message_anchor = sanitize_public_message_anchor-IsAnchor (get "messageAnchor" v);
      })
