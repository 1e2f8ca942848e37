-- ===== src/Api/Propagation.antt =====
-- The sanitizers of web/src/api.ts for the propagation feed. `now` is `Date.now()`.
use mc_carto_live.Prelude.{
  String, Bool, true, false, not, ◌||◌, Option, none, some, List, [], ◌∷◌, if◌then◌else◌, take,
  length,
}
use mc_carto_live.Prelude.JsString.{is_empty}
use mc_carto_live.Prelude.JsValue.{JsNumbers, Value, object, no_fields, get, is_object}
use mc_carto_live.Api.Data.{PublicRouteSegment}
use mc_carto_live.Api.Scalars.{
  sanitize_string, sanitize_string_or_undefined, sanitize_number, sanitize_optional_number,
  safe_string_list, sanitize_list,
}
use mc_carto_live.Api.Places.{sanitize_public_state_segment}
use mc_carto_live.Api.Packets.{PublicHistoryWindow, sanitize_history_window}

pub record PublicPropagationWeatherSummary (N : Type 0) : Type 0 where
  pub source : String
  pub model : Option String
  pub sample_time : N
  pub fetched_at : N
  pub temperature_c : N
  pub dew_point_c : N
  pub relative_humidity_pct : N
  pub pressure_hpa : N
  pub cloud_cover_pct : N
  pub visibility_m : Option N
  pub wind_speed_kmh : N
  pub inversion_proxy : String

pub record PublicPropagationSolarSummary (N : Type 0) : Type 0 where
  pub kp_index : N
  pub kp_label : String
  pub solar_flux_sfu : N
  pub solar_flux_label : String
  pub geomag_activity : String
  pub fetched_at : N

pub record PublicPropagationReplayWindow (N : Type 0) : Type 0 where
  pub from : N
  pub to : N

pub record PublicPropagationEvent (N : Type 0) : Type 0 where
  pub id : String
  pub at : N
  pub classification : String
  pub confidence : String
  pub score : N
  pub distance_km : N
  pub region : Option String
  pub route_ids : List String
  pub endpoint_labels : List String
  pub segments : List (PublicRouteSegment N)
  pub reasons : List String
  pub weather : Option (PublicPropagationWeatherSummary N)
  pub solar : Option (PublicPropagationSolarSummary N)
  pub replay_window : PublicPropagationReplayWindow N

pub record PublicPropagationConditions (N : Type 0) : Type 0 where
  pub server_time : N
  pub event_count : N
  pub latest_event : Option (PublicPropagationEvent N)
  pub weather : Option (PublicPropagationWeatherSummary N)
  pub solar : Option (PublicPropagationSolarSummary N)
  pub source_status : String

pub record PublicPropagationResponse (N : Type 0) : Type 0 where
  pub server_time : N
  pub conditions : PublicPropagationConditions N
  pub events : List (PublicPropagationEvent N)
  pub next_cursor : Option String
  pub window : PublicHistoryWindow N

module _ {N : Type 0} (js : JsNumbers N) where
  unfoldable pub sanitize_public_propagation_weather :
      Value N → Option (PublicPropagationWeatherSummary N)
  sanitize_public_propagation_weather value =
      let source = sanitize_string js (get "source" value) "" in
      if not (is_object value) || is_empty source
      then none
      else some (record {
        source = source;
        model = sanitize_string_or_undefined js (get "model" value);
        sample_time = sanitize_number js (get "sampleTime" value) (js.numeral 0);
        fetched_at = sanitize_number js (get "fetchedAt" value) (js.numeral 0);
        temperature_c = sanitize_number js (get "temperatureC" value) (js.numeral 0);
        dew_point_c = sanitize_number js (get "dewPointC" value) (js.numeral 0);
        relative_humidity_pct = sanitize_number js (get "relativeHumidityPct" value) (js.numeral 0);
        pressure_hpa = sanitize_number js (get "pressureHPa" value) (js.numeral 0);
        cloud_cover_pct = sanitize_number js (get "cloudCoverPct" value) (js.numeral 0);
        visibility_m = sanitize_optional_number js (get "visibilityM" value);
        wind_speed_kmh = sanitize_number js (get "windSpeedKmh" value) (js.numeral 0);
        inversion_proxy = sanitize_string js (get "inversionProxy" value) "unknown";
      })

  unfoldable pub sanitize_public_propagation_solar :
      Value N → Option (PublicPropagationSolarSummary N)
  sanitize_public_propagation_solar value =
      if is_object value
      then some (record {
        kp_index = sanitize_number js (get "kpIndex" value) (js.numeral 0);
        kp_label = sanitize_string js (get "kpLabel" value) "quiet";
        solar_flux_sfu = sanitize_number js (get "solarFluxSfu" value) (js.numeral 0);
        solar_flux_label = sanitize_string js (get "solarFluxLabel" value) "unknown";
        geomag_activity = sanitize_string js (get "geomagActivity" value) "unknown";
        fetched_at = sanitize_number js (get "fetchedAt" value) (js.numeral 0);
      })
      else none

  abbrev pub window_start : N → N
  window_start at = js.max (js.numeral 0) (js.sub at (js.numeral 900000))

  abbrev pub window_end : N → N
  window_end at = js.add at (js.numeral 900000)

  unfoldable pub sanitize_propagation_replay_window : Value N → N → PublicPropagationReplayWindow N
  sanitize_propagation_replay_window value at =
      if is_object value
      then record {
        from = sanitize_number js (get "from" value) (window_start at);
        to = sanitize_number js (get "to" value) (window_end at);
      }
      else record { from = window_start at; to = window_end at }

  unfoldable pub sanitize_public_propagation_event : Value N → Option (PublicPropagationEvent N)
  sanitize_public_propagation_event value =
      let id = sanitize_string js (get "id" value) "" in
      if not (is_object value) || is_empty id
      then none
      else some (record {
        id = id;
        at = sanitize_number js (get "at" value) (js.numeral 0);
        classification = sanitize_string js (get "classification" value) "long_distance_event";
        confidence = sanitize_string js (get "confidence" value) "low";
        score = sanitize_number js (get "score" value) (js.numeral 0);
        distance_km = sanitize_number js (get "distanceKm" value) (js.numeral 0);
        region = sanitize_string_or_undefined js (get "region" value);
        route_ids = safe_string_list js (get "routeIds" value);
        endpoint_labels = safe_string_list js (get "endpointLabels" value);
        segments = sanitize_list js (sanitize_public_state_segment js) (get "segments" value);
        reasons = take 8 (safe_string_list js (get "reasons" value));
        weather = sanitize_public_propagation_weather (get "weather" value);
        solar = sanitize_public_propagation_solar (get "solar" value);
        replay_window =
            sanitize_propagation_replay_window (get "replayWindow" value)
              (sanitize_number js (get "at" value) (js.numeral 0));
      })

  -- `event ?? events[0]`
  abbrev pub or_first : {A : Type 0} → Option A → List A → Option A
  or_first (some event) events = some event
  or_first none [] = none
  or_first none (event ∷ events) = some event

  abbrev pub has_events : {A : Type 0} → List A → Bool
  has_events [] = false
  has_events (event ∷ events) = true

  -- A value that is no object has no fields.
  abbrev pub object_or_empty : Value N → Value N
  object_or_empty value = if is_object value then value else object no_fields

  unfoldable pub sanitize_public_propagation_conditions :
      N → Value N → List (PublicPropagationEvent N) → PublicPropagationConditions N
  unfolding sanitize_public_propagation_event
  sanitize_public_propagation_conditions now raw events =
      let value = object_or_empty raw in
      record {
        server_time = sanitize_number js (get "serverTime" value) now;
        event_count = sanitize_number js (get "eventCount" value) (js.numeral (length events));
        latest_event =
            or_first (sanitize_public_propagation_event (get "latestEvent" value)) events;
        weather = sanitize_public_propagation_weather (get "weather" value);
        solar = sanitize_public_propagation_solar (get "solar" value);
        source_status =
            sanitize_string js (get "sourceStatus" value)
              (if has_events events then "active" else "quiet");
      }

  unfoldable pub sanitize_public_propagation_response : N → Value N → PublicPropagationResponse N
  unfolding sanitize_public_propagation_conditions sanitize_history_window
  sanitize_public_propagation_response now value =
      let events = sanitize_list js sanitize_public_propagation_event (get "events" value) in
      record {
        server_time = sanitize_number js (get "serverTime" value) now;
        conditions = sanitize_public_propagation_conditions now (get "conditions" value) events;
        events = events;
        next_cursor = sanitize_string_or_undefined js (get "nextCursor" value);
        window = sanitize_history_window js (get "window" value);
      }
