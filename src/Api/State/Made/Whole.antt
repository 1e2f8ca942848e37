-- ===== src/Api/State/Made/Whole.antt =====
-- The public state that the sanitizer of web/src/api.ts makes is sane.
use mc_carto_live.Prelude.{String, true, ◌≡◌, Bool-cases, inl, inr}
use mc_carto_live.Prelude.JsValue.{JsNumbers, Value, get, is_object, is_plain}
use mc_carto_live.Api.Places.{sanitize_public_state_route}
use mc_carto_live.Api.State.{
  sanitize_public_state_node, sanitize_public_state_pulse, sanitize_public_state_activity,
  sanitize_public_map_config, sanitize_public_stats, sanitize_public_state,
}
use mc_carto_live.Api.State.Sane.{
  OnSome, IsText, IsRoute, IsNode, IsPulse, IsActivity, IsMapConfig, IsStats, IsState,
}
use mc_carto_live.Api.State.Made.{
  sanitize_string_or_undefined-IsText, sanitize_list-All, sanitize_string_number_map-IsCounts,
  sanitize_nested_number_map-IsBuckets,
}
use mc_carto_live.Api.State.Made.Parts.{
  sanitize_public_state_route-IsRoute, sanitize_public_state_node-IsNode,
  sanitize_public_state_pulse-IsPulse, sanitize_public_state_activity-IsActivity,
}

module _ {N : Type 0} (js : JsNumbers N) (numerals : (n : N) → IsText (js.to_string n)) where
  pub sanitize_public_map_config-IsMapConfig :
      (v : Value N) → OnSome IsMapConfig (sanitize_public_map_config js v)
  unfolding sanitize_public_map_config
  sanitize_public_map_config-IsMapConfig v = elim (Bool-cases (is_object v)) [
    | inl here ↦ rw here (record {
      region_preset = sanitize_string_or_undefined-IsText js numerals (get "regionPreset" v);
      default_region = sanitize_string_or_undefined-IsText js numerals (get "defaultRegion" v);
    })
    | inr gone ↦ rw gone tt
  ]

  pub sanitize_public_stats-IsStats :
      (now : N) → (v : Value N) → IsStats (sanitize_public_stats js now v)
  unfolding sanitize_public_stats
  sanitize_public_stats-IsStats now v = elim (Bool-cases (is_object v)) [
    | inl here ↦ rw here (record {
      resolution_buckets = sanitize_nested_number_map-IsBuckets js (get "resolutionBuckets" v);
      excluded_iatas = sanitize_string_number_map-IsCounts js (get "excludedIatas" v);
      excluded_regions = sanitize_string_number_map-IsCounts js (get "excludedRegions" v);
    })
    | inr gone ↦
        rw gone (record { resolution_buckets = tt; excluded_iatas = tt; excluded_regions = tt })
  ]

  pub sanitized-IsState :
      (lower : String → String)
      → (now : N) → (v : Value N) → IsState (sanitize_public_state js lower now v)
  unfolding sanitize_public_state
  sanitized-IsState lower now v = record {
    map = sanitize_public_map_config-IsMapConfig (get "map" v);
    nodes =
        sanitize_list-All js IsNode (sanitize_public_state_node js lower now)
          (sanitize_public_state_node-IsNode js numerals lower now) (get "nodes" v);
    routes =
        sanitize_list-All js IsRoute (sanitize_public_state_route js)
          (sanitize_public_state_route-IsRoute js numerals) (get "routes" v);
    recent_pulses =
        sanitize_list-All js IsPulse (sanitize_public_state_pulse js now)
          (sanitize_public_state_pulse-IsPulse js numerals now) (get "recentPulses" v);
    recent_activity =
        sanitize_list-All js IsActivity (sanitize_public_state_activity js now)
          (sanitize_public_state_activity-IsActivity js numerals now) (get "recentActivity" v);
    stats = sanitize_public_stats-IsStats now (get "stats" v);
  }

  -- Of any plain value (one in which no object has a field `toString`, of which the conversions of the
  -- language throw) that a response or the storage holds, the sanitizer makes a sane public state, where
  -- a numeral is written as a trimmed text that is not empty.
  pub sanitize_public_state-IsState :
      (lower : String → String)
      → (now : N) → (v : Value N) → is_plain v ≡ true
      → IsState (sanitize_public_state js lower now v)
  sanitize_public_state-IsState lower now v plain = sanitized-IsState lower now v
