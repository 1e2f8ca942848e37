-- ===== src/Api/State/Back/Whole.antt =====
-- The sanitizer of the public state in web/src/api.ts reads back a sane state that was written.
use mc_carto_live.Prelude.{String, string_discrete, ◌≡◌, refl, Option, none, some, List}
use mc_carto_live.Prelude.JsValue.{JsNumbers, undefined, get, of_option}
use mc_carto_live.Types.{NodeRole}
use mc_carto_live.Api.Data.{Bounds, PublicMapConfig, PublicStats, PublicLiveState}
use mc_carto_live.Api.Scalars.{
  sanitize_number, sanitize_string_number_map, sanitize_nested_number_map,
}
use mc_carto_live.Api.Places.{sanitize_public_state_route}
use mc_carto_live.Api.State.{
  sanitize_public_state_node, sanitize_public_state_pulse, sanitize_public_state_activity,
  sanitize_numeric_tuple, sanitize_public_bounds, sanitize_public_map_config, sanitize_public_stats,
  sanitize_public_state,
}
use mc_carto_live.Api.State.Json.{
  role_name, json_counts, json_buckets, json_pair, json_route, json_node, json_pulse, json_activity,
  json_bounds, json_map_config, json_stats, json_state,
}
use mc_carto_live.Api.State.Sane.{
  OnSome, IsCounts, IsBuckets, IsRoute, IsNode, IsPulse, IsActivity, IsMapConfig, IsStats, IsState,
}
use mc_carto_live.Api.State.Back.{
  option_back, list_back, optional_text_back, optional_number_back, counts_back, buckets_back,
}
use mc_carto_live.Api.State.Back.Parts.{route_back, node_back, pulse_back, activity_back}

module _ {N : Type 0} (js : JsNumbers N) where
  pair_back : (o : Option (N × N)) → sanitize_numeric_tuple js (of_option json_pair o) ≡ o
  unfolding sanitize_numeric_tuple sanitize_number
  pair_back none = refl
  pair_back (some (lat, lng)) = refl

  bounds_back : (o : Option (Bounds N)) → sanitize_public_bounds js (of_option json_bounds o) ≡ o
  unfolding sanitize_public_bounds json_bounds string_discrete sanitize_number get
  bounds_back none = refl
  bounds_back (some b) = refl

  map_config_none : sanitize_public_map_config js undefined ≡ none
  unfolding sanitize_public_map_config
  map_config_none = refl

  map_config_back :
      (m : PublicMapConfig N)
      → IsMapConfig m
      → sanitize_public_map_config js (json_map_config m) ≡ some m
  unfolding sanitize_public_map_config json_map_config string_discrete get
  map_config_back m h =
      rw
        (
          optional_text_back js m.region_preset h.region_preset,
          optional_text_back js m.default_region h.default_region,
          pair_back m.default_center,
          optional_number_back js m.default_zoom,
          bounds_back m.bounds,
        )
        refl

  optional_map_config_back :
      (o : Option (PublicMapConfig N))
      → OnSome IsMapConfig o
      → sanitize_public_map_config js (of_option json_map_config o) ≡ o
  optional_map_config_back =
      option_back (sanitize_public_map_config js) json_map_config IsMapConfig map_config_none
        map_config_back

  optional_counts_back :
      (o : Option (List (String × N)))
      → OnSome IsCounts o
      → sanitize_string_number_map js (of_option json_counts o) ≡ o
  unfolding sanitize_string_number_map
  optional_counts_back =
      option_back (sanitize_string_number_map js) json_counts IsCounts refl (counts_back js)

  optional_buckets_back :
      (o : Option (List (String × List (String × N))))
      → OnSome IsBuckets o
      → sanitize_nested_number_map js (of_option json_buckets o) ≡ o
  unfolding sanitize_nested_number_map
  optional_buckets_back =
      option_back (sanitize_nested_number_map js) json_buckets IsBuckets refl (buckets_back js)

  stats_back :
      (now : N) → (s : PublicStats N) → IsStats s → sanitize_public_stats js now (json_stats s) ≡ s
  unfolding sanitize_public_stats json_stats string_discrete sanitize_number get
  stats_back now s h =
      rw
        (
          optional_number_back js s.latest_seq,
          optional_buckets_back s.resolution_buckets h.resolution_buckets,
          optional_counts_back s.excluded_iatas h.excluded_iatas,
          optional_counts_back s.excluded_regions h.excluded_regions,
        )
        refl

  -- A sane public state that is written as JSON text and parsed is read back by the sanitizer as it
  -- was, whatever the clock says, where `toLowerCase` leaves the names of the roles as they are.
  pub sanitize_public_state-json_state :
      (lower : String → String)
      → ((r : NodeRole) → lower (role_name r) ≡ role_name r)
      → (now : N) → (s : PublicLiveState N) → IsState s
      → sanitize_public_state js lower now (json_state s) ≡ s
  unfolding sanitize_public_state json_state string_discrete sanitize_number get
  sanitize_public_state-json_state lower roles now s h =
      rw
        (
          optional_map_config_back s.map h.map,
          list_back (sanitize_public_state_node js lower now) json_node IsNode
              (node_back js lower roles now) js s.nodes h.nodes,
          list_back (sanitize_public_state_route js) json_route IsRoute (route_back js) js s.routes
              h.routes,
          list_back (sanitize_public_state_pulse js now) json_pulse IsPulse (pulse_back js now) js
              s.recent_pulses h.recent_pulses,
          list_back (sanitize_public_state_activity js now) json_activity IsActivity
              (activity_back js now) js s.recent_activity h.recent_activity,
          stats_back now s.stats h.stats,
        )
        refl
