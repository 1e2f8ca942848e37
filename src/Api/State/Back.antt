-- ===== src/Api/State/Back.antt =====
-- What the sanitizers of web/src/api.ts read back of a sane state that was written.
pub mod Parts
pub mod Whole
use mc_carto_live.Prelude.{
  String, string_discrete, Bool, true, false, ◌≡◌, refl, sym, ap, ◌∙◌, Option, none, some, List, [],
  ◌∷◌, if◌then◌else◌, All, ◌≢◌,
}
use mc_carto_live.Prelude.JsString.{trim, if_empty}
use mc_carto_live.Prelude.JsValue.{
  JsNumbers, Value, undefined, string, number, array, object, boolean, get, of_option, of_list,
  item_text,
}
use mc_carto_live.Types.{
  NodeRole, companion, repeater, room_server, sensor, unknown, PublicAnimationState, route,
  observer, unmapped, PublicResolutionBucket, routed, observer_only, unresolved_path,
  missing_location, rf_gated, distance_gated, not_map_safe,
}
use mc_carto_live.Api.Data.{
  PublicNode, PublicRouteEndpoint, PublicRouteSegment, PublicRoute, PublicMessageAnchor,
  PublicObserverLocation, PublicRoutePulse, PublicActivity, Bounds, PublicMapConfig, PublicStats,
  PublicLiveState, ReplayOptions, ActivityKind, AnimationStyle, comet, pulse, minimal,
}
use mc_carto_live.Api.Scalars.{
  sanitize_string, sanitize_string_or_undefined, sanitize_number, sanitize_optional_number,
  safe_string_list, string_items, sanitize_list, sanitize_items, normalize_node_role,
  number_entries, sanitize_string_number_map, bucket_entries, sanitize_nested_number_map,
  sanitize_activity_kind, sanitize_animation_state, sanitize_resolution_bucket, choose,
  animation_styles, field_entries, unless_empty, safe_string_number,
}
use mc_carto_live.Api.Places.{
  sanitize_public_route_endpoint, sanitize_public_message_anchor, sanitize_public_observer_location,
  sanitize_public_state_segment, sanitize_public_state_route,
}
use mc_carto_live.Api.State.{
  boolean_or_undefined, sanitize_route_replay_options, sanitize_public_state_node,
  sanitize_public_state_pulse, sanitize_public_state_activity, sanitize_numeric_tuple,
  sanitize_public_bounds, sanitize_public_map_config, sanitize_public_stats, sanitize_public_state,
}
use mc_carto_live.Api.State.Json.{
  role_name, activity_kind_name, animation_state_name, resolution_bucket_name, animation_style_name,
  strings, fields_of, json_counts, json_buckets, json_pair, json_endpoint, json_anchor,
  json_location, json_segment, json_route, json_replay_options, json_node, json_pulse,
  json_activity, json_bounds, json_map_config, json_stats, json_state,
}
use mc_carto_live.Api.State.Sane.{
  OnSome, IsText, IsFilled, IsCounts, HasOwnKey, HasCounts, IsBuckets, IsEndpoint, IsAnchor,
  IsLocation, IsSegment, IsRoute, IsNode, IsPulse, IsActivity, IsMapConfig, IsStats, IsState,
}

module _ {N : Type 0} where
  pub option_back :
      {A : Type 0}
      → (f : Value N → Option A) → (g : A → Value N) → (P : A → Type 0) → f undefined ≡ none
      → ((x : A) → P x → f (g x) ≡ some x)
      → (o : Option A) → OnSome P o
      → f (of_option g o) ≡ o
  option_back f g P e back none h = e
  option_back f g P e back (some x) h = back x h

  pub list_back :
      {A : Type 0}
      → (f : Value N → Option A) → (g : A → Value N) → (P : A → Type 0)
      → ((x : A) → P x → f (g x) ≡ some x)
      → (js : JsNumbers N) → (xs : List A) → All P xs
      → sanitize_list js f (array (of_list g xs)) ≡ xs
  unfolding sanitize_list
  list_back f g P back js [] h = refl
  list_back f g P back js (x ∷ xs) (hx, hxs) =
      rw (back x hx) (ap (λ ys. x ∷ ys) (list_back f g P back js xs hxs))

module _ {N : Type 0} (js : JsNumbers N) where
  pub sanitize_string-text :
      (s fallback : String) → IsText s → sanitize_string js (string s) fallback ≡ s
  unfolding sanitize_string item_text
  sanitize_string-text s fallback h = rw (h.trimmed, h.filled) refl

  pub sanitize_string-trimmed : (s : String) → trim s ≡ s → sanitize_string js (string s) "" ≡ s
  unfolding sanitize_string item_text
  sanitize_string-trimmed s h = rw h (if_empty s)

  pub sanitize_string_or_undefined-text :
      (s : String) → IsText s → sanitize_string_or_undefined js (string s) ≡ some s
  unfolding sanitize_string_or_undefined
  sanitize_string_or_undefined-text s h = rw (h.trimmed, h.filled) refl

  pub optional_text_back :
      (o : Option String)
      → OnSome IsText o
      → sanitize_string_or_undefined js (of_option string o) ≡ o
  unfolding sanitize_string_or_undefined
  optional_text_back =
      option_back (sanitize_string_or_undefined js) string IsText refl
        sanitize_string_or_undefined-text

  pub optional_number_back : (o : Option N) → sanitize_optional_number js (of_option number o) ≡ o
  unfolding sanitize_optional_number
  optional_number_back none = refl
  optional_number_back (some n) = refl

  pub safe_string_list-strings : (xs : List String) → safe_string_list js (strings xs) ≡ xs
  unfolding safe_string_list
  safe_string_list-strings [] = refl
  safe_string_list-strings (x ∷ xs) = ap (λ ys. x ∷ ys) (safe_string_list-strings xs)

  number_entries_back :
      (es : List (String × N))
      → All HasOwnKey es
      → number_entries js (field_entries js (fields_of number es)) ≡ es
  unfolding number_entries
  number_entries_back [] h = refl
  number_entries_back ((k, n) ∷ es) (h, hs) =
      rw h (ap (λ rest. (k, n) ∷ rest) (number_entries_back es hs))

  pub counts_back :
      (es : List (String × N))
      → IsCounts es
      → sanitize_string_number_map js (json_counts es) ≡ some es
  unfolding sanitize_string_number_map
  counts_back [] h = absurd h.0
  counts_back ((k, n) ∷ es) h = ap (unless_empty js) (number_entries_back ((k, n) ∷ es) h.1)

  bucket_entries_back :
      (bs : List (String × List (String × N)))
      → All HasCounts bs
      → bucket_entries js (field_entries js (fields_of json_counts bs)) ≡ bs
  unfolding bucket_entries
  bucket_entries_back [] h = refl
  bucket_entries_back ((bucket, counts) ∷ bs) (h, hs) =
      rw (bucket_entries, counts_back counts h.1, h.0)
        (ap (λ rest. (bucket, counts) ∷ rest) (bucket_entries_back bs hs))

  pub buckets_back :
      (bs : List (String × List (String × N)))
      → IsBuckets bs
      → sanitize_nested_number_map js (json_buckets bs) ≡ some bs
  unfolding sanitize_nested_number_map
  buckets_back [] h = absurd h.filled
  buckets_back ((bucket, counts) ∷ bs) h =
      ap (unless_empty js) (bucket_entries_back ((bucket, counts) ∷ bs) h.counts)

  pub role_back :
      (lower : String → String)
      → ((r : NodeRole) → lower (role_name r) ≡ role_name r)
      → (r : NodeRole) → normalize_node_role js lower (string (role_name r)) ≡ r
  unfolding normalize_node_role item_text string_discrete
  role_back lower h companion = rw (h companion) refl
  role_back lower h repeater = rw (h repeater) refl
  role_back lower h room_server = rw (h room_server) refl
  role_back lower h sensor = rw (h sensor) refl
  role_back lower h unknown = rw (h unknown) refl

  pub activity_kind_back :
      (k : ActivityKind) → sanitize_activity_kind js (string (activity_kind_name k)) ≡ k
  unfolding sanitize_activity_kind item_text string_discrete
  activity_kind_back ActivityKind.packet = refl
  activity_kind_back ActivityKind.route = refl

  pub animation_state_back :
      (s : PublicAnimationState) → sanitize_animation_state js (string (animation_state_name s)) ≡ s
  unfolding sanitize_animation_state item_text string_discrete
  animation_state_back PublicAnimationState.route = refl
  animation_state_back observer = refl
  animation_state_back unmapped = refl

  pub resolution_bucket_back :
      (b : PublicResolutionBucket)
      → sanitize_resolution_bucket js (string (resolution_bucket_name b)) ≡ b
  unfolding sanitize_resolution_bucket item_text string_discrete
  resolution_bucket_back routed = refl
  resolution_bucket_back observer_only = refl
  resolution_bucket_back unresolved_path = refl
  resolution_bucket_back missing_location = refl
  resolution_bucket_back rf_gated = refl
  resolution_bucket_back distance_gated = refl
  resolution_bucket_back not_map_safe = refl

  pub animation_style_back :
      (o : Option AnimationStyle)
      → choose
          (sanitize_string js (of_option (λ s. string (animation_style_name s)) o) "")
          animation_styles
        ≡ o
  unfolding sanitize_string item_text string_discrete
  animation_style_back none = refl
  animation_style_back (some comet) = refl
  animation_style_back (some pulse) = refl
  animation_style_back (some minimal) = refl

  pub boolean_back : (o : Option Bool) → boolean_or_undefined js (of_option boolean o) ≡ o
  boolean_back none = refl
  boolean_back (some b) = refl
