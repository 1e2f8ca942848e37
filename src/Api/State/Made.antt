-- ===== src/Api/State/Made.antt =====
-- The sanitizers of single values in web/src/api.ts give sane values.
pub mod Parts
pub mod Whole
use mc_carto_live.Prelude.{
  String, string_discrete, Bool, true, false, ◌≡◌, refl, sym, ap, ◌∙◌, Option, none, some,
  Bool-cases, inl, inr, not, ◌||◌, List, [], ◌∷◌, if◌then◌else◌, All, ◌≢◌,
}
use mc_carto_live.Prelude.JsString.{trim, is_empty, trim_idem}
use mc_carto_live.Prelude.JsValue.{
  JsNumbers, Value, undefined, string, number, array, object, boolean, get, of_option, of_list,
  item_text, text_of, infinity, null, Values, no_values, values, is_object,
}
use mc_carto_live.Types.{
  NodeRole, companion, repeater, room_server, sensor, unknown, PublicAnimationState, route,
  observer, unmapped, PublicResolutionBucket, routed, observer_only, unresolved_path,
  missing_location, rf_gated, distance_gated, not_map_safe,
}
use mc_carto_live.Api.Data.{
  PublicNode, PublicRouteEndpoint, PublicRouteSegment, PublicRoute, PublicMessageAnchor,
  PublicObserverLocation, PublicRoutePulse, PublicActivity, Bounds, PublicMapConfig, PublicStats,
  PublicLiveState, ReplayOptions, ActivityKind, AnimationStyle, comet, pulse, minimal,
}
use mc_carto_live.Api.Scalars.{
  sanitize_string, sanitize_string_or_undefined, sanitize_number, sanitize_optional_number,
  safe_string_list, string_items, unless_empty, sanitize_list, sanitize_items, normalize_node_role,
  number_entries, sanitize_string_number_map, bucket_entries, sanitize_nested_number_map,
  sanitize_activity_kind, sanitize_animation_state, sanitize_resolution_bucket, entries, is_own,
  assign, safe_string_number,
}
use mc_carto_live.Api.Places.{
  sanitize_public_route_endpoint, sanitize_public_message_anchor, sanitize_public_observer_location,
  with_ends, sanitize_public_state_segment, sanitize_public_state_route,
}
use mc_carto_live.Api.State.{
  boolean_or_undefined, sanitize_route_replay_options, sanitize_public_state_node,
  sanitize_public_state_pulse, sanitize_public_state_activity, sanitize_numeric_tuple,
  sanitize_public_bounds, sanitize_public_map_config, sanitize_public_stats, sanitize_public_state,
}
use mc_carto_live.Api.State.Json.{
  role_name, activity_kind_name, animation_state_name, resolution_bucket_name, animation_style_name,
  strings, fields_of, json_counts, json_buckets, json_pair, json_endpoint, json_anchor,
  json_location, json_segment, json_route, json_replay_options, json_node, json_pulse,
  json_activity, json_bounds, json_map_config, json_stats, json_state,
}
use mc_carto_live.Api.State.Sane.{
  OnSome, IsText, IsFilled, IsCounts, HasOwnKey, HasCounts, IsBuckets, IsEndpoint, IsAnchor,
  IsLocation, IsSegment, IsRoute, IsNode, IsPulse, IsActivity, IsMapConfig, IsStats, IsState,
}

trim_empty : trim "" ≡ ""
unfolding trim
trim_empty = refl

pub if_OnSome :
    {A : Type 0}
    → (P : A → Type 0) → (b : Bool) → (o : Option A) → OnSome P o
    → OnSome P (if b then o else none)
if_OnSome P true o h = h
if_OnSome P false o h = tt

cons_OnSome :
    {A : Type 0}
    → (P : A → Type 0) → (o : Option A) → OnSome P o
    → (xs : List A) → All P xs
    → All P (elim o [ none ↦ xs | some a ↦ a ∷ xs ])
cons_OnSome P none h xs hs = hs
cons_OnSome P (some a) h xs hs = (h, hs)

assign-All :
    {A : Type 0}
    → (P : String × A → Type 0) → (key : String) → (a : A) → (is_own key ≡ true → P (key, a))
    → (out : List (String × A)) → All P out
    → All P (assign key a out)
assign-All P key a h out hs = elim (Bool-cases (is_own key)) [
  | inl own ↦ rw own (h own, hs)
  | inr other ↦ rw other hs
]

assign_numbers :
    {N : Type 0}
    → (key : String) → (o : Option N) → (out : List (String × N)) → All HasOwnKey out
    → All HasOwnKey (elim o [ none ↦ out | some n ↦ assign key n out ])
assign_numbers key none out hs = hs
assign_numbers key (some n) out hs = assign-All HasOwnKey key n (λ own. own) out hs

assign_counts :
    {N : Type 0}
    → (bucket : String) → (o : Option (List (String × N))) → OnSome IsCounts o
    → (bs : List (String × List (String × N))) → All HasCounts bs
    → All HasCounts (elim o [ none ↦ bs | some clean ↦ assign bucket clean bs ])
assign_counts bucket none h bs hs = hs
assign_counts bucket (some counts) h bs hs =
    assign-All HasCounts bucket counts (λ own. (own, h)) bs hs

pub guarded :
    {A : Type 0}
    → (P : A → Type 0) → (is_value : Bool) → (name : String) → (o : Option A)
    → (is_empty name ≡ false → OnSome P o)
    → OnSome P (if not is_value || is_empty name then none else o)
guarded P false name o h = tt
guarded P true name o h = elim (Bool-cases (is_empty name)) [
  | inl empty ↦ rw empty tt
  | inr filled ↦ rw filled (h filled)
]

module _ {N : Type 0} (js : JsNumbers N) (numerals : (n : N) → IsText (js.to_string n)) where
  pub sanitize_string-IsText :
      (v : Value N) → (fallback : String) → IsText fallback → IsText (sanitize_string js v fallback)
  unfolding sanitize_string
  sanitize_string-IsText v fallback h = elim (Bool-cases (is_empty (trim (text_of js v)))) [
    | inl empty ↦ rw empty h
    | inr filled ↦ rw filled (record { trimmed = trim_idem (text_of js v); filled = filled })
  ]

  pub sanitize_string-trimmed :
      (v : Value N) → trim (sanitize_string js v "") ≡ sanitize_string js v ""
  unfolding sanitize_string
  sanitize_string-trimmed v = elim (Bool-cases (is_empty (trim (text_of js v)))) [
    | inl empty ↦ rw empty trim_empty
    | inr filled ↦ rw filled (trim_idem (text_of js v))
  ]

  pub sanitize_string-filled :
      (v : Value N) → is_empty (sanitize_string js v "") ≡ false → IsText (sanitize_string js v "")
  sanitize_string-filled v h = record { trimmed = sanitize_string-trimmed v; filled = h }

  pub sanitize_string_or_undefined-IsText :
      (v : Value N) → OnSome IsText (sanitize_string_or_undefined js v)
  unfolding sanitize_string_or_undefined
  sanitize_string_or_undefined-IsText (string s) = elim (Bool-cases (is_empty (trim s))) [
    | inl empty ↦ rw empty tt
    | inr filled ↦ rw filled (record { trimmed = trim_idem s; filled = filled })
  ]
  sanitize_string_or_undefined-IsText (number n) = numerals n
  sanitize_string_or_undefined-IsText undefined = tt
  sanitize_string_or_undefined-IsText null = tt
  sanitize_string_or_undefined-IsText (boolean b) = tt
  sanitize_string_or_undefined-IsText (infinity b) = tt
  sanitize_string_or_undefined-IsText (array vs) = tt
  sanitize_string_or_undefined-IsText (object fs) = tt

module _ {N : Type 0} (js : JsNumbers N) where
  sanitize_items-All :
      {A : Type 0}
      → (P : A → Type 0) → (f : Value N → Option A) → ((v : Value N) → OnSome P (f v))
      → (vs : Values N) → All P (sanitize_items js f vs)
  unfolding sanitize_items
  sanitize_items-All P f h no_values = tt
  sanitize_items-All P f h (values v vs) =
      cons_OnSome P (f v) (h v) (sanitize_items js f vs) (sanitize_items-All P f h vs)

  pub sanitize_list-All :
      {A : Type 0}
      → (P : A → Type 0) → (f : Value N → Option A) → ((v : Value N) → OnSome P (f v))
      → (v : Value N) → All P (sanitize_list js f v)
  unfolding sanitize_list
  sanitize_list-All P f h (array vs) = sanitize_items-All P f h vs
  sanitize_list-All P f h undefined = tt
  sanitize_list-All P f h null = tt
  sanitize_list-All P f h (boolean b) = tt
  sanitize_list-All P f h (number n) = tt
  sanitize_list-All P f h (infinity b) = tt
  sanitize_list-All P f h (string s) = tt
  sanitize_list-All P f h (object fs) = tt

  number_entries-HasOwnKey : (es : List (String × Value N)) → All HasOwnKey (number_entries js es)
  unfolding number_entries
  number_entries-HasOwnKey [] = tt
  number_entries-HasOwnKey ((key, count) ∷ es) =
      assign_numbers key (safe_string_number js count) (number_entries js es)
        (number_entries-HasOwnKey es)

  unless_empty-IsCounts :
      {A : Type 0}
      → (xs : List (String × A)) → All HasOwnKey xs
      → OnSome IsCounts (unless_empty js xs)
  unless_empty-IsCounts [] h = tt
  unless_empty-IsCounts (x ∷ xs) h = (tt, h)

  pub sanitize_string_number_map-IsCounts :
      (v : Value N) → OnSome IsCounts (sanitize_string_number_map js v)
  unfolding sanitize_string_number_map
  sanitize_string_number_map-IsCounts v =
      if_OnSome IsCounts (is_object v) (unless_empty js (number_entries js (entries js v))) (
        unless_empty-IsCounts (number_entries js (entries js v))
          (number_entries-HasOwnKey (entries js v)))

  bucket_entries-HasCounts : (es : List (String × Value N)) → All HasCounts (bucket_entries js es)
  unfolding bucket_entries
  bucket_entries-HasCounts [] = tt
  bucket_entries-HasCounts ((bucket, raw) ∷ es) =
      assign_counts bucket (sanitize_string_number_map js raw)
        (sanitize_string_number_map-IsCounts raw) (bucket_entries js es)
        (bucket_entries-HasCounts es)

  unless_empty-IsBuckets :
      (bs : List (String × List (String × N)))
      → All HasCounts bs
      → OnSome IsBuckets (unless_empty js bs)
  unless_empty-IsBuckets [] h = tt
  unless_empty-IsBuckets (b ∷ bs) h = record { filled = tt; counts = h }

  pub sanitize_nested_number_map-IsBuckets :
      (v : Value N) → OnSome IsBuckets (sanitize_nested_number_map js v)
  unfolding sanitize_nested_number_map
  sanitize_nested_number_map-IsBuckets v =
      if_OnSome IsBuckets (is_object v) (unless_empty js (bucket_entries js (entries js v))) (
        unless_empty-IsBuckets (bucket_entries js (entries js v))
          (bucket_entries-HasCounts (entries js v)))
