-- ===== src/Api/Scalars.antt =====
-- The sanitizers of single values in web/src/api.ts: texts, numbers, lists of texts, maps of numbers,
-- and the names that stand for one of a few choices.
use mc_carto_live.Prelude.{
  ℕ, String, string_discrete, ite, Bool, true, false, Option, none, some, List, [], ◌∷◌, ◌⁇◌,
  if◌then◌else◌, suc,
}
use mc_carto_live.Prelude.JsString.{trim, is_empty}
use mc_carto_live.Prelude.JsValue.{
  JsNumbers, Value, Values, Fields, boolean, number, string, array, object, no_values, values,
  no_fields, field, is_object, text_of, number_of,
}
use mc_carto_live.Types.{
  NodeRole, companion, repeater, room_server, sensor, unknown, PublicAnimationState, route,
  observer, unmapped, PublicResolutionBucket, routed, observer_only, unresolved_path,
  missing_location, rf_gated, distance_gated, not_map_safe,
}
use mc_carto_live.Api.Data.{ActivityKind, AnimationStyle, comet, pulse, minimal}

-- The first choice that has the name.
abbrev pub choose : {A : Type 0} → String → List (String × A) → Option A
choose name [] = none
choose name ((n, a) ∷ choices) = ite (string_discrete name n) (some a) (choose name choices)

abbrev pub roles : List (String × NodeRole)
roles =
    ("companion", companion)
    ∷ ("repeater", repeater)
    ∷ ("room_server", room_server)
    ∷ ("sensor", sensor)
    ∷ []

abbrev pub animation_states : List (String × PublicAnimationState)
animation_states = ("route", route) ∷ ("observer", observer) ∷ ("unmapped", unmapped) ∷ []

abbrev pub resolution_buckets : List (String × PublicResolutionBucket)
resolution_buckets =
    ("routed", routed)
    ∷ ("observer_only", observer_only)
    ∷ ("unresolved_path", unresolved_path)
    ∷ ("missing_location", missing_location)
    ∷ ("rf_gated", rf_gated)
    ∷ ("distance_gated", distance_gated)
    ∷ ("not_map_safe", not_map_safe)
    ∷ []

abbrev pub activity_kinds : List (String × ActivityKind)
activity_kinds = ("packet", ActivityKind.packet) ∷ ("route", ActivityKind.route) ∷ []

abbrev pub animation_styles : List (String × AnimationStyle)
animation_styles = ("comet", comet) ∷ ("pulse", pulse) ∷ ("minimal", minimal) ∷ []

-- `out[key] = a` for a key that is not yet there. To assign to `__proto__` makes no key.
abbrev pub is_own : String → Bool
is_own key = ite (string_discrete key "__proto__") false true

abbrev pub assign : {A : Type 0} → String → A → List (String × A) → List (String × A)
assign key a out = if is_own key then (key, a) ∷ out else out

module _ {N : Type 0} (js : JsNumbers N) where
  unfoldable pub sanitize_string : Value N → String → String
  unfolding trim
  sanitize_string value fallback =
      let next = trim (text_of js value) in if is_empty next then fallback else next

  unfoldable pub sanitize_string_or_undefined : Value N → Option String
  unfolding trim
  sanitize_string_or_undefined (string s) = if is_empty (trim s) then none else some (trim s)
  sanitize_string_or_undefined (number n) = some (js.to_string n)
  sanitize_string_or_undefined value = none

  unfoldable pub sanitize_number : Value N → N → N
  unfolding number_of
  sanitize_number value fallback = number_of js value ⁇ fallback

  unfoldable pub sanitize_optional_number : Value N → Option N
  unfolding number_of
  sanitize_optional_number value = number_of js value

  unfoldable pub safe_string_number : Value N → Option N
  unfolding trim
  safe_string_number (number n) = some n
  safe_string_number (string s) = if is_empty (trim s) then none else js.of_string s
  safe_string_number value = none

  abbrev pub string_item : Value N → Option String
  string_item (string s) = some s
  string_item (number n) = some (js.to_string n)
  string_item (boolean b) = some (if b then "true" else "false")
  string_item value = none

  -- The loop of `safeStringList`.
  unfoldable pub string_items : Values N → List String
  string_items no_values = []
  string_items (values v vs) = elim (string_item v) [
    | none ↦ string_items vs
    | some s ↦ s ∷ string_items vs
  ]

  unfoldable pub safe_string_list : Value N → List String
  unfolding string_items
  safe_string_list (array vs) = string_items vs
  safe_string_list value = []

  -- `value.map(sanitize).filter(Boolean)`, for an array.
  unfoldable pub sanitize_items : {A : Type 0} → (Value N → Option A) → Values N → List A
  sanitize_items sanitize no_values = []
  sanitize_items sanitize (values v vs) = elim (sanitize v) [
    | none ↦ sanitize_items sanitize vs
    | some a ↦ a ∷ sanitize_items sanitize vs
  ]

  unfoldable pub sanitize_list : {A : Type 0} → (Value N → Option A) → Value N → List A
  unfolding sanitize_items
  sanitize_list sanitize (array vs) = sanitize_items sanitize vs
  sanitize_list sanitize value = []

  -- `Object.entries`: the keys of an array are its indices.
  abbrev pub field_entries : Fields N → List (String × Value N)
  field_entries no_fields = []
  field_entries (field k v fs) = (k, v) ∷ field_entries fs

  abbrev pub item_entries : ℕ → Values N → List (String × Value N)
  item_entries i no_values = []
  item_entries i (values v vs) = (js.to_string (js.numeral i), v) ∷ item_entries (suc i) vs

  abbrev pub entries : Value N → List (String × Value N)
  entries (object fs) = field_entries fs
  entries (array vs) = item_entries 0 vs
  entries value = []

  -- `undefined` for an object without keys.
  abbrev pub unless_empty : {A : Type 0} → List A → Option (List A)
  unless_empty [] = none
  unless_empty (x ∷ xs) = some (x ∷ xs)

  unfoldable pub number_entries : List (String × Value N) → List (String × N)
  unfolding safe_string_number
  number_entries [] = []
  number_entries ((key, count) ∷ es) = elim (safe_string_number count) [
    | none ↦ number_entries es
    | some n ↦ assign key n (number_entries es)
  ]

  unfoldable pub sanitize_string_number_map : Value N → Option (List (String × N))
  unfolding number_entries
  sanitize_string_number_map value =
      if is_object value then unless_empty (number_entries (entries value)) else none

  unfoldable pub bucket_entries : List (String × Value N) → List (String × List (String × N))
  bucket_entries [] = []
  bucket_entries ((bucket, raw) ∷ es) = elim (sanitize_string_number_map raw) [
    | none ↦ bucket_entries es
    | some clean ↦ assign bucket clean (bucket_entries es)
  ]

  unfoldable pub sanitize_nested_number_map : Value N → Option (List (String × List (String × N)))
  unfolding bucket_entries sanitize_string_number_map
  sanitize_nested_number_map value =
      if is_object value then unless_empty (bucket_entries (entries value)) else none

  unfoldable pub sanitize_activity_kind : Value N → ActivityKind
  unfolding sanitize_string
  sanitize_activity_kind value =
      choose (sanitize_string value "") activity_kinds ⁇ ActivityKind.packet

  unfoldable pub sanitize_animation_state : Value N → PublicAnimationState
  unfolding sanitize_string
  sanitize_animation_state value = choose (sanitize_string value "") animation_states ⁇ unmapped

  unfoldable pub sanitize_resolution_bucket : Value N → PublicResolutionBucket
  unfolding sanitize_string
  sanitize_resolution_bucket value =
      choose (sanitize_string value "") resolution_buckets ⁇ not_map_safe

  -- `lower` is `toLowerCase`.
  unfoldable pub normalize_node_role : (String → String) → Value N → NodeRole
  unfolding sanitize_string
  normalize_node_role lower value = choose (lower (sanitize_string value "")) roles ⁇ unknown
