-- ===== src/Tests/Api.antt =====
-- The sanitizers and the offline snapshot (web/src/api.ts) on small values. The numbers here are the
-- natural ones, written in unary: 0 is "0", 1 is "10", 2 is "110".
use Prim.Native.Char.{code}
use Prim.Native.String.{[], ◌∷◌}
use mc_carto_live.Prelude.{
  ℕ, zero, suc, String, string_discrete, true, ◌≡◌, refl, Option, none, some, leb, ◌+◌, ◌-◌, All,
  arith, max, ◌==◌, ◌&&◌, if◌then◌else◌, map, leb→le, le→leb,
}
use mc_carto_live.Prelude.JsString.{is_empty, trim, trim_end, trim_start}
use mc_carto_live.Prelude.JsValue.{
  JsNumbers, Value, null, boolean, number, string, array, object, values, no_values, field,
  no_fields, get, is_plain,
}
use mc_carto_live.Types.{NodeRole}
use mc_carto_live.Prelude.{[], ◌∷◌}
use mc_carto_live.Api.Data.{PublicNode}
use mc_carto_live.Api.Scalars.{sanitize_number, sanitize_string, sanitize_list, normalize_node_role}
use mc_carto_live.Api.State.{
  sanitize_public_state, sanitize_public_state_node, sanitize_public_state_activity,
}
use mc_carto_live.Api.State.Json.{json_state, role_name}
use mc_carto_live.Api.State.Sane.{IsText, IsState}
use mc_carto_live.Api.State.Back.Whole.{sanitize_public_state-json_state}
use mc_carto_live.Api.State.Made.Whole.{sanitize_public_state-IsState}
use mc_carto_live.Api.Cache.{
  SnapshotCache, offline_cache, failed, fetch_public_state, fetch_public_state_with_fallback,
  write_public_state_snapshot, fetch_public_state_with_fallback-offline,
}
use mc_carto_live.Api.Events.{PublicEvent, sanitize_public_events_response}
use mc_carto_live.Api.Events.Sound.{IsEvent, sanitize_public_events_response-IsEvent}

abbrev digits : ℕ → String
digits zero = "0"
digits (suc n) = "1" ∷ digits n

-- The value that is read of what follows a numeral.
abbrev one_more : Option ℕ → Option ℕ
one_more none = none
one_more (some n) = some (suc n)

abbrev read_digits : String → Option ℕ
read_digits [] = none
read_digits (c ∷ s) =
    let rest = read_digits s in
    if code c == 49 then one_more rest else if code c == 48 && is_empty s then some 0 else none

abbrev unary : JsNumbers ℕ
unary = record {
  of_string = read_digits;
  to_string = digits;
  numeral = λ n. n;
  add = λ a b. a + b;
  sub = λ a b. a - b;
  max = max;
  le = leb;
}

trim_end-digits : (n : ℕ) → trim_end (digits n) ≡ digits n
unfolding trim_end
trim_end-digits zero = refl
trim_end-digits (suc n) = rw (trim_end-digits n) refl

digits-IsText : (n : ℕ) → IsText (digits n)
unfolding trim trim_start
digits-IsText zero = record { trimmed = refl; filled = refl }
digits-IsText (suc n) = record { trimmed = trim_end-digits (suc n); filled = refl }

abbrev same : String → String
same s = s

roles_kept : (r : NodeRole) → same (role_name r) ≡ role_name r
roles_kept r = refl

abbrev raw_node : Value ℕ
raw_node = object (
    field "id" (string " n1 ") (
      field "role" (string "repeater") (
        field "latitude" (string "110") (
          field "lastSeen" null (
            field "iatasHeardIn"
              (array (values (string "YYZ") (values null (values (number 1) no_values))))
              (no_fields))))))

abbrev raw_activity : Value ℕ
raw_activity = object (
    field "id" (string "a1")
      (field "heardAt" (number 7) (field "hasRoute" (boolean true) (no_fields))))

abbrev raw_state : Value ℕ
raw_state = object (
    field "serverTime" (number 9) (
      field "nodes" (array (values raw_node (values (string "n2") no_values)))
        (field "recentActivity" (array (values raw_activity no_values)) (no_fields))))

abbrev raw_events : Value ℕ
raw_events = object (
    field "events"
      (array (
        values
          (object (
            field "seq" (number 4)
              (field "type" (string "activity") (field "data" raw_activity no_fields))))
          (values (object (field "seq" (number 6) (field "type" (string "health") no_fields))) (
            values (object (field "seq" (number 0) (field "type" (string "health") no_fields)))
              no_values))))
      (no_fields))

abbrev idle : SnapshotCache ℕ
idle = record { last_write_at = 0; pending = none; stored = none }

label_ok :
    map (λ (n : PublicNode ℕ). n.label) (sanitize_public_state unary same 50 raw_state).nodes
    ≡ "n1" ∷ []
unfolding sanitize_public_state string_discrete sanitize_list get sanitize_string
    sanitize_public_state_node normalize_node_role sanitize_number
label_ok = refl

-- `Number(null)` is 0, so the fallback does not stand in for `null`.
last_seen_ok :
    map (λ (n : PublicNode ℕ). n.last_seen) (sanitize_public_state unary same 50 raw_state).nodes
    ≡ 0 ∷ []
unfolding sanitize_public_state string_discrete sanitize_list get sanitize_string
    sanitize_public_state_node normalize_node_role sanitize_number
last_seen_ok = refl

events_ok :
    map
      (λ (e : PublicEvent ℕ). e.seq)
      (sanitize_public_events_response unary same 50 raw_events).events
    ≡ 4 ∷ 6 ∷ []
unfolding sanitize_public_events_response string_discrete sanitize_list get sanitize_number
    sanitize_string sanitize_public_state_activity
events_ok = refl

raw_plain : is_plain raw_state ≡ true
unfolding is_plain string_discrete
raw_plain = refl

sanitize_public_state-IsState_example : IsState (sanitize_public_state unary same 50 raw_state)
sanitize_public_state-IsState_example =
    sanitize_public_state-IsState unary digits-IsText same 50 raw_state raw_plain

sanitize_public_state-json_state_example :
    sanitize_public_state unary same 80 (json_state (sanitize_public_state unary same 50 raw_state))
    ≡ sanitize_public_state unary same 50 raw_state
sanitize_public_state-json_state_example =
    sanitize_public_state-json_state unary same roles_kept 80
      (sanitize_public_state unary same 50 raw_state)
      (sanitize_public_state-IsState unary digits-IsText same 50 raw_state raw_plain)

fetch_public_state_with_fallback-offline_example :
    let (state, c) = fetch_public_state unary same 70000 raw_state idle in
    (fetch_public_state_with_fallback unary same 100000 failed
      (write_public_state_snapshot unary true 70500 c)).0
    ≡ some (record { state = state; source = offline_cache; cached_at = some 70500 })
fetch_public_state_with_fallback-offline_example =
    fetch_public_state_with_fallback-offline unary same roles_kept digits-IsText 70000 70500 100000
      raw_state idle refl refl refl refl refl

sanitize_public_events_response-IsEvent_example :
    All (IsEvent unary) (sanitize_public_events_response unary same 50 raw_events).events
sanitize_public_events_response-IsEvent_example =
    sanitize_public_events_response-IsEvent unary digits-IsText same 50 raw_events

leb_max_left : (a b : ℕ) → leb a (max a b) ≡ true
leb_max_left a b = ground arith

leb_max_right : (a b : ℕ) → leb b (max a b) ≡ true
leb_max_right a b = ground arith

leb_trans : (a b c : ℕ) → leb a b ≡ true → leb b c ≡ true → leb a c ≡ true
leb_trans a b c h k = le→leb a c (omega (arith, leb→le a b h, leb→le b c k))

leb_refl : (a : ℕ) → leb a a ≡ true
leb_refl a = ground arith

abbrev raw_bootstrap : Value ℕ
raw_bootstrap = object (
    field "latestSeq" (number 12)
      (field "recentActivity" (array (values raw_activity (values null no_values))) (no_fields)))
