-- ===== src/Chat.antt =====
-- web/src/chat.ts: the messages that the chat shows. The functions that rewrite texts by regular
-- expressions are parameters: `safe_chat_text` (`safeChatText`, with its fallback), `display_token`
-- (`normalizeDisplayToken`), `is_long_enough` (`isLongEnoughForTextDedupe`); so are `toLowerCase`,
-- `toUpperCase` and `includes` of texts. Times are natural numbers.
pub mod Spacing
pub mod Dedupe
use Prim.Native.Char.{code}
use Prim.Native.String.{[] as end_of_text, ◌∷◌ as char_before, ◌++◌ as str_append}
use mc_carto_live.Prelude.{
  ℕ, zero, suc, ◌+◌, ◌-◌, max, String, string_discrete, ite, Bool, true, false, not, ◌&&◌, ◌||◌,
  leb, ◌==◌, Option, none, some, List, [], ◌∷◌, ◌⁇◌, ◌++◌, ◌<|>◌, filter, if◌then◌else◌,
}
use mc_carto_live.Prelude.{any}
use mc_carto_live.Prelude.JsString.{trim, is_empty}
use mc_carto_live.Prelude.JsMap.{JsMap, get, set}
use mc_carto_live.Prelude.JsSet.{has, add}
use mc_carto_live.Api.Data.{PublicMessageAnchor}
use mc_carto_live.Api.Chat.{PublicChatMessage}

abbrev pub Message : Type 0
Message = PublicChatMessage ℕ

pub record ChatFilters : Type 0 where
  pub query : String
  pub region : String
  pub channel : String

-- `to` is rounded already.
abbrev pub chat_window_for_scope : ℕ → ℕ → ℕ × ℕ
chat_window_for_scope now scope_ms = (now - scope_ms, now)

abbrev pub chat_region : Message → String
chat_region message = message.region ⁇ message.iata ⁇ ""

-- `[A-Z0-9_ -]`
abbrev pub is_filter_code : ℕ → Bool
is_filter_code c = (leb 65 c && leb c 90) || (leb 48 c && leb c 57) || c == 95 || c == 32 || c == 45

abbrev pub keep_filter_codes : String → String
keep_filter_codes end_of_text = ""
keep_filter_codes (char_before c s) =
    let rest = keep_filter_codes s in if is_filter_code (code c) then char_before c rest else rest

abbrev pub take_codes : ℕ → String → String
take_codes zero s = ""
take_codes (suc n) end_of_text = ""
take_codes (suc n) (char_before c s) = char_before c (take_codes n s)

-- `[...].filter(Boolean)`
abbrev pub filled_texts : List String → List String
filled_texts texts = filter (λ s. not (is_empty s)) texts

abbrev pub anchor_label : Option (PublicMessageAnchor ℕ) → String
anchor_label none = ""
anchor_label (some anchor) = anchor.label

abbrev pub differs : String → String → Bool
differs left right = ite (string_discrete left right) false true

-- `left || right`, for texts.
abbrev pub text_or : String → String → String
text_or left right = if is_empty left then right else left

abbrev pub chat_display_dedupe_window_ms : ℕ
chat_display_dedupe_window_ms = 86400000

abbrev pub chat_text_dedupe_window_ms : ℕ
chat_text_dedupe_window_ms = 600000

abbrev pub chat_within_window : ℕ → ℕ → ℕ → Bool
chat_within_window a b window_ms = leb ((a - b) + (b - a)) window_ms

-- A previous time is known, and the time lies within the window of it.
abbrev pub is_repeated : ℕ → Option ℕ → ℕ → Bool
is_repeated window_ms none at = false
is_repeated window_ms (some previous_at) at = chat_within_window previous_at at window_ms

-- Whether the key stands for a time within the window.
abbrev pub is_repeat : ℕ → String → JsMap ℕ → ℕ → Bool
is_repeat window_ms key seen at = not (is_empty key) && is_repeated window_ms (get key seen) at

-- The time stands for the key from now on; no key, no change.
abbrev pub note : String → ℕ → JsMap ℕ → JsMap ℕ
note key at seen = if is_empty key then seen else set key at seen

-- `seenIds`, `seenPublicMessages` and `seenTextMessages` of `dedupeChatMessages`.
pub record Seen : Type 0 where
  pub ids : List String
  pub public_messages : JsMap ℕ
  pub text_messages : JsMap ℕ

abbrev pub nothing_seen : Seen
nothing_seen = record { ids = []; public_messages = []; text_messages = [] }

-- `out.push` of what is shown.
abbrev pub push : Option Message → List Message → List Message
push none out = out
push (some safe) out = safe ∷ out

module _ (safe_chat_text : Option String → String → String) (display_token : Option String → String)
    (is_long_enough : String → Bool) where
  unfoldable pub safe_chat_message : Message → Message
  safe_chat_message message = record message {
    sender = some (safe_chat_text message.sender "Unknown");
    text = safe_chat_text (some message.text) "";
    channel_label = some (safe_chat_text message.channel_label "Public");
    payload_type_name = safe_chat_text (some message.payload_type_name) "Message";
    source = none;
    route_ids = none;
  }

  unfoldable pub chat_display_dedupe_key : Message → String
  chat_display_dedupe_key message =
      let sender = display_token message.sender in
      let text = display_token (some message.text) in
      if is_empty sender || is_empty text then "" else str_append sender (str_append "|" text)

  unfoldable pub chat_text_dedupe_key : Message → String
  chat_text_dedupe_key message =
      let text = display_token (some message.text) in
      let channel =
        text_or (display_token message.channel_label)
          (text_or (display_token (some message.payload_type_name)) "message") in
      if not (is_long_enough text) then "" else str_append channel (str_append "|" text)

  -- What has been seen once the display key of the safe message is noted.
  abbrev pub displayed : Message → Seen → Seen
  displayed safe seen = record seen {
    public_messages = note (chat_display_dedupe_key safe) safe.at seen.public_messages;
  }

  -- What has been seen once the safe message is shown.
  abbrev pub shown : Message → Seen → Seen
  shown safe seen = record {
    ids = add safe.id seen.ids;
    public_messages = note (chat_display_dedupe_key safe) safe.at seen.public_messages;
    text_messages = note (chat_text_dedupe_key safe) safe.at seen.text_messages;
  }

  -- One message of the loop: what is shown of it, if it is, and what has been seen then.
  unfoldable pub dedupe_one : Message → Seen → Option Message × Seen
  dedupe_one message seen =
      let safe = safe_chat_message message in
      if has message.id seen.ids
      then (none, seen)
      else if is_repeat chat_display_dedupe_window_ms (chat_display_dedupe_key safe)
          seen.public_messages safe.at
      then (none, seen)
      else if is_repeat chat_text_dedupe_window_ms (chat_text_dedupe_key safe) seen.text_messages
          safe.at
      then (none, displayed safe seen)
      else (some safe, shown safe seen)

  unfoldable pub dedupe_loop : Seen → List Message → List Message
  unfolding dedupe_one
  dedupe_loop seen [] = []
  dedupe_loop seen (message ∷ messages) =
      let (shown, seen') = dedupe_one message seen in push shown (dedupe_loop seen' messages)

  unfoldable pub dedupe_chat_messages : List Message → List Message
  unfolding dedupe_loop
  dedupe_chat_messages messages = dedupe_loop nothing_seen messages

  module _ (lower upper : String → String) (includes : String → String → Bool) where
    unfoldable pub normalize_chat_filter : String → String
    normalize_chat_filter value = take_codes 32 (keep_filter_codes (upper (trim value)))

    unfoldable pub chat_search_fields : Message → List String
    unfolding safe_chat_message
    chat_search_fields message =
        let safe = safe_chat_message message in
        filled_texts (
          chat_region safe
          ∷ (safe.sender ⁇ "")
          ∷ safe.text
          ∷ (safe.channel_label ⁇ "")
          ∷ safe.payload_type_name
          ∷ (anchor_label safe.anchor)
          ∷ (safe.endpoint_labels ⁇ []))

    unfoldable pub chat_matches_filters : Message → ChatFilters → Bool
    unfolding chat_search_fields normalize_chat_filter
    chat_matches_filters message filters =
        let query = lower (trim filters.query) in
        let region = normalize_chat_filter filters.region in
        let channel = lower (trim filters.channel) in
        if not (is_empty region) && differs (upper (chat_region message)) region
        then false
        else if not (is_empty channel) && differs (lower (message.channel_label ⁇ "")) channel
        then false
        else if is_empty query
        then true
        else any (λ text. includes query (lower text)) (chat_search_fields message)

    unfoldable pub filter_chat_messages : List Message → ChatFilters → List Message
    unfolding chat_matches_filters
    filter_chat_messages messages filters =
        filter (λ message. chat_matches_filters message filters) messages
