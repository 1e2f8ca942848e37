-- ===== src/Tests/Chat.antt =====
-- The chat (web/src/chat.ts) on small lists. Texts are left as they are here, and every text is long
-- enough.
use mc_carto_live.Prelude.{
  ℕ, String, string_discrete, Bool, true, ◌≡◌, refl, Option, none, some, List, [], ◌∷◌, ◌⁇◌, map,
  arith,
}
use mc_carto_live.Prelude.JsMap.{get, set}
use mc_carto_live.Prelude.JsSet.{has, add}
use mc_carto_live.Chat.{
  Message, safe_chat_message, chat_display_dedupe_key, chat_text_dedupe_key, dedupe_chat_messages,
  chat_display_dedupe_window_ms, chat_text_dedupe_window_ms,
}
use mc_carto_live.Chat.Spacing.{Spaced}
use mc_carto_live.Chat.Dedupe.{dedupe_chat_messages-Spaced}

abbrev message : String → ℕ → String → String → Message
message id at sender text = record {
  id = id;
  at = at;
  region = none;
  iata = none;
  sender = some sender;
  text = text;
  channel_label = none;
  payload_type_name = "Message";
  source = none;
  anchor = none;
  route_ids = none;
  endpoint_labels = none;
}

abbrev as_is : Option String → String → String
as_is o fallback = o ⁇ fallback

abbrev token : Option String → String
token o = o ⁇ ""

abbrev long : String → Bool
long s = true

-- Bob's copy is hidden by Ann's; his second one is 20 hours older.
abbrev chat : List Message
chat =
    message "m1" 90000000 "ann" "hello"
    ∷ message "m2" 89999000 "bob" "hello"
    ∷ message "m1" 80000000 "ann" "bye"
    ∷ message "m3" 18000000 "bob" "hello"
    ∷ []

-- The second message of Bob is hidden by his first one, which is not shown.
chat_ok : map (λ (m : Message). m.id) (dedupe_chat_messages as_is token long chat) ≡ "m1" ∷ []
unfolding dedupe_chat_messages safe_chat_message chat_display_dedupe_key chat_text_dedupe_key
    string_discrete get set has add
chat_ok = refl

dedupe_chat_messages-Spaced_example :
    let shown = dedupe_chat_messages as_is token long chat in
    Spaced (chat_display_dedupe_key as_is token long) chat_display_dedupe_window_ms shown
    × Spaced (chat_text_dedupe_key as_is token long) chat_text_dedupe_window_ms shown
dedupe_chat_messages-Spaced_example = dedupe_chat_messages-Spaced as_is token long chat (
  (omega arith, (omega arith, (omega arith, tt))),
  ((omega arith, (omega arith, tt)), ((omega arith, tt), (tt, tt))),
)
