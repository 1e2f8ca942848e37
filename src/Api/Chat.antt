-- ===== src/Api/Chat.antt =====
-- The sanitizers of web/src/api.ts for the chat. `now` is `Date.now()`.
use mc_carto_live.Prelude.{String, not, ◌||◌, Option, none, some, List, if◌then◌else◌}
use mc_carto_live.Prelude.JsString.{is_empty}
use mc_carto_live.Prelude.JsValue.{JsNumbers, Value, get, is_object}
use mc_carto_live.Api.Data.{PublicMessageAnchor}
use mc_carto_live.Api.Scalars.{
  sanitize_string, sanitize_string_or_undefined, sanitize_number, safe_string_list, sanitize_list,
}
use mc_carto_live.Api.Places.{sanitize_public_message_anchor}
use mc_carto_live.Api.Packets.{PublicHistoryWindow, sanitize_history_window}

pub record PublicChatMessage (N : Type 0) : Type 0 where
  pub id : String
  pub at : N
  pub region : Option String
  pub iata : Option String
  pub sender : Option String
  pub text : String
  pub channel_label : Option String
  pub payload_type_name : String
  pub source : Option String
  pub anchor : Option (PublicMessageAnchor N)
  pub route_ids : Option (List String)
  pub endpoint_labels : Option (List String)

pub record PublicChatResponse (N : Type 0) : Type 0 where
  pub server_time : N
  pub messages : List (PublicChatMessage N)
  pub next_cursor : Option String
  pub window : PublicHistoryWindow N

module _ {N : Type 0} (js : JsNumbers N) where
  abbrev pub sanitize_chat_window : Value N → PublicHistoryWindow N
  sanitize_chat_window value = sanitize_history_window js value

  unfoldable pub sanitize_public_chat_message : Value N → Option (PublicChatMessage N)
  sanitize_public_chat_message value =
      let text = sanitize_string js (get "text" value) "" in
      let id = sanitize_string js (get "id" value) "" in
      if not (is_object value) || is_empty text || is_empty id
      then none
      else some (record {
        id = id;
        at = sanitize_number js (get "at" value) (js.numeral 0);
        region = sanitize_string_or_undefined js (get "region" value);
        iata = sanitize_string_or_undefined js (get "iata" value);
        sender = some (sanitize_string js (get "sender" value) "Unknown");
        text = text;
        channel_label = some (sanitize_string js (get "channelLabel" value) "Public");
        payload_type_name = sanitize_string js (get "payloadTypeName" value) "Message";
        source = sanitize_string_or_undefined js (get "source" value);
        anchor = sanitize_public_message_anchor js (get "anchor" value);
        route_ids = some (safe_string_list js (get "routeIds" value));
        endpoint_labels = some (safe_string_list js (get "endpointLabels" value));
      })

  unfoldable pub sanitize_public_chat_response : N → Value N → PublicChatResponse N
  unfolding sanitize_public_chat_message sanitize_history_window
  sanitize_public_chat_response now value = record {
    server_time = sanitize_number js (get "serverTime" value) now;
    messages = sanitize_list js sanitize_public_chat_message (get "messages" value);
    next_cursor = sanitize_string_or_undefined js (get "nextCursor" value);
    window = sanitize_chat_window (get "window" value);
  }
