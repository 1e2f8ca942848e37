-- ===== src/Chat/Dedupe.antt =====
-- What `dedupeChatMessages` of web/src/chat.ts shows of messages that come latest first.
use mc_carto_live.Prelude.{
  ℕ, ◌≤◌, String, Bool, true, false, not, ◌&&◌, ◌≡◌, refl, sym, ap, ◌∙◌, subst, Option, none, some,
  List, if◌then◌else◌, arith,
}
use mc_carto_live.Prelude.JsString.{is_empty}
use mc_carto_live.Prelude.JsMap.{JsMap, get}
use mc_carto_live.Prelude.JsSet.{has}
use mc_carto_live.Chat.{
  Message, Seen, note, is_repeated, chat_display_dedupe_window_ms, chat_text_dedupe_window_ms,
  safe_chat_message, chat_display_dedupe_key, chat_text_dedupe_key, displayed, shown, is_repeat,
  dedupe_one, dedupe_chat_messages, nothing_seen,
}
use mc_carto_live.Chat.Spacing.{Descends, Spaced, get-if_set, get-note_self, IsView, loop-Spaced}

-- The four ways through `dedupe_one`.
each_way :
    {R : Type 0}
    → (P : R → Type 0) → (a b c : Bool) → (r1 r2 r3 : R) → P r1
    → (b ≡ false → P r2)
    → (b ≡ false → c ≡ false → P r3)
    → P (if a then r1 else if b then r1 else if c then r2 else r3)
each_way P true b c r1 r2 r3 h1 h2 h3 = h1
each_way P false true c r1 r2 r3 h1 h2 h3 = h1
each_way P false false true r1 r2 r3 h1 h2 h3 = h2 refl
each_way P false false false r1 r2 r3 h1 h2 h3 = h3 refl refl

some_inj : {x y : Message} → some x ≡ some y → x ≡ y
some_inj e = cc

of_and_not : (a b : Bool) → (not a && b) ≡ false → a ≡ false → b ≡ false
of_and_not true b h e = cc
of_and_not false b h e = h

module _ (safe_chat_text : Option String → String → String) (display_token : Option String → String)
    (is_long_enough : String → Bool) where
  skip_IsView :
      (key : Message → String)
      → (window : ℕ) → (view : Seen → JsMap ℕ) → (m : Message) → (seen : Seen)
      → (r : Option Message × Seen) → r.0 ≡ none
      → view r.1 ≡ view seen
      → IsView safe_chat_text display_token is_long_enough key window view m seen r
  skip_IsView key window view m seen r hidden same = record {
    shows = λ x shown. cc;
    times = λ x shown. cc;
    moves = λ k l noted le. (l, ap (get k) same ∙ noted, le, omega arith);
  }

  noted_moves :
      (k key : String)
      → (at l : ℕ) → (seen : JsMap ℕ) → get k seen ≡ some l
      → at ≤ l
      → (l' : ℕ) × (get k (note key at seen) ≡ some l') × (at ≤ l') × (l' ≤ l)
  noted_moves k key at l seen h le = get-if_set k key at l seen h le (is_empty key)

  note-IsView :
      (key : Message → String)
      → (window : ℕ) → (view : Seen → JsMap ℕ) → (m : Message) → (seen : Seen)
      → (r : Option Message × Seen) → (k : String) → r.0 ≡ none
      → view r.1 ≡ note k m.at (view seen)
      → IsView safe_chat_text display_token is_long_enough key window view m seen r
  note-IsView key window view m seen r k hidden noted = record {
    shows = λ x shown. cc;
    times = λ x shown. cc;
    moves = λ j l was le. rw noted (noted_moves j k m.at l (view seen) was le);
  }

  shown_IsView :
      (key : Message → String)
      → (window : ℕ) → (view : Seen → JsMap ℕ) → (m : Message) → (seen : Seen)
      → (r : Option Message × Seen) → (y : Message) → r.0 ≡ some y
      → y.at ≡ m.at
      → (not (is_empty (key y)) && is_repeated window (get (key y) (view seen)) m.at) ≡ false
      → view r.1 ≡ note (key y) m.at (view seen)
      → IsView safe_chat_text display_token is_long_enough key window view m seen r
  shown_IsView key window view m seen r y shown_y time fresh noted = record {
    shows = λ x shown.
        subst
          (λ z.
            is_empty (key z) ≡ false
            → (is_repeated window (get (key z) (view seen)) m.at ≡ false)
              × (get (key z) (view r.1) ≡ some m.at))
          (some_inj (sym shown_y ∙ shown))
          (λ filled. (
            of_and_not (is_empty (key y)) (is_repeated window (get (key y) (view seen)) m.at) fresh
                filled,
            rw noted (get-note_self (key y) m.at (view seen) filled),
          ));
    times = λ x shown. sym (ap (λ (z : Message). z.at) (some_inj (sym shown_y ∙ shown))) ∙ time;
    moves = λ j l was le. rw noted (noted_moves j (key y) m.at l (view seen) was le);
  }

  safe_at :
      (m : Message) → (safe_chat_message safe_chat_text display_token is_long_enough m).at ≡ m.at
  unfolding safe_chat_message
  safe_at m = refl

  display_IsView :
      (m : Message)
      → (seen : Seen)
      → IsView safe_chat_text display_token is_long_enough
          (chat_display_dedupe_key safe_chat_text display_token is_long_enough)
          chat_display_dedupe_window_ms
          (λ s. s.public_messages)
          m
          seen
          (dedupe_one safe_chat_text display_token is_long_enough m seen)
  unfolding dedupe_one safe_chat_message
  display_IsView m seen =
      let display_key = chat_display_dedupe_key safe_chat_text display_token is_long_enough in
      let text_key = chat_text_dedupe_key safe_chat_text display_token is_long_enough in
      let y = safe_chat_message safe_chat_text display_token is_long_enough m in
      let view = λ (s : Seen). s.public_messages in
      each_way
        (IsView safe_chat_text display_token is_long_enough display_key
          chat_display_dedupe_window_ms view m seen)
        (has m.id seen.ids)
        (is_repeat chat_display_dedupe_window_ms (display_key y) seen.public_messages y.at)
        (is_repeat chat_text_dedupe_window_ms (text_key y) seen.text_messages y.at) (none, seen)
        (none, displayed safe_chat_text display_token is_long_enough y seen)
        (some y, shown safe_chat_text display_token is_long_enough y seen)
        (skip_IsView display_key chat_display_dedupe_window_ms view m seen (none, seen) refl refl)
        (λ fresh.
          note-IsView display_key chat_display_dedupe_window_ms view m seen
            (none, displayed safe_chat_text display_token is_long_enough y seen) (display_key y)
            refl refl)
        (λ fresh free.
          shown_IsView display_key chat_display_dedupe_window_ms view m seen
            (some y, shown safe_chat_text display_token is_long_enough y seen) y refl refl fresh
            refl)

  text_IsView :
      (m : Message)
      → (seen : Seen)
      → IsView safe_chat_text display_token is_long_enough
          (chat_text_dedupe_key safe_chat_text display_token is_long_enough)
          chat_text_dedupe_window_ms
          (λ s. s.text_messages)
          m
          seen
          (dedupe_one safe_chat_text display_token is_long_enough m seen)
  unfolding dedupe_one safe_chat_message
  text_IsView m seen =
      let display_key = chat_display_dedupe_key safe_chat_text display_token is_long_enough in
      let text_key = chat_text_dedupe_key safe_chat_text display_token is_long_enough in
      let y = safe_chat_message safe_chat_text display_token is_long_enough m in
      let view = λ (s : Seen). s.text_messages in
      each_way
        (IsView safe_chat_text display_token is_long_enough text_key chat_text_dedupe_window_ms view
          m seen)
        (has m.id seen.ids)
        (is_repeat chat_display_dedupe_window_ms (display_key y) seen.public_messages y.at)
        (is_repeat chat_text_dedupe_window_ms (text_key y) seen.text_messages y.at) (none, seen)
        (none, displayed safe_chat_text display_token is_long_enough y seen)
        (some y, shown safe_chat_text display_token is_long_enough y seen)
        (skip_IsView text_key chat_text_dedupe_window_ms view m seen (none, seen) refl refl)
        (λ fresh.
          skip_IsView text_key chat_text_dedupe_window_ms view m seen
            (none, displayed safe_chat_text display_token is_long_enough y seen) refl refl)
        (λ fresh free.
          shown_IsView text_key chat_text_dedupe_window_ms view m seen
            (some y, shown safe_chat_text display_token is_long_enough y seen) y refl refl free
            refl)

  -- Of messages that come latest first, any two that are shown with the same display key lie more than
  -- 24 hours apart, and any two with the same text key more than 10 minutes, where the keys are not
  -- empty.
  pub dedupe_chat_messages-Spaced :
      (ms : List Message)
      → Descends ms
      → (let shown = dedupe_chat_messages safe_chat_text display_token is_long_enough ms in
          Spaced
            (chat_display_dedupe_key safe_chat_text display_token is_long_enough)
            chat_display_dedupe_window_ms
            shown
          × Spaced
              (chat_text_dedupe_key safe_chat_text display_token is_long_enough)
              chat_text_dedupe_window_ms
              shown)
  unfolding dedupe_chat_messages
  dedupe_chat_messages-Spaced ms down = (
    loop-Spaced safe_chat_text display_token is_long_enough
        (chat_display_dedupe_key safe_chat_text display_token is_long_enough)
        chat_display_dedupe_window_ms (λ s. s.public_messages) display_IsView nothing_seen ms down,
    loop-Spaced safe_chat_text display_token is_long_enough
        (chat_text_dedupe_key safe_chat_text display_token is_long_enough)
        chat_text_dedupe_window_ms (λ s. s.text_messages) text_IsView nothing_seen ms down,
  )
