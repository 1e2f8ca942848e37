-- ===== src/Chat/Spacing.antt =====
-- Lists of messages that come latest first, and what the loop of `dedupeChatMessages` (web/src/chat.ts)
-- shows of them, seen through one of its maps.
use mc_carto_live.Prelude.{
  ℕ, ◌+◌, ◌≤◌, ◌<◌, String, string_discrete, ite, Bool, true, false, Bool-cases, inl, inr, ◌≡◌,
  refl, sym, ap, ◌∙◌, Option, none, some, List, [], ◌∷◌, if◌then◌else◌, All, All-mono, arith,
  leb→le, le→leb,
}
use mc_carto_live.Prelude.JsString.{is_empty}
use mc_carto_live.Prelude.JsMap.{JsMap, get, set, get-set, get-set_self}
use mc_carto_live.Chat.{
  Message, Seen, note, is_repeated, safe_chat_message, chat_display_dedupe_key,
  chat_text_dedupe_key, dedupe_one, dedupe_loop, push,
}

-- No message is later than one before it.
abbrev pub Descends : List Message → Type 0
Descends [] = Unit
Descends (m ∷ ms) = All (λ (n : Message). n.at ≤ m.at) ms × Descends ms

-- Two messages with the same key, which is not empty, lie further apart than the window.
abbrev pub Spaced : (Message → String) → ℕ → List Message → Type 0
Spaced key window [] = Unit
Spaced key window (o ∷ os) =
    All (λ (p : Message). is_empty (key o) ≡ false → key p ≡ key o → p.at + window < o.at) os
    × Spaced key window os

far_apart : (window l at : ℕ) → is_repeated window (some l) at ≡ false → at ≤ l → at + window < l
far_apart window l at h le = grind (arith, leb→le, le→leb, h, le)

either :
    {C : Type 0}
    → (d : Dec C) → (o : Option ℕ) → (at l : ℕ) → o ≡ some l
    → at ≤ l
    → (l' : ℕ) × (ite d (some at) o ≡ some l') × (at ≤ l') × (l' ≤ l)
either (yes c) o at l h le = (at, refl, omega arith, le)
either (no n) o at l h le = (l, h, le, omega arith)

pub get-if_set :
    (k key : String)
    → (at l : ℕ) → (seen : JsMap ℕ) → get k seen ≡ some l
    → at ≤ l
    → (b : Bool)
    → (l' : ℕ) × (get k (if b then seen else set key at seen) ≡ some l') × (at ≤ l') × (l' ≤ l)
get-if_set k key at l seen h le true = (l, h, le, omega arith)
get-if_set k key at l seen h le false =
    rw (get-set key k at seen) (either (string_discrete key k) (get k seen) at l h le)

pub get-note_self :
    (key : String)
    → (at : ℕ) → (seen : JsMap ℕ) → is_empty key ≡ false
    → get key (note key at seen) ≡ some at
get-note_self key at seen h = rw h (get-set_self key at seen)

All-of : (P : Message → Type 0) → ((m : Message) → P m) → (ms : List Message) → All P ms
All-of P h [] = tt
All-of P h (m ∷ ms) = (h m, All-of P h ms)

push-All :
    (P : Message → Type 0)
    → (o : Option Message) → (out : List Message) → ((x : Message) → o ≡ some x → P x)
    → All P out
    → All P (push o out)
push-All P none out h hs = hs
push-All P (some x) out h hs = (h x refl, hs)

module _ (safe_chat_text : Option String → String → String) (display_token : Option String → String)
    (is_long_enough : String → Bool) where
  abbrev safe : Message → Message
  safe m = safe_chat_message safe_chat_text display_token is_long_enough m

  abbrev display_key : Message → String
  display_key m = chat_display_dedupe_key safe_chat_text display_token is_long_enough m

  abbrev text_key : Message → String
  text_key m = chat_text_dedupe_key safe_chat_text display_token is_long_enough m

  abbrev one : Message → Seen → Option Message × Seen
  one m seen = dedupe_one safe_chat_text display_token is_long_enough m seen

  abbrev loop : Seen → List Message → List Message
  loop seen ms = dedupe_loop safe_chat_text display_token is_long_enough seen ms

  -- How a view of what has been seen goes along with one message: what is shown was not a repetition and
  -- is noted, and a time that is noted is not moved below that of the message.
  pub record IsView (key : Message → String) (window : ℕ) (view : Seen → JsMap ℕ) (m : Message)
      (seen : Seen) (r : Option Message × Seen) : Type 0 where
    pub shows :
        (x : Message)
        → r.0 ≡ some x
        → is_empty (key x) ≡ false
        → (is_repeated window (get (key x) (view seen)) m.at ≡ false)
          × (get (key x) (view r.1) ≡ some m.at)
    pub times : (x : Message) → r.0 ≡ some x → x.at ≡ m.at
    pub moves :
        (k : String) (l : ℕ)
        → get k (view seen) ≡ some l
        → m.at ≤ l
        → (l' : ℕ) × (get k (view r.1) ≡ some l') × (m.at ≤ l') × (l' ≤ l)

  module _ (key : Message → String) (window : ℕ) (view : Seen → JsMap ℕ)
      (is_view : (m : Message) → (seen : Seen) → IsView key window view m seen (one m seen)) where
    loop_far :
        (k : String)
        → is_empty k ≡ false
        → (l l' : ℕ) → (seen : Seen) → (ms : List Message) → get k (view seen) ≡ some l'
        → l' ≤ l
        → All (λ (n : Message). n.at ≤ l') ms
        → Descends ms
        → All (λ (p : Message). key p ≡ k → p.at + window < l) (loop seen ms)
    unfolding dedupe_loop
    loop_far k filled l l' seen [] noted le below down = tt
    loop_far k filled l l' seen (m ∷ ms) noted le (here, below) (after, down) =
        let v = is_view m seen in
        let (l'', noted', here', le') = v.moves k l' noted here in
        push-All (λ (p : Message). key p ≡ k → p.at + window < l) (one m seen).0
          (loop (one m seen).1 ms)
          (λ x shown same.
            let (fresh, noted_now) = v.shows x shown (ap is_empty same ∙ filled) in
            let apart =
              far_apart window l' m.at
                (ap (λ o. is_repeated window o m.at)
                    (sym (ap (λ j. get j (view seen)) same ∙ noted))
                  ∙ fresh)
                here in
            let time = v.times x shown in omega (arith, apart, time, le))
          (loop_far k filled l l'' (one m seen).1 ms noted' (omega arith)
            (All-mono (λ (n : Message). n.at ≤ m.at) (λ (n : Message). n.at ≤ l'') ms
              (λ n le_n. omega arith) after)
            down)

    pub loop-Spaced :
        (seen : Seen) → (ms : List Message) → Descends ms → Spaced key window (loop seen ms)
    unfolding dedupe_loop
    loop-Spaced seen [] down = tt
    loop-Spaced seen (m ∷ ms) (after, down) =
        push_Spaced (one m seen).0 (loop (one m seen).1 ms)
          (λ x shown. elim (Bool-cases (is_empty (key x))) [
            | inl empty ↦
                All-of
                  (λ (p : Message). is_empty (key x) ≡ false → key p ≡ key x → p.at + window < x.at)
                  (λ p filled same. cc) (loop (one m seen).1 ms)
            | inr filled ↦
                All-mono (λ (p : Message). key p ≡ key x → p.at + window < x.at)
                  (λ (p : Message). is_empty (key x) ≡ false → key p ≡ key x → p.at + window < x.at)
                  (loop (one m seen).1 ms) (λ p h is_filled. h)
                  (loop_far (key x) filled x.at m.at (one m seen).1 ms
                    ((is_view m seen).shows x shown filled).1
                    (omega (arith, (is_view m seen).times x shown)) after down)
          ])
          (loop-Spaced (one m seen).1 ms down)
      where
        push_Spaced :
            (o : Option Message)
            → (out : List Message)
            → ((x : Message)
                → o ≡ some x
                → All
                    (λ (p : Message).
                      is_empty (key x) ≡ false → key p ≡ key x → p.at + window < x.at)
                    out)
            → Spaced key window out
            → Spaced key window (push o out)
        push_Spaced none out h hs = hs
        push_Spaced (some x) out h hs = (h x refl, hs)
