-- ===== src/Api/Events/Sound.antt =====
-- What holds of the events and clusters that the sanitizers of web/src/api.ts let through.
use mc_carto_live.Prelude.{
  String, string_discrete, Bool, true, false, not, ◌||◌, ◌≡◌, ◌≢◌, ite, refl, Option, none, some,
  List, [], ◌∷◌, if◌then◌else◌, All,
}
use mc_carto_live.Prelude.JsString.{is_empty}
use mc_carto_live.Prelude.JsValue.{JsNumbers, Value, get, is_object, number_of}
use mc_carto_live.Api.Scalars.{sanitize_string, sanitize_number, sanitize_list}
use mc_carto_live.Api.State.Sane.{OnSome, IsText, IsNode, IsPulse, IsActivity}
use mc_carto_live.Api.State.Made.{sanitize_string-filled, sanitize_list-All}
use mc_carto_live.Api.State.Made.Parts.{
  sanitize_public_state_node-IsNode, sanitize_public_state_pulse-IsPulse,
  sanitize_public_state_activity-IsActivity,
}
use mc_carto_live.Api.State.{
  sanitize_public_state_activity, sanitize_public_state_pulse, sanitize_public_state_node,
}
use mc_carto_live.Api.Events.{
  PublicEvent, PublicEventData, activity, route_pulse, node_update, other, made,
  sanitize_event_data, event_of, sanitize_public_event, sanitize_public_events_response,
  largest_seq,
}

made_OnSome :
    {A B : Type 0}
    → (Q : A → Type 0) → (P : B → Type 0) → (f : A → B) → (o : Option A) → OnSome Q o
    → ((a : A) → Q a → P (f a))
    → OnSome P (made f o)
made_OnSome Q P f none h g = tt
made_OnSome Q P f (some a) h g = g a h

ite_OnSome :
    {A C : Type 0}
    → (P : A → Type 0) → (d : Dec C) → (x y : Option A) → (C → OnSome P x)
    → (¬ C → OnSome P y)
    → OnSome P (ite d x y)
ite_OnSome P (yes c) x y h g = h c
ite_OnSome P (no n) x y h g = g n

refused :
    {A : Type 0}
    → (P : A → Type 0) → (not_object not_positive unnamed : Bool) → (o : Option A)
    → (not_positive ≡ false → unnamed ≡ false → OnSome P o)
    → OnSome P (if not_object || not_positive || unnamed then none else o)
refused P true b c o h = tt
refused P false true c o h = tt
refused P false false true o h = tt
refused P false false false o h = h refl refl

module _ {N : Type 0} (js : JsNumbers N) where
  -- The data are what the type names, and sane; any other type passes its data on.
  abbrev pub IsBody : String → PublicEventData N → Type 0
  IsBody type (activity a) = (type ≡ "activity") × IsActivity a
  IsBody type (route_pulse p) = (type ≡ "routePulse") × IsPulse p
  IsBody type (node_update n) = (type ≡ "nodeUpdate") × IsNode n
  IsBody type (other value) = (type ≢ "activity") × (type ≢ "routePulse") × (type ≢ "nodeUpdate")

  pub record IsEvent (event : PublicEvent N) : Type 0 where
    pub seq : js.le event.seq (js.numeral 0) ≡ false
    pub type : IsText event.type
    pub body : IsBody event.type event.body

  sanitize_event_data-IsBody :
      ((n : N) → IsText (js.to_string n))
      → (lower : String → String) → (now : N) → (type : String) → (v : Value N)
      → OnSome (IsBody type) (sanitize_event_data js lower now type v)
  unfolding sanitize_event_data
  sanitize_event_data-IsBody numerals lower now type v =
      ite_OnSome (IsBody type) (string_discrete type "activity")
        (made activity (sanitize_public_state_activity js now v)) _
        (λ is_activity.
          made_OnSome IsActivity (IsBody type) activity _
            (sanitize_public_state_activity-IsActivity js numerals now v) (λ a h. (is_activity, h)))
        (λ n1.
          ite_OnSome (IsBody type) (string_discrete type "routePulse")
            (made route_pulse (sanitize_public_state_pulse js now v)) _
            (λ is_pulse.
              made_OnSome IsPulse (IsBody type) route_pulse _
                (sanitize_public_state_pulse-IsPulse js numerals now v) (λ a h. (is_pulse, h)))
            (λ n2.
              ite_OnSome (IsBody type) (string_discrete type "nodeUpdate")
                (made node_update (sanitize_public_state_node js lower now v)) (some (other v))
                (λ is_node.
                  made_OnSome IsNode (IsBody type) node_update _
                    (sanitize_public_state_node-IsNode js numerals lower now v)
                    (λ a h. (is_node, h)))
                (λ n3. (n1, n2, n3))))

  sanitize_public_event-IsEvent :
      ((n : N) → IsText (js.to_string n))
      → (lower : String → String) → (now : N) → (v : Value N)
      → OnSome IsEvent (sanitize_public_event js lower now v)
  unfolding sanitize_public_event
  sanitize_public_event-IsEvent numerals lower now v =
      let type = sanitize_string js (get "type" v) "" in
      refused IsEvent (not (is_object v))
        (js.le (sanitize_number js (get "seq" v) (js.numeral 0)) (js.numeral 0)) (is_empty type)
        (made (event_of js now v) (sanitize_event_data js lower now type (get "data" v)))
        (λ positive named.
          made_OnSome (IsBody type) IsEvent (event_of js now v)
            (sanitize_event_data js lower now type (get "data" v))
            (sanitize_event_data-IsBody numerals lower now (sanitize_string js (get "type" v) "")
              (get "data" v))
            (λ body h. record {
              seq = positive;
              type = sanitize_string-filled js numerals (get "type" v) named;
              body = h;
            }))

  -- Every event that the sanitizer of an events response lets through has a sequence number above 0 and
  -- a name; its data are a sane activity, pulse or node exactly as the name says, and any other name
  -- passes its data on; where a numeral is written as a trimmed text that is not empty.
  pub sanitize_public_events_response-IsEvent :
      ((n : N) → IsText (js.to_string n))
      → (lower : String → String) → (now : N) → (v : Value N)
      → All IsEvent (sanitize_public_events_response js lower now v).events
  unfolding sanitize_public_events_response
  sanitize_public_events_response-IsEvent numerals lower now v =
      sanitize_list-All js IsEvent (sanitize_public_event js lower now)
        (sanitize_public_event-IsEvent numerals lower now) (get "events" v)

  module _ (le_max_left : (a b : N) → js.le a (js.max a b) ≡ true)
      (le_max_right : (a b : N) → js.le b (js.max a b) ≡ true)
      (le_trans : (a b c : N) → js.le a b ≡ true → js.le b c ≡ true → js.le a c ≡ true)
      (le_refl : (a : N) → js.le a a ≡ true) where
    le-largest_seq :
        (start : N)
        → (events : List (PublicEvent N)) → js.le start (largest_seq js start events) ≡ true
    unfolding largest_seq
    le-largest_seq start [] = le_refl start
    le-largest_seq start (event ∷ events) =
        le_trans _ _ _ (le_max_left start event.seq)
          (le-largest_seq (js.max start event.seq) events)

    largest_seq-All :
        (start : N)
        → (events : List (PublicEvent N))
        → All (λ event. js.le event.seq (largest_seq js start events) ≡ true) events
    unfolding largest_seq
    largest_seq-All start [] = tt
    largest_seq-All start (event ∷ events) = (
      le_trans _ _ _ (le_max_right start event.seq)
          (le-largest_seq (js.max start event.seq) events),
      largest_seq-All (js.max start event.seq) events,
    )

    -- Where a response names no latest sequence number, the one that the sanitizer gives is at or above
    -- that of each event it lets through, for an order and a maximum that are right.
    pub sanitize_public_events_response-latest_seq :
        (lower : String → String)
        → (now : N) → (v : Value N) → number_of js (get "latestSeq" v) ≡ none
        → (let response = sanitize_public_events_response js lower now v in
            All (λ event. js.le event.seq response.latest_seq ≡ true) response.events)
    unfolding sanitize_public_events_response sanitize_number
    sanitize_public_events_response-latest_seq lower now v missing = rw missing (
        largest_seq-All (js.numeral 0)
          (sanitize_list js (sanitize_public_event js lower now) (get "events" v)))
