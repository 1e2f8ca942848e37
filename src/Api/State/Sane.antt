-- ===== src/Api/State/Sane.antt =====
-- When the public state is sane (web/src/api.ts): its names are trimmed and not empty, and so are
-- the optional texts that are there; a map of numbers that is there has an entry, and no
-- key `__proto__`.
use mc_carto_live.Prelude.{String, true, false, ◌≡◌, Option, none, some, List, [], ◌∷◌, All}
use mc_carto_live.Prelude.JsString.{trim, is_empty}
use mc_carto_live.Api.Scalars.{is_own}
use mc_carto_live.Api.Data.{
  PublicNode, PublicRouteEndpoint, PublicRouteSegment, PublicRoute, PublicMessageAnchor,
  PublicObserverLocation, PublicRoutePulse, PublicActivity, PublicMapConfig, PublicStats,
  PublicLiveState,
}

-- What an option holds, if it holds anything, has the property.
abbrev pub OnSome : {A : Type 0} → (A → Type 0) → Option A → Type 0
OnSome P none = Unit
OnSome P (some a) = P a

-- A text that is trimmed and not empty.
pub record IsText (s : String) : Type 0 where
  pub trimmed : trim s ≡ s
  pub filled : is_empty s ≡ false

abbrev pub IsFilled : {A : Type 0} → List A → Type 0
IsFilled [] = ⊥
IsFilled (x ∷ xs) = Unit

-- The key can be a key of a record.
abbrev pub HasOwnKey : {A : Type 0} → String × A → Type 0
HasOwnKey (key, a) = is_own key ≡ true

-- Not empty, and with such keys.
abbrev pub IsCounts : {A : Type 0} → List (String × A) → Type 0
IsCounts counts = IsFilled counts × All HasOwnKey counts

module _ {N : Type 0} where
  abbrev pub HasCounts : String × List (String × N) → Type 0
  HasCounts (bucket, counts) = (is_own bucket ≡ true) × IsCounts counts

  pub record IsBuckets (buckets : List (String × List (String × N))) : Type 0 where
    pub filled : IsFilled buckets
    pub counts : All HasCounts buckets

  pub record IsEndpoint (e : PublicRouteEndpoint N) : Type 0 where
    pub node_id : IsText e.node_id
    pub label : IsText e.label
    pub path_hash3 : OnSome IsText e.path_hash3

  pub record IsAnchor (a : PublicMessageAnchor N) : Type 0 where
    pub kind : trim a.kind ≡ a.kind
    pub node_id : OnSome IsText a.node_id
    pub label : IsText a.label

  pub record IsLocation (l : PublicObserverLocation N) : Type 0 where
    pub label : IsText l.label
    pub iata : OnSome IsText l.iata
    pub region : OnSome IsText l.region

  pub record IsSegment (s : PublicRouteSegment N) : Type 0 where
    pub route_id : IsText s.route_id
    pub from : IsEndpoint s.from
    pub to : IsEndpoint s.to

  pub record IsRoute (r : PublicRoute N) : Type 0 where
    pub id : IsText r.id
    pub from : IsEndpoint r.from
    pub to : IsEndpoint r.to

  pub record IsNode (n : PublicNode N) : Type 0 where
    pub id : IsText n.id
    pub label : IsText n.label

  pub record IsPulse (p : PublicRoutePulse N) : Type 0 where
    pub id : IsText p.id
    pub iata : OnSome IsText p.iata
    pub region : OnSome IsText p.region
    pub payload_type_name : IsText p.payload_type_name
    pub message_sender : OnSome IsText p.message_sender
    pub message_text : OnSome IsText p.message_text
    pub message_anchor : OnSome IsAnchor p.message_anchor
    pub segments : All IsSegment p.segments

  pub record IsActivity (a : PublicActivity N) : Type 0 where
    pub id : IsText a.id
    pub payload_type_name : IsText a.payload_type_name
    pub route_type_name : OnSome IsText a.route_type_name
    pub iata : OnSome IsText a.iata
    pub region : OnSome IsText a.region
    pub observer_location : OnSome IsLocation a.observer_location
    pub message_sender : OnSome IsText a.message_sender
    pub message_text : OnSome IsText a.message_text
    pub message_anchor : OnSome IsAnchor a.message_anchor

  pub record IsMapConfig (m : PublicMapConfig N) : Type 0 where
    pub region_preset : OnSome IsText m.region_preset
    pub default_region : OnSome IsText m.default_region

  pub record IsStats (s : PublicStats N) : Type 0 where
    pub resolution_buckets : OnSome IsBuckets s.resolution_buckets
    pub excluded_iatas : OnSome IsCounts s.excluded_iatas
    pub excluded_regions : OnSome IsCounts s.excluded_regions

  pub record IsState (s : PublicLiveState N) : Type 0 where
    pub map : OnSome IsMapConfig s.map
    pub nodes : All IsNode s.nodes
    pub routes : All IsRoute s.routes
    pub recent_pulses : All IsPulse s.recent_pulses
    pub recent_activity : All IsActivity s.recent_activity
    pub stats : IsStats s.stats
