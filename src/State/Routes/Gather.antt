-- ===== src/State/Routes/Gather.antt =====
-- The gathering of segments by route (web/src/state.ts): every segment is counted, once.
use mc_carto_live.Prelude.{
  ℕ, ◌+◌, ◌≡◌, refl, ◌∙◌, subst, ◌≢◌, if_pos, if_neg, Option, none, some, List, [], ◌∷◌, arith,
  String, string_discrete, length, All,
}
use mc_carto_live.Prelude.JsMap.{JsMap}
use mc_carto_live.Prelude.JsMap
use mc_carto_live.Types.{PublicRoutePulse, PublicRouteSegment}
use mc_carto_live.State.Routes.{Touched, touch, touch_segments, touch_pulses}
use mc_carto_live.State.Routes.Position.{position, Distinct}

abbrev pub hits_of : JsMap Touched → ℕ
hits_of [] = 0
hits_of ((k, u) ∷ m) = u.hits + hits_of m

abbrev pub hits_at : Option Touched → ℕ
hits_at none = 0
hits_at (some u) = u.hits

-- The segments of a batch of pulses.
abbrev pub segment_count : List PublicRoutePulse → ℕ
segment_count [] = 0
segment_count (p ∷ ps) = length p.segments + segment_count ps

hits-set :
    (k : String) (u : Touched) (m : JsMap Touched)
    → hits_of (JsMap.set k u m) + hits_at (JsMap.get k m) ≡ hits_of m + u.hits
unfolding JsMap.set JsMap.get
hits-set k u [] = omega arith
hits-set k u ((j, w) ∷ m) = ground (arith, hits-set k u m)

hits-touch :
    (p : PublicRoutePulse) (s : PublicRouteSegment) (o : Option Touched)
    → (touch p s o).hits ≡ hits_at o + 1
hits-touch p s none = refl
hits-touch p s (some u) = refl

touch_segments-hits :
    (p : PublicRoutePulse) (ss : List PublicRouteSegment) (m : JsMap Touched)
    → hits_of (touch_segments p ss m) ≡ hits_of m + length ss
unfolding touch_segments
touch_segments-hits p [] m = omega arith
touch_segments-hits p (s ∷ ss) m =
    let o = JsMap.get s.route_id m in
    omega (
      arith,
      touch_segments-hits p ss (JsMap.set s.route_id (touch p s o) m),
      hits-set s.route_id (touch p s o) m,
      hits-touch p s o,
    )

pub touch_pulses-hits :
    (ps : List PublicRoutePulse) (m : JsMap Touched)
    → hits_of (touch_pulses ps m) ≡ hits_of m + segment_count ps
unfolding touch_pulses
touch_pulses-hits [] m = omega arith
touch_pulses-hits (p ∷ ps) m = omega (
  arith,
  touch_pulses-hits ps (touch_segments p p.segments m),
  touch_segments-hits p p.segments m,
)

-- No route has two entries, and an entry stands under the route of its own segment.
pub record IsGathered (m : JsMap Touched) : Type 0 where
  pub distinct : Distinct (JsMap.keys m)
  pub keyed : All (λ (e : String × Touched). e.1.segment.route_id ≡ e.0) m

position-set :
    (j k : String) (u : Touched) (m : JsMap Touched)
    → j ≢ k
    → position j (JsMap.keys m) ≡ none
    → position j (JsMap.keys (JsMap.set k u m)) ≡ none
unfolding JsMap.set position
position-set j k u [] ne h = ground arith
position-set j k u ((i, w) ∷ m) ne h = ground (arith, position-set j k u m ne)

keys-set-Distinct :
    (k : String) (u : Touched) (m : JsMap Touched)
    → Distinct (JsMap.keys m)
    → Distinct (JsMap.keys (JsMap.set k u m))
unfolding JsMap.set position
keys-set-Distinct k u [] d = (refl, tt)
keys-set-Distinct k u ((j, w) ∷ m) d = elim (string_discrete j k) [
  | yes e ↦ rw (if_pos _ e) (subst (λ x. position x (JsMap.keys m) ≡ none) e d.0, d.1)
  | no n ↦ rw (if_neg _ n) (position-set j k u m n d.0, keys-set-Distinct k u m d.1)
]

keyed-set :
    (k : String) (u : Touched) (m : JsMap Touched)
    → u.segment.route_id ≡ k
    → All (λ (e : String × Touched). e.1.segment.route_id ≡ e.0) m
    → All (λ (e : String × Touched). e.1.segment.route_id ≡ e.0) (JsMap.set k u m)
unfolding JsMap.set
keyed-set k u [] h a = (h, tt)
keyed-set k u ((j, w) ∷ m) h a = elim (string_discrete j k) [
  | yes e ↦ rw (if_pos _ e) (h, a.1)
  | no n ↦ rw (if_neg _ n) (a.0, keyed-set k u m h a.1)
]

keyed-touch :
    (p : PublicRoutePulse) (s : PublicRouteSegment) (m : JsMap Touched)
    → All (λ (e : String × Touched). e.1.segment.route_id ≡ e.0) m
    → (touch p s (JsMap.get s.route_id m)).segment.route_id ≡ s.route_id
unfolding JsMap.get
keyed-touch p s [] a = refl
keyed-touch p s ((j, w) ∷ m) a = elim (string_discrete j s.route_id) [
  | yes e ↦ rw (if_pos _ e) (a.0 ∙ e)
  | no n ↦ rw (if_neg _ n) (keyed-touch p s m a.1)
]

touch_segments-IsGathered :
    (p : PublicRoutePulse) (ss : List PublicRouteSegment) (m : JsMap Touched)
    → IsGathered m
    → IsGathered (touch_segments p ss m)
unfolding touch_segments
touch_segments-IsGathered p [] m g = g
touch_segments-IsGathered p (s ∷ ss) m g = touch_segments-IsGathered p ss _ (record {
  distinct = keys-set-Distinct s.route_id _ m g.distinct;
  keyed = keyed-set s.route_id _ m (keyed-touch p s m g.keyed) g.keyed;
})

pub touch_pulses-IsGathered :
    (ps : List PublicRoutePulse) (m : JsMap Touched) → IsGathered m → IsGathered (touch_pulses ps m)
unfolding touch_pulses
touch_pulses-IsGathered [] m g = g
touch_pulses-IsGathered (p ∷ ps) m g =
    touch_pulses-IsGathered ps _ (touch_segments-IsGathered p p.segments m g)
