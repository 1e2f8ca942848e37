-- ===== src/State/Routes/Index.antt =====
-- The batch update keeps the ids distinct and the index right (web/src/state.ts).
use mc_carto_live.Prelude.{
  ℕ, ◌≡◌, refl, sym, ap, ◌∙◌, subst, Bool, ◌||◌, none, List, [], ◌∷◌, map, max, arith, String,
  All-filter, filter, not, is_some, ltb, ◌==◌, Option-cases, inl, inr, Bool-cases,
}
use mc_carto_live.Prelude.JsMap.{JsMap}
use mc_carto_live.Prelude.JsMap
use mc_carto_live.Types.{PublicRoute, PublicRoutePulse}
use mc_carto_live.State.Buckets.{
  ids, normalize_route, normalize_route_buckets, max_route_packet_count,
}
use mc_carto_live.State.Routes.{
  Touched, Batch, known_loop, fresh_loop, touch_pulses, finish_batch, upsert_pulse_routes_batch,
  needs_rebalance,
}
use mc_carto_live.State.Routes.Position.{position, Distinct}
use mc_carto_live.State.Routes.Known.{overlay, unknown, start, known_loop-overlay}
use mc_carto_live.State.Routes.Gather.{IsGathered, touch_pulses-IsGathered}
use mc_carto_live.State.Routes.Fresh.{IsIndexed, Keyed, Absent, fresh_loop-IsIndexed}

-- The index depends on the ids alone.
pub IsIndexed-ids :
    (rs qs : List PublicRoute) (index : JsMap ℕ)
    → ids qs ≡ ids rs
    → IsIndexed rs index
    → IsIndexed qs index
IsIndexed-ids rs qs index e x = record {
  indexed = λ k. x.indexed k ∙ ap (position k) (sym e);
  distinct = subst Distinct (sym e) x.distinct;
}

pub ids-map :
    (f : PublicRoute → PublicRoute)
    → ((r : PublicRoute) → (f r).id ≡ r.id)
    → (rs : List PublicRoute) → ids (map f rs) ≡ ids rs
ids-map f same [] = refl
ids-map f same (r ∷ rs) = cc (same r, ids-map f same rs)

position-filter :
    (p : String × Touched → Bool) (k : String) (m : JsMap Touched)
    → position k (JsMap.keys m) ≡ none
    → position k (JsMap.keys (filter p m)) ≡ none
unfolding position
position-filter p k [] h = refl
position-filter p k ((j, u) ∷ m) h = ground (arith, position-filter p k m)

Distinct-filter :
    (p : String × Touched → Bool) (m : JsMap Touched)
    → Distinct (JsMap.keys m)
    → Distinct (JsMap.keys (filter p m))
Distinct-filter p [] d = tt
Distinct-filter p ((j, u) ∷ m) d = elim (Bool-cases (p (j, u))) [
  | inl keep ↦ rw keep (position-filter p j m d.0, Distinct-filter p m d.1)
  | inr drop ↦ rw drop (Distinct-filter p m d.1)
]

unknown-Absent :
    (xs : List String) (m : JsMap Touched)
    → Absent xs (filter (λ (e : String × Touched). not (is_some (position e.0 xs))) m)
unknown-Absent xs [] = tt
unknown-Absent xs ((j, u) ∷ m) = elim (Option-cases (position j xs)) [
  | inl new ↦ rw new (new, unknown-Absent xs m)
  | inr (i, found) ↦ rw found (unknown-Absent xs m)
]

module _ (log_ratio : ℕ → ℕ → ℕ) where
  overlay-id :
      (max_before : ℕ) (routes : List PublicRoute) (index : JsMap ℕ) (es : JsMap Touched)
      (v r : PublicRoute)
      → v.id ≡ r.id
      → (overlay log_ratio max_before routes index v es r).id ≡ r.id
  overlay-id mb routes index [] v r e = e
  overlay-id mb routes index ((k, u) ∷ es) v r e = overlay-id mb routes index es _ r (ground arith)

  pub normalize-ids : (rs : List PublicRoute) → ids (normalize_route_buckets log_ratio rs) ≡ ids rs
  unfolding normalize_route_buckets
  normalize-ids rs = ids-map (normalize_route log_ratio (max_route_packet_count rs)) (λ r. refl) rs

  -- The batch after the loop over the known routes.
  abbrev pub known : ℕ → List PublicRoute → JsMap ℕ → JsMap Touched → Batch
  known max_before routes index es =
      known_loop log_ratio max_before routes index es (start log_ratio max_before routes index)

  known-ids :
      (max_before : ℕ) (routes : List PublicRoute) (index : JsMap ℕ) (es : JsMap Touched)
      → IsIndexed routes index
      → ids (known max_before routes index es).next ≡ ids routes
  known-ids mb routes index es x =
      ap ids (known_loop-overlay log_ratio mb routes index es x.indexed x.distinct).0
      ∙ ids-map (λ r. overlay log_ratio mb routes index r es r)
          (λ r. overlay-id mb routes index es r r refl) routes

  -- Both loops together.
  pub loops-IsIndexed :
      (max_before : ℕ) (routes : List PublicRoute) (index : JsMap ℕ) (es : JsMap Touched)
      → IsGathered es
      → IsIndexed routes index
      → let b = known max_before routes index es in
        let all = fresh_loop log_ratio max_before b.left b in IsIndexed all.next all.next_index
  loops-IsIndexed mb routes index es g x =
      let b = known mb routes index es in
      let over = known_loop-overlay log_ratio mb routes index es x.indexed x.distinct in
      let same = known-ids mb routes index es x in
      let left = unknown log_ratio mb routes index es in
      fresh_loop-IsIndexed log_ratio mb b.left b
        (subst (λ m. Distinct (JsMap.keys m)) (sym over.1) (Distinct-filter _ es g.distinct))
        (subst Keyed (sym over.1) (All-filter _ _ es g.keyed))
        (subst (λ m. Absent (ids b.next) m) (sym over.1)
          (subst (λ xs. Absent xs left) (sym same) (unknown-Absent (ids routes) es)))
        (subst (λ index'. IsIndexed b.next index') (sym over.2)
          (IsIndexed-ids routes b.next index same x))

  finish_batch-IsIndexed :
      (max_before : ℕ) (routes : List PublicRoute) (index : JsMap ℕ) (b : Batch)
      → IsIndexed routes index
      → IsIndexed
          (fresh_loop log_ratio max_before b.left b).next
          (fresh_loop log_ratio max_before b.left b).next_index
      → let u = finish_batch log_ratio max_before routes index b in IsIndexed u.routes u.route_index
  unfolding finish_batch
  finish_batch-IsIndexed mb routes index b x all =
      let full = fresh_loop log_ratio mb b.left b in
      elim (Bool-cases (not (b.changed || ltb 0 (JsMap.size b.left)))) [
        | inl idle ↦ rw idle x
        | inr busy ↦ elim (Bool-cases (needs_rebalance mb full.max_after)) [
          | inl uneven ↦
              rw (busy, uneven)
                (IsIndexed-ids full.next _ full.next_index (normalize-ids full.next) all)
          | inr even ↦ rw (busy, even) all
        ]
      ]

  -- After a batch of pulses the ids of the routes are still distinct, and the index still gives
  -- each of them its position and nothing else.
  pub upsert_pulse_routes_batch-IsIndexed :
      (routes : List PublicRoute) (index : JsMap ℕ) (max_packet_count : ℕ)
      (pulses : List PublicRoutePulse)
      → IsIndexed routes index
      → let u = upsert_pulse_routes_batch log_ratio routes index max_packet_count pulses in
        IsIndexed u.routes u.route_index
  unfolding upsert_pulse_routes_batch
  upsert_pulse_routes_batch-IsIndexed routes index n pulses x =
      let touched = touch_pulses pulses [] in
      let g = touch_pulses-IsGathered pulses [] (record { distinct = tt; keyed = tt }) in
      elim (Bool-cases (JsMap.size touched == 0)) [
        | inl none_touched ↦ rw none_touched x
        | inr some_touched ↦ rw some_touched (
            finish_batch-IsIndexed (max 1 n) routes index (known (max 1 n) routes index touched) x
              (loops-IsIndexed (max 1 n) routes index touched g x))
      ]
