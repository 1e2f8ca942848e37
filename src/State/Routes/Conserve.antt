-- ===== src/State/Routes/Conserve.antt =====
-- No packet of a batch is lost, and none is made up (web/src/state.ts).
use mc_carto_live.Prelude.{
  ℕ, ◌+◌, ◌≡◌, refl, sym, ap, ◌∙◌, subst, true, false, ◌||◌, Option, none, some, List, [], ◌∷◌, map,
  max, arith, String, get_elem?, not, ltb, ◌==◌, Option-cases, inl, inr, Bool-cases,
}
use mc_carto_live.Prelude.JsMap.{JsMap}
use mc_carto_live.Prelude.JsMap
use mc_carto_live.Types.{PublicRoute, PublicRoutePulse}
use mc_carto_live.State.Buckets.{normalize_route, normalize_route_buckets, max_route_packet_count}
use mc_carto_live.State.Routes.{
  Touched, Batch, update_known, known_loop, fresh_loop, touch_pulses, finish_batch,
  upsert_pulse_routes_batch, needs_rebalance,
}
use mc_carto_live.State.Routes.Gather.{
  hits_of, segment_count, touch_pulses-hits, touch_pulses-IsGathered,
}
use mc_carto_live.State.Routes.Fresh.{IsIndexed}
use mc_carto_live.State.Routes.Index.{known}
use mc_carto_live.State.Routes.Totals.{packet_total, loops-total}

-- The one entry of the map, by its size.
size_zero : (m : JsMap Touched) → (JsMap.size m == 0) ≡ true → hits_of m ≡ 0
size_zero [] h = refl
size_zero ((k, u) ∷ m) h = absurd (ground arith)

not_grown : (m : JsMap Touched) → ltb 0 (JsMap.size m) ≡ false → m ≡ []
not_grown [] h = refl
not_grown ((k, u) ∷ m) h = absurd (ground arith)

module _ (log_ratio : ℕ → ℕ → ℕ) where
  map_normalize-total :
      (m : ℕ) (rs : List PublicRoute)
      → packet_total (map (normalize_route log_ratio m) rs) ≡ packet_total rs
  unfolding packet_total
  map_normalize-total m [] = refl
  map_normalize-total m (r ∷ rs) = omega (arith, map_normalize-total m rs)

  normalize-total :
      (rs : List PublicRoute)
      → packet_total (normalize_route_buckets log_ratio rs) ≡ packet_total rs
  unfolding normalize_route_buckets
  normalize-total rs = map_normalize-total (max_route_packet_count rs) rs

  -- While nothing is changed the list is the one that came in.
  abbrev Untouched : List PublicRoute → Batch → Type 0
  Untouched routes b = b.changed ≡ false → b.next ≡ routes

  update_known-Untouched :
      (mb : ℕ) (routes : List PublicRoute) (k : String) (u : Touched) (o : Option ℕ)
      (route_at : ℕ → Option PublicRoute) (b : Batch)
      → Untouched routes b
      → Untouched routes (update_known log_ratio mb k u o route_at b)
  unfolding update_known
  update_known-Untouched mb routes k u none route_at b h = h
  update_known-Untouched mb routes k u (some i) route_at b h = elim (Option-cases (route_at i)) [
    | inl missing ↦ rw (missing, update_known) h
    | inr (r, there) ↦ rw (there, update_known) (λ e. cc)
  ]

  known_loop-Untouched :
      (mb : ℕ) (routes : List PublicRoute) (index : JsMap ℕ) (es : JsMap Touched) (b : Batch)
      → Untouched routes b
      → Untouched routes (known_loop log_ratio mb routes index es b)
  unfolding known_loop
  known_loop-Untouched mb routes index [] b h = h
  known_loop-Untouched mb routes index ((k, u) ∷ es) b h =
      let b' = update_known log_ratio mb k u (JsMap.get k index) (get_elem? routes) b in
      known_loop-Untouched mb routes index es b'
        (update_known-Untouched mb routes k u (JsMap.get k index) (get_elem? routes) b h)

  -- Nothing changed and nothing left over: both loops gave the list that came in.
  idle_next :
      (mb : ℕ) (routes : List PublicRoute) (b : Batch)
      → Untouched routes b
      → not (b.changed || ltb 0 (JsMap.size b.left)) ≡ true
      → (fresh_loop log_ratio mb b.left b).next ≡ routes
  unfolding fresh_loop
  idle_next mb routes b h idle =
      let still : b.changed ≡ false = ground arith in
      let empty_left : b.left ≡ [] = not_grown b.left (ground arith) in
      subst (λ m. (fresh_loop log_ratio mb m b).next ≡ routes) (sym empty_left) (h still)

  finish_batch-total :
      (mb n : ℕ) (routes : List PublicRoute) (index : JsMap ℕ) (b : Batch)
      → Untouched routes b
      → packet_total (fresh_loop log_ratio mb b.left b).next ≡ n
      → packet_total (finish_batch log_ratio mb routes index b).routes ≡ n
  unfolding finish_batch
  finish_batch-total mb n routes index b h all =
      let full = fresh_loop log_ratio mb b.left b in
      elim (Bool-cases (not (b.changed || ltb 0 (JsMap.size b.left)))) [
        | inl idle ↦ rw idle (ap packet_total (sym (idle_next mb routes b h idle)) ∙ all)
        | inr busy ↦ elim (Bool-cases (needs_rebalance mb full.max_after)) [
          | inl uneven ↦ rw (busy, uneven) (normalize-total full.next ∙ all)
          | inr even ↦ rw (busy, even) all
        ]
      ]

  -- A batch adds to the packet counts of all routes together exactly the number of segments of its
  -- pulses: every segment is counted into one route, known or new, whether or not the buckets are
  -- rebalanced.
  pub upsert_pulse_routes_batch-total :
      (routes : List PublicRoute) (index : JsMap ℕ) (max_packet_count : ℕ)
      (pulses : List PublicRoutePulse)
      → IsIndexed routes index
      → packet_total
          (upsert_pulse_routes_batch log_ratio routes index max_packet_count pulses).routes
        ≡ packet_total routes + segment_count pulses
  unfolding upsert_pulse_routes_batch
  upsert_pulse_routes_batch-total routes index n pulses x =
      let mb = max 1 n in
      let touched = touch_pulses pulses [] in
      let hits = touch_pulses-hits pulses [] in
      let b = known log_ratio mb routes index touched in
      let g = touch_pulses-IsGathered pulses [] (record { distinct = tt; keyed = tt }) in
      elim (Bool-cases (JsMap.size touched == 0)) [
        | inl empty_map ↦ rw empty_map (omega (arith, size_zero touched empty_map, hits))
        | inr some_map ↦ rw some_map (
            finish_batch-total mb _ routes index b
              (known_loop-Untouched mb routes index touched _ (λ e. refl))
              (omega (arith, loops-total log_ratio mb routes index touched g x, hits)))
      ]
