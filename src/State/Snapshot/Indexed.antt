-- ===== src/State/Snapshot/Indexed.antt =====
-- The index of the routes after a snapshot (web/src/state.ts): `initialAppState` builds it, and
-- `hydrateSnapshotTopology` keeps it right.
use mathlib.Core.List.{append-nil, append_assoc, map-append}
use mc_carto_live.Prelude.{
  ℕ, suc, ◌≡◌, ◌≢◌, refl, sym, ap, ◌∙◌, subst, not, ◌==◌, none, List, [], ◌∷◌, ◌++◌, map, arith,
  String, length, length-append, Bool-cases, inl, inr,
}
use mc_carto_live.Prelude.JsMap.{JsMap}
use mc_carto_live.Prelude.JsMap
use mc_carto_live.Types.{PublicRoute, PublicNode, PublicLiveState}
use mc_carto_live.State.Model.{AppState}
use mc_carto_live.State.Buckets.{ids, index_from, index_routes, normalize_route_buckets}
use mc_carto_live.State.Routes.Position.{position, Distinct}
use mc_carto_live.State.Routes.Fresh.{IsIndexed, IsIndexed-push}
use mc_carto_live.State.Routes.Index.{normalize-ids}
use mc_carto_live.State.Reduce.Routing.{IsRouted}
use mc_carto_live.State.Snapshot.{
  merge_current_entities, initial_app_state, hydrate_snapshot_topology,
}
use mc_carto_live.State.Snapshot.Merge.{merge_loop-Distinct, merge_loop-prefix, Unseen-nil}

position-mid : (x y : String) (xs ys : List String) → position y (xs ++ x ∷ ys) ≡ none → x ≢ y
unfolding position
position-mid x y [] ys h = ground arith
position-mid x y (z ∷ xs) ys h = position-mid x y xs ys (ground arith)

-- A text before the last of distinct ones is not the last.
Distinct-last : (x : String) (xs ys : List String) → Distinct (xs ++ x ∷ ys) → position x xs ≡ none
unfolding position
Distinct-last x [] ys d = refl
Distinct-last x (y ∷ xs) ys d =
    ground (arith, position-mid x y xs ys d.0, Distinct-last x xs ys d.1)

index_from-IsIndexed :
    (done rest : List PublicRoute) (index : JsMap ℕ)
    → Distinct (ids (done ++ rest))
    → IsIndexed done index
    → IsIndexed (done ++ rest) (index_from (length done) rest index)
unfolding index_from
index_from-IsIndexed done [] index d x = rw (append-nil done) x
index_from-IsIndexed done (r ∷ rs) index d x =
    let absent : position r.id (ids done) ≡ none =
      Distinct-last r.id (ids done) (ids rs)
        (subst Distinct (map-append (λ (q : PublicRoute). q.id) done (r ∷ rs)) d) in
    let whole : (done ++ r ∷ []) ++ rs ≡ done ++ r ∷ rs = append_assoc done (r ∷ []) rs in
    let one_more : length (done ++ r ∷ []) ≡ suc (length done) =
      omega (arith, length-append done (r ∷ [])) in
    let index' = JsMap.set r.id (length done) index in
    subst (λ n. IsIndexed (done ++ r ∷ rs) (index_from n rs index')) one_more
      (subst (λ qs. IsIndexed qs (index_from (length (done ++ r ∷ [])) rs index')) whole
        (index_from-IsIndexed (done ++ r ∷ []) rs index'
          (subst (λ qs. Distinct (ids qs)) (sym whole) d) (IsIndexed-push done r index absent x)))

pub index_routes-IsIndexed :
    (rs : List PublicRoute) → Distinct (ids rs) → IsIndexed rs (index_routes rs)
unfolding index_routes position JsMap.get
index_routes-IsIndexed rs d =
    index_from-IsIndexed [] rs [] d (record { indexed = λ k. refl; distinct = tt })

-- What follows a list without making it longer is nothing.
append-same {ℓ} :
    {A : Type ℓ} (xs tail : List A) → length (xs ++ tail) ≡ length xs → xs ++ tail ≡ xs
append-same xs [] h = append-nil xs
append-same xs (t ∷ tail) h = absurd (omega (arith, length-append xs (t ∷ tail), h))

module _ (log_ratio : ℕ → ℕ → ℕ) where
  -- The state that a snapshot starts has a right index, if the ids of its routes are distinct.
  pub initial_app_state-IsRouted :
      (snapshot : PublicLiveState)
      → Distinct (ids snapshot.routes)
      → IsRouted (initial_app_state log_ratio snapshot)
  unfolding initial_app_state
  initial_app_state-IsRouted snapshot d =
      index_routes-IsIndexed (normalize_route_buckets log_ratio snapshot.routes)
        (subst Distinct (sym (normalize-ids log_ratio snapshot.routes)) d)

  -- A snapshot that arrives later leaves the index right, whatever routes it brings: those that are
  -- known keep their places and their counts, and the index is built anew only if the number of
  -- routes differs.
  pub hydrate_snapshot_topology-IsRouted :
      (s : AppState) (snapshot : PublicLiveState)
      → IsRouted s
      → IsRouted (hydrate_snapshot_topology log_ratio s snapshot)
  unfolding hydrate_snapshot_topology
  hydrate_snapshot_topology-IsRouted s snapshot x =
      let id : PublicRoute → String = λ r. r.id in
      let new = normalize_route_buckets log_ratio snapshot.routes in
      let merged = merge_current_entities id s.routes new in
      let (tail, e) = merge_loop-prefix id [] s.routes new x.distinct (Unseen-nil id s.routes) in
      let d = merge_loop-Distinct id [] (s.routes ++ new) in
      elim (Bool-cases (not (length merged == length s.routes))) [
        | inl more ↦ rw more (index_routes-IsIndexed merged d)
        | inr same ↦
            let length_same : length merged ≡ length s.routes = ground arith in
            rw same (
              subst (λ qs. IsIndexed qs s.route_index)
                (sym (e ∙ append-same s.routes tail (sym (ap length e) ∙ length_same))) x)
      ]

  -- Nodes with distinct ids survive a snapshot: they stay in front as they are, and what the
  -- snapshot adds follows; no id stands twice after it.
  pub hydrate_snapshot_topology-nodes :
      (s : AppState) (snapshot : PublicLiveState)
      → Distinct (map (λ (n : PublicNode). n.id) s.nodes)
      → let nodes = (hydrate_snapshot_topology log_ratio s snapshot).nodes in
        Distinct (map (λ (n : PublicNode). n.id) nodes)
        × ((added : List PublicNode) × (nodes ≡ s.nodes ++ added))
  unfolding hydrate_snapshot_topology
  hydrate_snapshot_topology-nodes s snapshot d =
      let id : PublicNode → String = λ n. n.id in
      (
        merge_loop-Distinct id [] (s.nodes ++ snapshot.nodes),
        merge_loop-prefix id [] s.nodes snapshot.nodes d (Unseen-nil id s.nodes),
      )
