-- ===== src/Connectivity/Direct.antt =====
-- web/src/connectivity.ts: the direct neighbours of `directConnectivity` against the hops of
-- `reachablePaths`.
use Prim.Native.Nat.{Ordering}
use mathlib.Core.List.{Memᴰ}
use mc_carto_live.Prelude.{
  ◌≤◌, String, string_discrete, true, false, ◌≡◌, ◌≢◌, ◌↔◌, ◌⊎◌, refl, sym, ap, ◌∙◌, subst, inl,
  inr, Option, none, some, List, [], ◌∷◌, ◌++◌, length, length-append, ℕ_discrete, arith,
}
use mc_carto_live.Prelude.JsString.{is_empty}
use mc_carto_live.Prelude.JsMap.{JsMap, get}
use mc_carto_live.Prelude.JsSet.{has, add, has-add}
use mc_carto_live.Connectivity.{
  GraphEdge, ConnectivityGraph, edges_of, add_node_ids, direct_connectivity,
}
use mc_carto_live.Connectivity.Walks.{Walk, here, along}
use mc_carto_live.Connectivity.Symmetric.{hops_of}
use mc_carto_live.Connectivity.Paths.{PathCandidate, reachable_paths}
use mc_carto_live.Connectivity.Paths.Shortest.{IsShortest, reachable_paths_lem}

-- An edge of the list leads there.
abbrev LeadsTo : String → List GraphEdge → Type 0
LeadsTo v edges = (e : GraphEdge) × Memᴰ e edges × (e.to_node_id ≡ v)

add_node_ids_keeps :
    (v : String) (edges : List GraphEdge) (ids : List String)
    → has v ids ≡ true
    → has v (add_node_ids edges ids) ≡ true
add_node_ids_keeps v [] ids h = h
add_node_ids_keeps v (e ∷ edges) ids h =
    add_node_ids_keeps v edges (add e.to_node_id ids)
      (ground (arith, h, has-add e.to_node_id v ids))

add_node_ids-LeadsTo :
    (v : String) (edges : List GraphEdge) (ids : List String)
    → LeadsTo v edges
    → has v (add_node_ids edges ids) ≡ true
add_node_ids-LeadsTo v [] ids (e, m, p) = elim m [ ]
add_node_ids-LeadsTo v (x ∷ edges) ids (e, Memᴰ.head q, p) =
    add_node_ids_keeps v edges (add x.to_node_id ids)
      (ground (arith, has-add x.to_node_id v ids, sym (ap (λ (y : GraphEdge). y.to_node_id) q) ∙ p))
add_node_ids-LeadsTo v (x ∷ edges) ids (e, Memᴰ.tail m, p) =
    add_node_ids-LeadsTo v edges (add x.to_node_id ids) (e, m, p)

has-add_node_ids :
    (v : String) (edges : List GraphEdge) (ids : List String)
    → has v (add_node_ids edges ids) ≡ true
    → (has v ids ≡ true) ⊎ LeadsTo v edges
has-add_node_ids v [] ids h = inl h
has-add_node_ids v (x ∷ edges) ids h =
    now (string_discrete x.to_node_id v) (has-add_node_ids v edges (add x.to_node_id ids) h)
  where
    now :
        Dec (x.to_node_id ≡ v)
        → (has v (add x.to_node_id ids) ≡ true) ⊎ LeadsTo v edges
        → (has v ids ≡ true) ⊎ LeadsTo v (x ∷ edges)
    now d (inr (e, m, p)) = inr (e, Memᴰ.tail m, p)
    now (yes p) (inl k) = inr (x, Memᴰ.head refl, p)
    now (no p) (inl k) = inl (ground (arith, k, p, has-add x.to_node_id v ids))

module _ (graph : ConnectivityGraph) (source : String) where
  -- A walk of one edge, and one of none.
  Walk-one :
      (v : String) (es : List GraphEdge)
      → Walk graph source es v
      → length es ≡ 1
      → LeadsTo v (edges_of graph source)
  Walk-one _ _ here p = absurd (omega (arith, p))
  Walk-one _ _ (along here m) p = (_, m, refl)
  Walk-one _ _ (along {es} {id} {edge = e} (along {es = fs} {edge = f} w k) m) p =
      absurd (omega (arith, p, length-append (fs ++ f ∷ []) (e ∷ []), length-append fs (f ∷ [])))

  Walk-none :
      (v : String) (es : List GraphEdge) → Walk graph source es v → length es ≡ 0 → source ≡ v
  Walk-none _ _ here p = refl
  Walk-none _ _ (along {es} {edge = e} w m) p = absurd (omega (arith, p, length-append es (e ∷ [])))

  one_hop :
      (v : String) (found : Option PathCandidate)
      → source ≢ v
      → IsShortest graph source v found
      → LeadsTo v (edges_of graph source) ↔ (hops_of found ≡ some 1)
  one_hop v none n s = (
    λ (e, m, p). absurd (s (e ∷ [], subst (Walk graph source (e ∷ [])) p (along here m))),
    λ h. cc,
  )
  one_hop v (some c) n (p, (es, told), least) = (
    λ (e, m, q).
        let l = least (e ∷ []) (subst (Walk graph source (e ∷ [])) q (along here m)) in
        ap some (exactly l (subst (Walk graph source es) p told.walk)),
    λ h. Walk-one v es (subst (Walk graph source es) p told.walk) (sym told.hops ∙ cc),
  )
    where
      exactly : c.hop_count ≤ 1 → Walk graph source es v → c.hop_count ≡ 1
      exactly l w = elim (ℕ_discrete c.hop_count 0) [
        | yes z ↦ absurd (n (Walk-none v es w (sym told.hops ∙ z)))
        | no z ↦ omega (arith, l, z)
      ]

-- The direct neighbours of a node, other than the node itself, are exactly the nodes for which the search
-- from it, which ends, has one hop.
pub direct_connectivity-hops :
    (locale_compare : String → String → Ordering) (graph : ConnectivityGraph) (source v : String)
    → is_empty source ≡ false
    → source ≢ v
    → (best : JsMap PathCandidate) × (reachable_paths locale_compare graph source ≡ some best)
      × ((has v (direct_connectivity locale_compare graph (some source)).node_ids ≡ true)
          ↔ (hops_of (get v best) ≡ some 1))
unfolding direct_connectivity has
direct_connectivity-hops locale_compare graph source v f n =
    let (best, e, least) = reachable_paths_lem locale_compare graph source in
    let hop = one_hop graph source v (get v best) n (least v) in
    (
      best,
      e,
      rw f (
        λ h. elim (has-add_node_ids v (edges_of graph source) [] h) [
          | inl k ↦ cc
          | inr l ↦ hop.0 l
        ],
        λ h. add_node_ids-LeadsTo v (edges_of graph source) [] (hop.1 h),
      ),
    )
