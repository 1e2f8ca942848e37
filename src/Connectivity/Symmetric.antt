-- ===== src/Connectivity/Symmetric.antt =====
-- web/src/connectivity.ts: the graph that `buildConnectivityGraph` makes can be walked backwards, so that
-- `reachablePaths` gives two nodes the same number of hops from each other.
use Prim.Native.Nat.{Ordering}
use mathlib.Core.List.{Memᴰ}
use mc_carto_live.Prelude.{
  ℕ, ◌+◌, String, ◌≡◌, refl, sym, ap, ◌∙◌, subst, inl, inr, Option, none, some, List, [], ◌∷◌, ◌++◌,
  length, length-append, arith,
}
use mc_carto_live.Prelude.JsMap.{JsMap, get}
use mc_carto_live.Types.{PublicNode, PublicRoute}
use mc_carto_live.Connectivity.{
  GraphEdge, ConnectivityGraph, forward, backward, map_of_nodes, build_connectivity_graph, edges_of,
}
use mc_carto_live.Connectivity.Walks.{Walk, here, along}
use mc_carto_live.Connectivity.Edges.{IsEdge, edge, build_connectivity_graph-edges}
use mc_carto_live.Connectivity.Paths.{PathCandidate, reachable_paths}
use mc_carto_live.Connectivity.Paths.Shortest.{IsShortest, reachable_paths_lem}

-- A walk from here to there of some number of edges.
abbrev pub Leads : ConnectivityGraph → String → String → ℕ → Type 0
Leads graph u v n = (es : List GraphEdge) × Walk graph u es v × (length es ≡ n)

Leads-Walk :
    (graph : ConnectivityGraph) (u v w : String) (m : ℕ) (es : List GraphEdge)
    → Leads graph u v m
    → Walk graph v es w
    → Leads graph u w (m + length es)
Leads-Walk graph u v w m _ (fs, k, p) here = (fs, k, omega (arith, p))
Leads-Walk graph u v w m _ (fs, k, p) (along {es} {id} {edge = e} l i) =
    let (gs, j, q) = Leads-Walk graph u v id m es (fs, k, p) l in
    (
      gs ++ e ∷ [],
      along j i,
      omega (arith, q, length-append gs (e ∷ []), length-append es (e ∷ [])),
    )

-- The hops that a map has for a node.
abbrev pub hops_of : Option PathCandidate → Option ℕ
hops_of none = none
hops_of (some c) = some c.hop_count

-- In a graph in which every walk can be turned round, two nodes are as far from each other.
same_hops :
    (graph : ConnectivityGraph) (u v : String) (there back : Option PathCandidate)
    → ((s t : String) (es : List GraphEdge) → Walk graph s es t → Leads graph t s (length es))
    → IsShortest graph u v there
    → IsShortest graph v u back
    → hops_of there ≡ hops_of back
same_hops graph u v none none turn f g = refl
same_hops graph u v none (some d) turn f (p, (es, told), least) =
    let (fs, w, q) = turn v u es (subst (Walk graph v es) p told.walk) in absurd (f (fs, w))
same_hops graph u v (some c) none turn (p, (es, told), least) g =
    let (fs, w, q) = turn u v es (subst (Walk graph u es) p told.walk) in absurd (g (fs, w))
same_hops graph u v (some c) (some d) turn (p, (es, told), least) (p', (es', told'), least') =
    let (fs, w, q) = turn u v es (subst (Walk graph u es) p told.walk) in
    let (fs', w', q') = turn v u es' (subst (Walk graph v es') p' told'.walk) in
    ap some (omega (arith, told.hops, told'.hops, q, q', least fs' w', least' fs w))

module _ (upper : String → String) (locale_compare : String → String → Ordering)
    (nodes : List PublicNode) (routes : List PublicRoute) where
  abbrev built : ConnectivityGraph
  built = build_connectivity_graph upper locale_compare nodes routes

  -- For each edge there is one back.
  edge_back :
      (u : String) (e : GraphEdge) → Memᴰ e (edges_of built u) → Leads built e.to_node_id u 1
  edge_back u e m =
      turned ((build_connectivity_graph-edges upper locale_compare nodes routes u e).0 m)
    where
      step :
          (f : GraphEdge) (s t : String)
          → IsEdge (map_of_nodes [] nodes) routes s f
          → f.to_node_id ≡ t
          → Leads built s t 1
      step f s t i p = (
        f ∷ [],
        subst (Walk built s (f ∷ [])) p (
            along here
              ((build_connectivity_graph-edges upper locale_compare nodes routes s f).1 i)),
        refl,
      )

      turned : IsEdge (map_of_nodes [] nodes) routes u e → Leads built e.to_node_id u 1
      turned (edge route m p q (inl way) from) =
          step (backward route) e.to_node_id u
            (edge route m p q (inr refl) (sym (ap (λ x. x.to_node_id) way)))
            (sym (ap (λ x. x.from_node_id) way) ∙ from)
      turned (edge route m p q (inr way) from) =
          step (forward route) e.to_node_id u
            (edge route m p q (inl refl) (sym (ap (λ x. x.to_node_id) way)))
            (sym (ap (λ x. x.from_node_id) way) ∙ from)

  Walk-Leads :
      (s t : String) (es : List GraphEdge) → Walk built s es t → Leads built t s (length es)
  Walk-Leads s _ _ here = ([], here, refl)
  Walk-Leads s _ _ (along {es} {id} {edge = e} w m) =
      let (fs, j, q) = Walk-Leads s id es w in
      let (gs, k, r) = Leads-Walk built e.to_node_id id s 1 fs (edge_back id e m) j in
      (gs, k, omega (arith, q, r, length-append es (e ∷ [])))

  -- In the graph of any nodes and routes the searches from two nodes end, and the one has for the other node
  -- as many hops as the other has for the one, or neither has any.
  pub reachable_paths-symmetric :
      (u v : String)
      → (from_u : JsMap PathCandidate) × (from_v : JsMap PathCandidate) × (reachable_paths
            locale_compare built u
          ≡ some from_u)
        × (reachable_paths locale_compare built v ≡ some from_v)
        × (hops_of (get v from_u) ≡ hops_of (get u from_v))
  reachable_paths-symmetric u v =
      let (from_u, e, f) = reachable_paths_lem locale_compare built u in
      let (from_v, e', f') = reachable_paths_lem locale_compare built v in
      (
        from_u,
        from_v,
        e,
        e',
        same_hops built u v (get v from_u) (get u from_v) Walk-Leads (f v) (f' u),
      )
