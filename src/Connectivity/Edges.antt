-- ===== src/Connectivity/Edges.antt =====
-- `buildConnectivityGraph` (web/src/connectivity.ts): which edges the graph has at a node.
use Prim.Native.Nat.{Ordering}
use mathlib.Core.List.{Memᴰ}
use mc_carto_live.Prelude.{
  String, Bool, true, false, ◌&&◌, ◌≡◌, ◌↔◌, ◌⊎◌, inl, inr, refl, sym, ap, ◌∙◌, subst, Bool-cases,
  List, [], ◌∷◌, arith,
}
use mc_carto_live.Prelude.JsMap.{JsMap, get, has}
use mc_carto_live.Prelude.Sort.{sort}
use mc_carto_live.Types.{PublicNode, PublicRoute}
use mc_carto_live.Connectivity.{
  GraphEdge, ConnectivityGraph, forward, backward, append_edge, map_values, map_of_nodes,
  graph_of_nodes, add_route, add_routes, edge_not_after, build_connectivity_graph, edges_of,
}
use mc_carto_live.Connectivity.Paths.Loop.{Memᴰ-sort}
use mc_carto_live.Connectivity.Adjacency.{
  edges_at, Memᴰ_of_sort, edges_at-map_values, append_edge_keeps, append_edge_adds,
  edge_of_append_edge,
}

-- An edge at a node, as the routes have it: one way or the other along a route between two known nodes.
pub data IsEdge (nodes : JsMap PublicNode) (routes : List PublicRoute) (id : String) (e : GraphEdge)
    : Type 0 where
  edge :
      (route : PublicRoute)
      → Memᴰ route routes
      → has route.from.node_id nodes ≡ true
      → has route.to.node_id nodes ≡ true
      → (e ≡ forward route) ⊎ (e ≡ backward route)
      → e.from_node_id ≡ id
      → IsEdge nodes routes id e

module _ (upper : String → String) where
  -- What one route does to the edges: both ways are added if both ends are known.
  add_route_cases :
      (route : PublicRoute) (graph : ConnectivityGraph)
      (P : JsMap PublicNode → JsMap (List GraphEdge) → Type 0)
      → (has route.from.node_id graph.nodes_by_id ≡ true
          → has route.to.node_id graph.nodes_by_id ≡ true
          → P graph.nodes_by_id (
              append_edge route.to.node_id
                (backward route)
                (append_edge route.from.node_id (forward route) graph.adjacency)))
      → (has route.from.node_id graph.nodes_by_id && has route.to.node_id graph.nodes_by_id ≡ false
          → P graph.nodes_by_id graph.adjacency)
      → P (add_route upper route graph).nodes_by_id (add_route upper route graph).adjacency
  unfolding add_route
  add_route_cases route graph P both neither =
      elim (Bool-cases (has route.from.node_id graph.nodes_by_id)) [
        | inr e ↦ rw e (neither (rw e refl))
        | inl e ↦ elim (Bool-cases (has route.to.node_id graph.nodes_by_id)) [
          | inr f ↦ rw (e, f) (neither (rw (e, f) refl))
          | inl f ↦ rw (e, f) (both e f)
        ]
      ]

  add_route-nodes_by_id :
      (route : PublicRoute) (graph : ConnectivityGraph)
      → (add_route upper route graph).nodes_by_id ≡ graph.nodes_by_id
  add_route-nodes_by_id route graph =
      add_route_cases route graph (λ n a. n ≡ graph.nodes_by_id) (λ e f. refl) (λ e. refl)

  add_routes_keeps :
      (id : String) (e : GraphEdge) (routes : List PublicRoute) (graph : ConnectivityGraph)
      → Memᴰ e (edges_at id graph.adjacency)
      → Memᴰ e (edges_at id (add_routes upper routes graph).adjacency)
  unfolding add_routes
  add_routes_keeps id e [] graph h = h
  add_routes_keeps id e (route ∷ routes) graph h =
      add_routes_keeps id e routes (add_route upper route graph) (
        add_route_cases route graph (λ n a. Memᴰ e (edges_at id a))
          (λ p q.
            append_edge_keeps route.to.node_id id (backward route) e
              (append_edge route.from.node_id (forward route) graph.adjacency)
              (append_edge_keeps route.from.node_id id (forward route) e graph.adjacency h))
          (λ p. h))

  -- A route between known nodes is there both ways.
  abbrev BothWays : PublicRoute → JsMap (List GraphEdge) → Type 0
  BothWays route m =
      Memᴰ (forward route) (edges_at route.from.node_id m)
      × Memᴰ (backward route) (edges_at route.to.node_id m)

  add_route_adds :
      (route : PublicRoute) (graph : ConnectivityGraph)
      → has route.from.node_id graph.nodes_by_id ≡ true
      → has route.to.node_id graph.nodes_by_id ≡ true
      → BothWays route (add_route upper route graph).adjacency
  add_route_adds route graph e f =
      add_route_cases route graph (λ n a. BothWays route a)
        (λ p q. (
          append_edge_keeps route.to.node_id route.from.node_id (backward route) (forward route)
              (append_edge route.from.node_id (forward route) graph.adjacency)
              (append_edge_adds route.from.node_id (forward route) graph.adjacency),
          append_edge_adds route.to.node_id (backward route)
              (append_edge route.from.node_id (forward route) graph.adjacency),
        ))
        (λ p. absurd (ground (arith, e, f, p)))

  add_routes_add :
      (route : PublicRoute) (routes : List PublicRoute) (graph : ConnectivityGraph)
      → Memᴰ route routes
      → has route.from.node_id graph.nodes_by_id ≡ true
      → has route.to.node_id graph.nodes_by_id ≡ true
      → BothWays route (add_routes upper routes graph).adjacency
  unfolding add_routes
  add_routes_add route [] graph m e f = elim m [ ]
  add_routes_add route (r ∷ routes) graph (Memᴰ.head p) e f =
      let now =
        subst (λ x. BothWays route (add_route upper x graph).adjacency) p
          (add_route_adds route graph e f) in
      (
        add_routes_keeps route.from.node_id (forward route) routes (add_route upper r graph) now.0,
        add_routes_keeps route.to.node_id (backward route) routes (add_route upper r graph) now.1,
      )
  add_routes_add route (r ∷ routes) graph (Memᴰ.tail m) e f =
      add_routes_add route routes (add_route upper r graph) m (rw (add_route-nodes_by_id r graph) e)
        (rw (add_route-nodes_by_id r graph) f)

  -- Every edge comes of a route.
  abbrev AllEdges : JsMap PublicNode → List PublicRoute → JsMap (List GraphEdge) → Type 0
  AllEdges nodes routes m =
      (id : String) (e : GraphEdge) → Memᴰ e (edges_at id m) → IsEdge nodes routes id e

  append_edge-AllEdges :
      (nodes : JsMap PublicNode) (routes : List PublicRoute) (k : String) (x : GraphEdge)
      (m : JsMap (List GraphEdge))
      → IsEdge nodes routes k x
      → AllEdges nodes routes m
      → AllEdges nodes routes (append_edge k x m)
  append_edge-AllEdges nodes routes k x m is_edge h id e i =
      elim (edge_of_append_edge k id x e m i) [
        | inl j ↦ h id e j
        | inr (p, q) ↦
            subst (λ y. IsEdge nodes routes id y) (sym q)
              (subst (λ v. IsEdge nodes routes v x) p is_edge)
      ]

  add_routes-AllEdges :
      (nodes : JsMap PublicNode) (all : List PublicRoute) (routes : List PublicRoute)
      (graph : ConnectivityGraph)
      → ((r : PublicRoute) → Memᴰ r routes → Memᴰ r all)
      → graph.nodes_by_id ≡ nodes
      → AllEdges nodes all graph.adjacency
      → AllEdges nodes all (add_routes upper routes graph).adjacency
  unfolding add_routes
  add_routes-AllEdges nodes all [] graph sub p h = h
  add_routes-AllEdges nodes all (r ∷ routes) graph sub p h =
      add_routes-AllEdges nodes all routes (add_route upper r graph) (λ x m. sub x (Memᴰ.tail m))
        (add_route-nodes_by_id r graph ∙ p)
        (add_route_cases r graph (λ n a. AllEdges nodes all a)
          (λ e f.
            let ke = ap (has r.from.node_id) (sym p) ∙ e in
            let kf = ap (has r.to.node_id) (sym p) ∙ f in
            append_edge-AllEdges nodes all r.to.node_id (backward r)
              (append_edge r.from.node_id (forward r) graph.adjacency)
              (edge r (sub r (Memᴰ.head refl)) ke kf (inr refl) refl)
              (append_edge-AllEdges nodes all r.from.node_id (forward r) graph.adjacency
                (edge r (sub r (Memᴰ.head refl)) ke kf (inl refl) refl) h))
          (λ e. h))

  -- The edges of the graph at a node are exactly those that the routes give: the edges from that node, one
  -- way or the other, along a route of the list both of whose ends are nodes of the list.
  pub build_connectivity_graph-edges :
      (locale_compare : String → String → Ordering) (nodes : List PublicNode)
      (routes : List PublicRoute) (id : String) (e : GraphEdge)
      → Memᴰ e (edges_of (build_connectivity_graph upper locale_compare nodes routes) id)
        ↔ IsEdge (map_of_nodes [] nodes) routes id e
  unfolding build_connectivity_graph get
  build_connectivity_graph-edges locale_compare nodes routes id e = (
    λ m.
        add_routes-AllEdges (map_of_nodes [] nodes) routes routes (graph_of_nodes nodes) (λ r h. h)
          refl (λ v x h. elim h [ ]) id e
          (Memᴰ_of_sort le e (edges_at id built) (subst (Memᴰ e) at_node m)),
    λ t. subst (Memᴰ e) (sym at_node) (Memᴰ-sort le e (edges_at id built) (there t)),
  )
    where
      le : GraphEdge → GraphEdge → Bool
      le = edge_not_after locale_compare

      built : JsMap (List GraphEdge)
      built = (add_routes upper routes (graph_of_nodes nodes)).adjacency

      at_node : edges_at id (map_values (sort le) built) ≡ sort le (edges_at id built)
      at_node = edges_at-map_values (sort le) id built refl

      there : IsEdge (map_of_nodes [] nodes) routes id e → Memᴰ e (edges_at id built)
      there (edge route m p q (inl way) from) =
          subst (λ x. Memᴰ x (edges_at id built)) (sym way)
            (subst (λ v. Memᴰ (forward route) (edges_at v built))
              (sym (ap (λ x. x.from_node_id) way) ∙ from)
              (add_routes_add route routes (graph_of_nodes nodes) m p q).0)
      there (edge route m p q (inr way) from) =
          subst (λ x. Memᴰ x (edges_at id built)) (sym way)
            (subst (λ v. Memᴰ (backward route) (edges_at v built))
              (sym (ap (λ x. x.from_node_id) way) ∙ from)
              (add_routes_add route routes (graph_of_nodes nodes) m p q).1)
