-- ===== src/Connectivity/Paths/Shortest.antt =====
-- `reachablePaths` and `shortestPathBetween` (web/src/connectivity.ts) against the walks of the graph: what
-- they give for a node is a walk to it of the fewest edges, and nothing where no walk leads.
use Prim.Native.Nat.{Ordering}
use mathlib.Core.List.{Memᴰ}
use mc_carto_live.Prelude.{
  suc, ◌≤◌, String, if_neg, true, ◌≡◌, ◌≢◌, refl, sym, subst, ◌⊎◌, inl, inr, is_some, Option, none,
  some, List, [], ◌∷◌, map, All, length, length-append, arith,
}
use mc_carto_live.Prelude.JsMap.{JsMap, get}
use mc_carto_live.Types.{PublicNode}
use mc_carto_live.Connectivity.{GraphEdge, ConnectivityGraph, edges_of}
use mc_carto_live.Connectivity.Paths.{
  PathCandidate, ReachableNode, Search, start_search, enough_rounds, is_known, end_of_path,
  reachable_paths, shortest_path_between,
}
use mc_carto_live.Connectivity.Paths.Runs.{paths_loop_keeps}
use mc_carto_live.Connectivity.Paths.Reach.{IsReached}
use mc_carto_live.Connectivity.Paths.Sound.{
  TellsWalk, IsDone, IsSound, start_search-IsSound, round-IsSound,
}
use mc_carto_live.Connectivity.Paths.Ends.{reachable_paths_ends}
use mc_carto_live.Connectivity.Walks.{Walk, here, along}

-- What is known of a node: no walk leads there, or the candidate tells one of the fewest edges.
abbrev pub IsShortest : ConnectivityGraph → String → String → Option PathCandidate → Type 0
IsShortest graph source v none = ¬ ((es : List GraphEdge) × Walk graph source es v)
IsShortest graph source v (some c) =
    (c.node_id ≡ v)
    × TellsWalk graph source c
    × ((es : List GraphEdge) → Walk graph source es v → c.hop_count ≤ length es)

member_of_edges :
    (P : GraphEdge → Type 0) (e : GraphEdge) (edges : List GraphEdge)
    → All P edges
    → Memᴰ e edges
    → P e
member_of_edges P e [] h m = elim m [ ]
member_of_edges P e (x ∷ xs) h (Memᴰ.head p) = subst P (sym p) h.0
member_of_edges P e (x ∷ xs) h (Memᴰ.tail m) = member_of_edges P e xs h.1 m

module _ (graph : ConnectivityGraph) (source : String) (s : Search)
    (sound : IsSound graph source s []) where
  nothing_waits : (c : PathCandidate) → Memᴰ c [] ⊎ IsDone graph s c → IsDone graph s c
  nothing_waits c (inl m) = elim m [ ]
  nothing_waits c (inr d) = d

  -- At the end a node is known by no more hops than any walk to it has.
  Walk-IsReached :
      (es : List GraphEdge) (v : String) → Walk graph source es v → IsReached s v (length es)
  Walk-IsReached _ _ here = sound.origin
  Walk-IsReached _ _ (along {es} {id} {edge} w m) =
      let (d, e, h) = Walk-IsReached es id w in
      let done = nothing_waits d (sound.closed id d e) in
      let m' = subst (λ x. Memᴰ edge (edges_of graph x)) (sym (sound.known id d e).0) m in
      let (c, q, k) =
        member_of_edges (λ x. IsReached s x.to_node_id (suc d.hop_count)) edge
          (edges_of graph d.node_id) done m' in
      (c, q, omega (arith, h, k, length-append es (edge ∷ [])))

  known-IsShortest :
      (v : String) (found : Option PathCandidate)
      → get v s.best ≡ found
      → IsShortest graph source v found
  known-IsShortest v none e = λ (es, w). let (c, q, h) = Walk-IsReached es v w in cc
  known-IsShortest v (some c) e = (
    (sound.known v c e).0,
    (sound.known v c e).1,
    λ es w.
        let (d, q, h) = Walk-IsReached es v w in
        let p : d ≡ c = cc in subst (λ x. x.hop_count ≤ length es) p h,
  )

module _ (locale_compare : String → String → Ordering) (graph : ConnectivityGraph) where
  -- The search from a node ends with a map that has, for every node, a simple walk of the fewest edges that
  -- leads there from the source, told with its routes, nodes and totals; it has nothing exactly for the
  -- nodes to which no walk leads.
  pub reachable_paths_lem :
      (source : String)
      → (best : JsMap PathCandidate) × (reachable_paths locale_compare graph source ≡ some best)
        × ((v : String) → IsShortest graph source v (get v best))
  unfolding reachable_paths
  reachable_paths_lem source =
      let (best, e) = reachable_paths_ends locale_compare graph source in
      let sound =
        paths_loop_keeps locale_compare graph (λ s. IsSound graph source s s.queue)
          (λ current rest b h. round-IsSound locale_compare graph source current rest b h)
          (enough_rounds graph) (start_search source).best (start_search source).queue
          (start_search-IsSound graph source) best e in
      (
        best,
        e,
        λ v.
            known-IsShortest graph source (record { best = best; queue = [] }) sound v (get v best)
              refl,
      )

-- What is answered for a pair of nodes: no walk leads from the one to the other, or the routes and the
-- nodes of a walk of the fewest edges.
abbrev pub IsAnswer : ConnectivityGraph → String → String → Option ReachableNode → Type 0
IsAnswer graph source target none = ¬ ((es : List GraphEdge) × Walk graph source es target)
IsAnswer graph source target (some r) =
    (get target graph.nodes_by_id ≡ some r.node)
    × ((es : List GraphEdge) × Walk graph source es target
        × (r.hop_count ≡ length es)
        × (r.path_route_ids ≡ map (λ (e : GraphEdge). e.route.id) es)
        × (r.path_node_ids ≡ source ∷ map (λ (e : GraphEdge). e.to_node_id) es))
    × ((es : List GraphEdge) → Walk graph source es target → r.hop_count ≤ length es)

module _ (upper : String → String) (graph : ConnectivityGraph) (source : String)
    (target : String) where
  end_of_path-IsAnswer :
      (found : Option PathCandidate) (end : Option PublicNode)
      → get target graph.nodes_by_id ≡ end
      → is_some end ≡ true
      → IsShortest graph source target found
      → IsAnswer graph source target (end_of_path upper found end)
  end_of_path-IsAnswer none none e k s = s
  end_of_path-IsAnswer none (some node) e k s = s
  end_of_path-IsAnswer (some c) none e k s = cc
  end_of_path-IsAnswer (some c) (some node) e k (p, (es, told), least) =
      (e, (es, subst (Walk graph source es) p told.walk, told.hops, told.routes, told.nodes), least)

  -- For two different nodes of the graph the search ends, and the answer is the routes and the nodes of a
  -- walk of the fewest edges from the one to the other; there is no answer only where no walk leads.
  pub shortest_path_between_lem :
      (locale_compare : String → String → Ordering)
      → is_known graph source ≡ true
      → is_known graph target ≡ true
      → source ≢ target
      → (answer : Option ReachableNode) × (shortest_path_between locale_compare upper graph source
            target
          ≡ some answer)
        × IsAnswer graph source target answer
  unfolding shortest_path_between
  shortest_path_between_lem locale_compare ks kt n =
      let (best, e, least) = reachable_paths_lem locale_compare graph source in
      (
        end_of_path upper (get target best) (get target graph.nodes_by_id),
        rw (ks, kt, e) (rw (if_neg _ n) refl),
        end_of_path-IsAnswer (get target best) (get target graph.nodes_by_id) refl
            (ground (arith, kt)) (least target),
      )
