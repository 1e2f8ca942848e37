-- ===== src/Connectivity/Paths/Ends.antt =====
-- `reachablePaths` (web/src/connectivity.ts) ends: the rounds that the graph is given are enough.
use Prim.Native.Nat.{Ordering}
use mc_carto_live.Prelude.{ℕ, zero, suc, ◌≤◌, String, ◌≡◌, refl, some, List, [], ◌∷◌, arith}
use mc_carto_live.Prelude.JsMap.{JsMap}
use mc_carto_live.Connectivity.{ConnectivityGraph, edges_of}
use mc_carto_live.Connectivity.Paths.{
  PathCandidate, Search, all_targets, enough_rounds, consider_all, paths_loop, start_candidate,
  start_search, reachable_paths,
}
use mc_carto_live.Connectivity.Paths.Load.{
  load_of, weight, open_edges, edge_count, unvisited-le, pow_mono, round-load-lt,
}

module _ (locale_compare : String → String → Ordering) (graph : ConnectivityGraph) where
  -- More rounds than the queue weighs are enough.
  paths_loop_ends :
      (rounds : ℕ) (best : JsMap PathCandidate) (queue : List PathCandidate)
      → suc (load_of (weight graph) queue) ≤ rounds
      → (result : JsMap PathCandidate) × (paths_loop locale_compare graph rounds
            (record { best = best; queue = queue })
          ≡ some result)
  unfolding paths_loop
  paths_loop_ends zero best queue h = absurd (omega (arith, h))
  paths_loop_ends (suc rounds) best [] h = (best, refl)
  paths_loop_ends (suc rounds) best (current ∷ rest) h =
      let s : Search =
        consider_all locale_compare graph current (edges_of graph current.node_id)
          (record { best = best; queue = rest }) in
      paths_loop_ends rounds s.best s.queue
        (omega (arith, h, round-load-lt locale_compare graph current rest best))

  -- The search from any node of any graph ends with a map: it does not run out of its rounds.
  pub reachable_paths_ends :
      (source : String)
      → (result : JsMap PathCandidate) × (reachable_paths locale_compare graph source ≡ some result)
  unfolding reachable_paths enough_rounds
  reachable_paths_ends source =
      paths_loop_ends (enough_rounds graph) (start_search source).best (start_search source).queue (
        omega (
          arith,
          pow_mono (edge_count graph) (open_edges graph (start_candidate source)) (edge_count graph)
              (unvisited-le (source ∷ []) (all_targets graph.adjacency)),
        ))
