-- ===== src/Connectivity/Paths/Runs.antt =====
-- The two loops of `reachablePaths` (web/src/connectivity.ts): rules for what every step keeps.
use Prim.Native.Nat.{Ordering}
use mathlib.Core.List.{Memᴰ}
use mc_carto_live.Prelude.{ℕ, zero, suc, String, ◌≡◌, refl, subst, some, List, [], ◌∷◌}
use mc_carto_live.Prelude.JsMap.{JsMap}
use mc_carto_live.Connectivity.{GraphEdge, ConnectivityGraph, edges_of}
use mc_carto_live.Connectivity.Paths.{PathCandidate, Search, consider, consider_all, paths_loop}

module _ (locale_compare : String → String → Ordering) (graph : ConnectivityGraph) where
  -- What each edge keeps, all of them keep.
  pub consider_all_keeps :
      (current : PathCandidate) (P : Search → Type 0) (edges : List GraphEdge)
      → ((edge : GraphEdge)
          → Memᴰ edge edges
          → (s : Search) → P s
          → P (consider locale_compare graph current edge s))
      → (s : Search) → P s
      → P (consider_all locale_compare graph current edges s)
  unfolding consider_all
  consider_all_keeps current P [] step s p = p
  consider_all_keeps current P (edge ∷ edges) step s p =
      consider_all_keeps current P edges (λ e m. step e (Memᴰ.tail m))
        (consider locale_compare graph current edge s) (step edge (Memᴰ.head refl) s p)

  -- What each round keeps holds at the end, when the queue is empty.
  pub paths_loop_keeps :
      (P : Search → Type 0)
      → ((current : PathCandidate) (rest : List PathCandidate) (best : JsMap PathCandidate)
          → P (record { best = best; queue = current ∷ rest })
          → P (
              consider_all locale_compare graph current
                (edges_of graph current.node_id)
                (record { best = best; queue = rest })))
      → (rounds : ℕ) (best : JsMap PathCandidate) (queue : List PathCandidate)
      → P (record { best = best; queue = queue })
      → (result : JsMap PathCandidate)
      → paths_loop locale_compare graph rounds (record { best = best; queue = queue }) ≡ some result
      → P (record { best = result; queue = [] })
  unfolding paths_loop
  paths_loop_keeps P step zero best queue p result e = cc
  paths_loop_keeps P step (suc rounds) best [] p result e =
      subst (λ b. P (record { best = b; queue = [] })) (cc) p
  paths_loop_keeps P step (suc rounds) best (current ∷ rest) p result e =
      let s : Search =
        consider_all locale_compare graph current (edges_of graph current.node_id)
          (record { best = best; queue = rest }) in
      paths_loop_keeps P step rounds s.best s.queue (step current rest best p) result e
