-- ===== src/Connectivity/Paths/Reach.antt =====
-- `reachablePaths` (web/src/connectivity.ts): a node that is known by some number of hops stays known by
-- no more, and a round makes known whatever an edge of its candidate leads to.
use Prim.Native.Nat.{Ordering}
use mc_carto_live.Prelude.{
  ℕ, suc, ◌+◌, ◌≤◌, String, string_discrete, if_neg, true, ◌≡◌, refl, ◌∙◌, subst, some, List, [],
  ◌∷◌, All, All-append, All-mono, arith,
}
use mc_carto_live.Prelude.JsMap.{get}
use mc_carto_live.Prelude.JsSet
use mc_carto_live.Connectivity.{GraphEdge, ConnectivityGraph}
use mc_carto_live.Connectivity.Paths.{
  PathCandidate, Search, next_candidate, improve, consider, consider_all,
}
use mc_carto_live.Connectivity.Paths.Loop.{consider_cases, get-improve_same, get-improve_other}
use mc_carto_live.Connectivity.Paths.Runs.{consider_all_keeps}

-- The node is known by at most so many hops.
abbrev pub IsReached : Search → String → ℕ → Type 0
IsReached s v n = (d : PathCandidate) × (get v s.best ≡ some d) × d.hop_count ≤ n

-- Each node of the candidate's path is known by no more hops than the candidate has.
abbrev pub IsCovered : Search → PathCandidate → Type 0
IsCovered s c = All (λ v. IsReached s v c.hop_count) c.node_ids

-- What one search knows, the other knows by no more hops.
abbrev pub IsBelow : Search → Search → Type 0
IsBelow s s' = (v : String) (n : ℕ) → IsReached s v n → IsReached s' v n

member_of_All :
    (P : String → Type 0) (k : String) (xs : List String) → All P xs → JsSet.has k xs ≡ true → P k
unfolding JsSet.has
member_of_All P k [] h e = cc
member_of_All P k (x ∷ xs) h e = elim (string_discrete x k) [
  | yes p ↦ subst P p h.0
  | no p ↦ member_of_All P k xs h.1 (rw (if_neg _ p) at e)
]

weaken : (s : Search) (v : String) (m n : ℕ) → m ≤ n → IsReached s v m → IsReached s v n
weaken s v m n le (d, e, h) = (d, e, omega (arith, le, h))

pub IsBelow-IsCovered :
    (s s' : Search) (c : PathCandidate) → IsBelow s s' → IsCovered s c → IsCovered s' c
IsBelow-IsCovered s s' c below =
    All-mono (λ v. IsReached s v c.hop_count) (λ v. IsReached s' v c.hop_count) c.node_ids
      (λ v. below v c.hop_count)

module _ (locale_compare : String → String → Ordering) (graph : ConnectivityGraph) where
  -- A candidate that is put in is known.
  improve-IsReached :
      (next : PathCandidate) (s : Search)
      → IsReached (improve locale_compare next s) next.node_id next.hop_count
  improve-IsReached next s =
      (next, get-improve_same locale_compare next.node_id next s refl, omega arith)

  -- It takes the place of none that has fewer hops.
  pub improve-IsBelow :
      (next : PathCandidate) (s : Search)
      → ((d : PathCandidate) → get next.node_id s.best ≡ some d → next.hop_count ≤ d.hop_count)
      → IsBelow s (improve locale_compare next s)
  improve-IsBelow next s better v n (d, e, h) = elim (string_discrete next.node_id v) [
    | yes p ↦
        (next, get-improve_same locale_compare v next s p, omega (arith, better d (rw p e), h))
    | no p ↦ (d, get-improve_other locale_compare v next s p ∙ e, h)
  ]

  pub consider-IsBelow :
      (current : PathCandidate) (edge : GraphEdge) (s : Search)
      → IsBelow s (consider locale_compare graph current edge s)
  unfolding next_candidate
  consider-IsBelow current edge s =
      consider_cases locale_compare graph current edge s (IsBelow s) (λ _ v n r. r)
        (λ d e h v n r. r)
        (λ h better. improve-IsBelow (next_candidate graph current edge) s better)

  pub consider_all-IsBelow :
      (current : PathCandidate) (edges : List GraphEdge) (s : Search)
      → IsBelow s (consider_all locale_compare graph current edges s)
  consider_all-IsBelow current edges s =
      consider_all_keeps locale_compare graph current (IsBelow s) edges
        (λ e m t below v n r. consider-IsBelow current e t v n (below v n r)) s (λ v n r. r)

  -- The node an edge leads to is known after it.
  consider-IsReached :
      (current : PathCandidate) (edge : GraphEdge) (s : Search)
      → IsCovered s current
      → IsReached
          (consider locale_compare graph current edge s)
          edge.to_node_id
          (suc current.hop_count)
  unfolding next_candidate
  consider-IsReached current edge s covered =
      consider_cases locale_compare graph current edge s
        (λ s'. IsReached s' edge.to_node_id (suc current.hop_count))
        (λ h. weaken s edge.to_node_id current.hop_count (suc current.hop_count) (omega arith) (
          member_of_All (λ v. IsReached s v current.hop_count) edge.to_node_id current.node_ids
            covered h))
        (λ d e h. (d, e, omega (arith, h)))
        (λ h better.
          weaken (improve locale_compare (next_candidate graph current edge) s) edge.to_node_id
            (current.hop_count + 1) (suc current.hop_count) (omega arith)
            (improve-IsReached (next_candidate graph current edge) s))

  -- All that the candidate's edges lead to is known after the round.
  pub consider_all-IsReached :
      (current : PathCandidate) (edges : List GraphEdge) (s : Search)
      → IsCovered s current
      → All
          (λ (e : GraphEdge).
            IsReached
              (consider_all locale_compare graph current edges s)
              e.to_node_id
              (suc current.hop_count))
          edges
  unfolding consider_all
  consider_all-IsReached current [] s covered = tt
  consider_all-IsReached current (edge ∷ edges) s covered =
      let s' : Search = consider locale_compare graph current edge s in
      (
        consider_all-IsBelow current edges s' edge.to_node_id (suc current.hop_count)
            (consider-IsReached current edge s covered),
        consider_all-IsReached current edges s'
            (IsBelow-IsCovered s s' current (consider-IsBelow current edge s) covered),
      )

  -- The path of a candidate that is put in: the path before it, and the node itself.
  pub next_candidate-IsCovered :
      (current : PathCandidate) (edge : GraphEdge) (s : Search)
      → IsBelow s (improve locale_compare (next_candidate graph current edge) s)
      → IsCovered s current
      → IsCovered
          (improve locale_compare (next_candidate graph current edge) s)
          (next_candidate graph current edge)
  unfolding next_candidate
  next_candidate-IsCovered current edge s below covered =
      All-append (λ v. IsReached s' v (current.hop_count + 1)) current.node_ids
        (edge.to_node_id ∷ [])
        (All-mono (λ v. IsReached s v current.hop_count)
          (λ v. IsReached s' v (current.hop_count + 1)) current.node_ids
          (λ v r.
            below v (current.hop_count + 1)
              (weaken s v current.hop_count (current.hop_count + 1) (omega arith) r))
          covered)
        (improve-IsReached (next_candidate graph current edge) s, tt)
    where
      s' : Search
      s' = improve locale_compare (next_candidate graph current edge) s
