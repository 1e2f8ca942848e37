-- ===== src/Connectivity/Paths/Load.antt =====
-- `reachablePaths` (web/src/connectivity.ts): a measure of the queue. With e edges, a candidate that has
-- k edges to nodes off its path weighs (1 + e)^k.
use Prim.Native.Nat.{Ordering}
use native.Mathlib.Nat.{pow-zero, pow-suc, one-le-pow, mul-le-mul, mul-le-mul_right}
use mathlib.Core.List.{Memᴰ}
use mc_carto_live.Prelude.{
  ℕ, zero, suc, ◌+◌, ◌*◌, ◌^◌, ◌≤◌, String, string_discrete, if_pos, if_neg, Bool, false, ◌≡◌, refl,
  ap, List, [], ◌∷◌, ◌++◌, map, length, length-append, ◌⁇◌, if◌then◌else◌, arith,
}
use mc_carto_live.Prelude.JsMap.{JsMap, get}
use mc_carto_live.Prelude.JsSet
use mc_carto_live.Prelude.Sort.{insert, sort}
use mc_carto_live.Connectivity.{GraphEdge, ConnectivityGraph, edges_of}
use mc_carto_live.Connectivity.Paths.{
  PathCandidate, Search, all_targets, next_candidate, path_not_after, improve, consider,
  consider_all,
}
use mc_carto_live.Connectivity.Paths.Loop.{consider_cases, Memᴰ-append_left, Memᴰ-append_right}
use mc_carto_live.Connectivity.Walks.{has-snoc}

-- How many of the targets are off the path.
unfoldable pub unvisited : List String → List String → ℕ
unfolding JsSet.has
unvisited ids [] = 0
unvisited ids (t ∷ ts) = let rest = unvisited ids ts in if JsSet.has t ids then rest else suc rest

pub unvisited-le : (ids targets : List String) → unvisited ids targets ≤ length targets
unfolding unvisited
unvisited-le ids [] = omega arith
unvisited-le ids (t ∷ ts) = ground (arith, unvisited-le ids ts)

unvisited-snoc-le :
    (x : String) (ids targets : List String)
    → unvisited (ids ++ x ∷ []) targets ≤ unvisited ids targets
unfolding unvisited
unvisited-snoc-le x ids [] = omega arith
unvisited-snoc-le x ids (t ∷ ts) = ground (arith, has-snoc t x ids, unvisited-snoc-le x ids ts)

unvisited-snoc-lt :
    (x : String) (ids targets : List String)
    → Memᴰ x targets
    → JsSet.has x ids ≡ false
    → suc (unvisited (ids ++ x ∷ []) targets) ≤ unvisited ids targets
unfolding unvisited
unvisited-snoc-lt x ids [] m h = elim m [ ]
unvisited-snoc-lt x ids (t ∷ ts) (Memᴰ.head p) h =
    ground (arith, p, has-snoc t x ids, unvisited-snoc-le x ids ts)
unvisited-snoc-lt x ids (t ∷ ts) (Memᴰ.tail m) h =
    ground (arith, has-snoc t x ids, unvisited-snoc-lt x ids ts m h)

-- The edges at a node are among all of them.
Memᴰ-targets :
    (e : GraphEdge) (edges : List GraphEdge)
    → Memᴰ e edges
    → Memᴰ e.to_node_id (map (λ (x : GraphEdge). x.to_node_id) edges)
Memᴰ-targets e [] m = elim m [ ]
Memᴰ-targets e (x ∷ xs) (Memᴰ.head p) = Memᴰ.head (ap (λ (y : GraphEdge). y.to_node_id) p)
Memᴰ-targets e (x ∷ xs) (Memᴰ.tail m) = Memᴰ.tail (Memᴰ-targets e xs m)

length-map : {A B : Type 0} → (f : A → B) (xs : List A) → length (map f xs) ≡ length xs
length-map f [] = refl
length-map f (x ∷ xs) = ap suc (length-map f xs)

targets_of_node :
    (id : String) (e : GraphEdge) (m : JsMap (List GraphEdge))
    → Memᴰ e (get id m ⁇ [])
    → Memᴰ e.to_node_id (all_targets m)
unfolding get all_targets
targets_of_node id e [] h = elim h [ ]
targets_of_node id e ((k, edges) ∷ m) h = elim (string_discrete k id) [
  | yes p ↦
      Memᴰ-append_left e.to_node_id (map (λ (x : GraphEdge). x.to_node_id) edges) (all_targets m)
        (Memᴰ-targets e edges (rw (if_pos _ p) at h))
  | no p ↦
      Memᴰ-append_right e.to_node_id (map (λ (x : GraphEdge). x.to_node_id) edges) (all_targets m)
        (targets_of_node id e m (rw (if_neg _ p) at h))
]

length-edges-le :
    (id : String) (m : JsMap (List GraphEdge)) → length (get id m ⁇ []) ≤ length (all_targets m)
unfolding get all_targets
length-edges-le id [] = omega arith
length-edges-le id ((k, edges) ∷ m) = elim (string_discrete k id) [
  | yes p ↦ rw (if_pos _ p) (
      omega (
        arith,
        length-append (map (λ (x : GraphEdge). x.to_node_id) edges) (all_targets m),
        length-map (λ (x : GraphEdge). x.to_node_id) edges,
      ))
  | no p ↦ rw (if_neg _ p) (
      omega (
        arith,
        length-append (map (λ (x : GraphEdge). x.to_node_id) edges) (all_targets m),
        length-edges-le id m,
      ))
]

-- Powers.
pub pow_mono : (b m n : ℕ) → m ≤ n → suc b ^ m ≤ suc b ^ n
pow_mono b zero n h = rw (pow-zero (suc b)) (one-le-pow n (suc b) (omega arith))
pow_mono b (suc m) zero h = absurd (omega (arith, h))
pow_mono b (suc m) (suc n) h =
    rw (pow-suc (suc b) m, pow-suc (suc b) n)
      (mul-le-mul (pow_mono b m n (omega (arith, h))) (omega arith))

-- What one more node on the path leaves of a weight.
abbrev pub room : ℕ → ℕ → ℕ
room b zero = 0
room b (suc k) = suc b ^ k

room_lem : (b k : ℕ) → b * room b k + 1 ≤ suc b ^ k
room_lem b zero = rw (pow-zero (suc b)) (omega arith)
room_lem b (suc k) = rw (pow-suc (suc b) k) (omega (arith, one-le-pow k (suc b) (omega arith)))

pow_fits : (b m k : ℕ) → suc m ≤ k → suc b ^ m ≤ room b k
pow_fits b m zero h = absurd (omega (arith, h))
pow_fits b m (suc k) h = pow_mono b m k (omega (arith, h))

-- The weights of the candidates together.
abbrev pub load_of : (PathCandidate → ℕ) → List PathCandidate → ℕ
load_of f [] = 0
load_of f (c ∷ cs) = f c + load_of f cs

load_of-append :
    (f : PathCandidate → ℕ) (xs ys : List PathCandidate)
    → load_of f (xs ++ ys) ≡ load_of f xs + load_of f ys
load_of-append f [] ys = omega arith
load_of-append f (x ∷ xs) ys = omega (arith, load_of-append f xs ys)

load_of-insert :
    (f : PathCandidate → ℕ) (le : PathCandidate → PathCandidate → Bool) (x : PathCandidate)
    (xs : List PathCandidate)
    → load_of f (insert le x xs) ≡ f x + load_of f xs
unfolding insert
load_of-insert f le x [] = refl
load_of-insert f le x (y ∷ ys) = ground (arith, load_of-insert f le x ys)

load_of-sort :
    (f : PathCandidate → ℕ) (le : PathCandidate → PathCandidate → Bool) (xs : List PathCandidate)
    → load_of f (sort le xs) ≡ load_of f xs
unfolding sort
load_of-sort f le [] = refl
load_of-sort f le (x ∷ xs) = omega (arith, load_of-insert f le x (sort le xs), load_of-sort f le xs)

-- How many edges the graph has, the candidate's edges off its path, and its weight.
abbrev pub edge_count : ConnectivityGraph → ℕ
edge_count graph = length (all_targets graph.adjacency)

abbrev pub open_edges : ConnectivityGraph → PathCandidate → ℕ
open_edges graph c = unvisited c.node_ids (all_targets graph.adjacency)

abbrev pub weight : ConnectivityGraph → PathCandidate → ℕ
weight graph c = suc (edge_count graph) ^ open_edges graph c

module _ (locale_compare : String → String → Ordering) (graph : ConnectivityGraph) where
  load_of-improve :
      (f : PathCandidate → ℕ) (next : PathCandidate) (s : Search)
      → load_of f (improve locale_compare next s).queue ≡ load_of f s.queue + f next
  unfolding improve
  load_of-improve f next s = omega (
    arith,
    load_of-sort f (path_not_after locale_compare) (s.queue ++ next ∷ []),
    load_of-append f s.queue (next ∷ []),
  )

  -- One edge adds at most the room that its candidate leaves.
  consider-load :
      (current : PathCandidate) (edge : GraphEdge) (s : Search)
      → Memᴰ edge (edges_of graph current.node_id)
      → load_of (weight graph) (consider locale_compare graph current edge s).queue
        ≤ load_of (weight graph) s.queue + room (edge_count graph) (open_edges graph current)
  unfolding next_candidate
  consider-load current edge s m =
      consider_cases locale_compare graph current edge s
        (λ s'.
          load_of (weight graph) s'.queue
          ≤ load_of (weight graph) s.queue + room (edge_count graph) (open_edges graph current))
        (λ h. omega arith) (λ d e h. omega arith)
        (λ h better. omega (
          arith,
          load_of-improve (weight graph) (next_candidate graph current edge) s,
          pow_fits (edge_count graph) (open_edges graph (next_candidate graph current edge))
              (open_edges graph current)
              (unvisited-snoc-lt edge.to_node_id current.node_ids (all_targets graph.adjacency)
                (targets_of_node current.node_id edge graph.adjacency m) h),
        ))

  consider_all-load :
      (current : PathCandidate) (edges : List GraphEdge) (s : Search)
      → ((e : GraphEdge) → Memᴰ e edges → Memᴰ e (edges_of graph current.node_id))
      → load_of (weight graph) (consider_all locale_compare graph current edges s).queue
        ≤ load_of (weight graph) s.queue
          + length edges * room (edge_count graph) (open_edges graph current)
  unfolding consider_all
  consider_all-load current [] s sub = omega arith
  consider_all-load current (edge ∷ edges) s sub = omega (
    arith,
    consider-load current edge s (sub edge (Memᴰ.head refl)),
    consider_all-load current edges (consider locale_compare graph current edge s)
        (λ e m. sub e (Memᴰ.tail m)),
  )

  -- A round makes the queue lighter.
  pub round-load-lt :
      (current : PathCandidate) (rest : List PathCandidate) (best : JsMap PathCandidate)
      → suc (
          load_of
            (weight graph)
            (consider_all locale_compare graph current
              (edges_of graph current.node_id)
              (record { best = best; queue = rest })).queue)
        ≤ load_of (weight graph) (current ∷ rest)
  round-load-lt current rest best = omega (
    arith,
    consider_all-load current (edges_of graph current.node_id)
        (record { best = best; queue = rest }) (λ e m. m),
    mul-le-mul_right (room (edge_count graph) (open_edges graph current))
        (length-edges-le current.node_id graph.adjacency),
    room_lem (edge_count graph) (open_edges graph current),
  )
