-- ===== src/Connectivity/Walks.antt =====
-- web/src/connectivity.ts: what a path through the graph is, apart from the search. A walk is a chain of
-- edges from a node; a candidate describes one.
use mathlib.Core.List.{Memᴰ}
use mc_carto_live.Prelude.{
  ℕ, ◌+◌, max, String, string_discrete, ite, not, ◌&&◌, ◌||◌, Bool, true, false, ◌≡◌, refl, sym, ap,
  List, [], ◌∷◌, ◌++◌, map, length, length-append, ◌⁇◌, arith,
}
use mc_carto_live.Prelude.JsMap.{get}
use mc_carto_live.Prelude.JsSet
use mc_carto_live.Connectivity.{GraphEdge, ConnectivityGraph, edges_of}
use mc_carto_live.Connectivity.Paths.{PathCandidate, start_candidate, next_candidate, end_label}

-- No member of the list stands in it twice.
unfoldable pub are_distinct : List String → Bool
unfolding JsSet.has
are_distinct [] = true
are_distinct (x ∷ xs) = not (JsSet.has x xs) && are_distinct xs

-- The sum of a number over the edges, and the greatest one.
abbrev pub sum_of : (GraphEdge → ℕ) → List GraphEdge → ℕ
sum_of f [] = 0
sum_of f (e ∷ es) = f e + sum_of f es

abbrev pub greatest_of : (GraphEdge → ℕ) → List GraphEdge → ℕ
greatest_of f [] = 0
greatest_of f (e ∷ es) = max (f e) (greatest_of f es)

module _ (graph : ConnectivityGraph) (source : String) where
  -- A chain of edges of the graph from the source, and the node it leads to.
  pub data Walk : List GraphEdge → String → Type 0 where
    here : Walk [] source
    along :
        {es : List GraphEdge} {id : String} {edge : GraphEdge}
        → Walk es id
        → Memᴰ edge (edges_of graph id)
        → Walk (es ++ edge ∷ []) edge.to_node_id

  -- The candidate tells the chain of edges: the routes, the nodes in turn, and the totals of the routes.
  pub record IsTold (es : List GraphEdge) (c : PathCandidate) : Type 0 where
    pub walk : Walk es c.node_id
    pub hops : c.hop_count ≡ length es
    pub routes : c.route_ids ≡ map (λ (e : GraphEdge). e.route.id) es
    pub nodes : c.node_ids ≡ source ∷ map (λ (e : GraphEdge). e.to_node_id) es
    pub simple : are_distinct c.node_ids ≡ true
    pub distance : c.total_distance_km ≡ sum_of (λ e. e.route.distance_km) es
    pub packets : c.total_route_packets ≡ sum_of (λ e. e.route.packet_count) es
    pub strongest : c.strongest_route_packet_count ≡ greatest_of (λ e. e.route.packet_count) es
    pub heard : c.last_heard ≡ greatest_of (λ e. e.route.last_heard) es
    pub labels : c.endpoint_labels ≡ map end_label es
    pub hashes :
        c.path_hash3 ≡ map (λ (e : GraphEdge). get e.to_node_id graph.path_hash3_by_node_id ⁇ "") es

map-snoc :
    {A B : Type 0} → (f : A → B) (x : A) (xs : List A) → map f (xs ++ x ∷ []) ≡ map f xs ++ f x ∷ []
map-snoc f x [] = refl
map-snoc f x (y ∷ ys) = ap (◌∷◌ (f y)) (map-snoc f x ys)

sum_of-snoc :
    (f : GraphEdge → ℕ) (x : GraphEdge) (xs : List GraphEdge)
    → sum_of f (xs ++ x ∷ []) ≡ sum_of f xs + f x
sum_of-snoc f x [] = omega arith
sum_of-snoc f x (y ∷ ys) = omega (arith, sum_of-snoc f x ys)

greatest_of-snoc :
    (f : GraphEdge → ℕ) (x : GraphEdge) (xs : List GraphEdge)
    → greatest_of f (xs ++ x ∷ []) ≡ max (greatest_of f xs) (f x)
greatest_of-snoc f x [] = omega arith
greatest_of-snoc f x (y ∷ ys) = omega (arith, greatest_of-snoc f x ys)

pub has-snoc :
    (k x : String) (xs : List String)
    → JsSet.has k (xs ++ x ∷ []) ≡ JsSet.has k xs || ite (string_discrete x k) true false
unfolding JsSet.has
has-snoc k x [] = ground arith
has-snoc k x (y ∷ ys) = ground (arith, has-snoc k x ys)

are_distinct-snoc :
    (x : String) (xs : List String)
    → JsSet.has x xs ≡ false
    → are_distinct xs ≡ true
    → are_distinct (xs ++ x ∷ []) ≡ true
unfolding are_distinct JsSet.has
are_distinct-snoc x [] h d = refl
are_distinct-snoc x (y ∷ ys) h d = ground (arith, has-snoc y x ys, are_distinct-snoc x ys)

module _ (graph : ConnectivityGraph) (source : String) where
  pub start_candidate-IsTold : IsTold graph source [] (start_candidate source)
  unfolding are_distinct JsSet.has
  start_candidate-IsTold = record {
    walk = here;
    hops = refl;
    routes = refl;
    nodes = refl;
    simple = refl;
    distance = refl;
    packets = refl;
    strongest = refl;
    heard = refl;
    labels = refl;
    hashes = refl;
  }

  -- A new node at the end of a told walk.
  pub next_candidate-IsTold :
      (es : List GraphEdge) (c : PathCandidate) (e : GraphEdge)
      → IsTold graph source es c
      → Memᴰ e (edges_of graph c.node_id)
      → JsSet.has e.to_node_id c.node_ids ≡ false
      → IsTold graph source (es ++ e ∷ []) (next_candidate graph c e)
  unfolding next_candidate
  next_candidate-IsTold es c e t m h = record {
    walk = along t.walk m;
    hops = omega (arith, t.hops, length-append es (e ∷ []));
    routes = rw t.routes (sym (map-snoc (λ (x : GraphEdge). x.route.id) e es));
    nodes = rw t.nodes (ap (◌∷◌ source) (sym (map-snoc (λ (x : GraphEdge). x.to_node_id) e es)));
    simple = are_distinct-snoc e.to_node_id c.node_ids h t.simple;
    distance = omega (arith, t.distance, sum_of-snoc (λ x. x.route.distance_km) e es);
    packets = omega (arith, t.packets, sum_of-snoc (λ x. x.route.packet_count) e es);
    strongest = omega (arith, t.strongest, greatest_of-snoc (λ x. x.route.packet_count) e es);
    heard = omega (arith, t.heard, greatest_of-snoc (λ x. x.route.last_heard) e es);
    labels = rw t.labels (sym (map-snoc end_label e es));
    hashes = rw t.hashes (
        sym (map-snoc (λ (x : GraphEdge). get x.to_node_id graph.path_hash3_by_node_id ⁇ "") e es));
  }
