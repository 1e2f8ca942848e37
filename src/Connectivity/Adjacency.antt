-- ===== src/Connectivity/Adjacency.antt =====
-- `appendEdge` and the sorting of the edges in `buildConnectivityGraph` (web/src/connectivity.ts): what they
-- do to the edges at a node.
use mathlib.Core.List.{Memᴰ}
use mc_carto_live.Prelude.{
  String, string_discrete, ite, if_pos, if_neg, Bool, ◌≡◌, ◌⊎◌, inl, inr, refl, sym, subst,
  Bool-cases, List, [], ◌∷◌, ◌++◌, ◌⁇◌, arith,
}
use mc_carto_live.Prelude.JsMap.{JsMap, get, get-set}
use mc_carto_live.Prelude.Sort.{insert, sort}
use mc_carto_live.Connectivity.{GraphEdge, append_edge, map_values}
use mc_carto_live.Connectivity.Paths.Loop.{Memᴰ-append_left, Memᴰ-append_right}

abbrev pub edges_at : String → JsMap (List GraphEdge) → List GraphEdge
edges_at id m = get id m ⁇ []

module _ {A : Type 0} (le : A → A → Bool) where
  Memᴰ_of_insert : (x y : A) (xs : List A) → Memᴰ y (insert le x xs) → (y ≡ x) ⊎ Memᴰ y xs
  unfolding insert
  Memᴰ_of_insert x y [] (Memᴰ.head p) = inl p
  Memᴰ_of_insert x y [] (Memᴰ.tail h) = inr h
  Memᴰ_of_insert x y (z ∷ zs) h = elim (Bool-cases (le x z)) [
    | inl e ↦ first (rw e at h)
    | inr e ↦ later (Memᴰ_of_insert x y zs) (rw e at h)
  ]
    where
      first : Memᴰ y (x ∷ z ∷ zs) → (y ≡ x) ⊎ Memᴰ y (z ∷ zs)
      first (Memᴰ.head p) = inl p
      first (Memᴰ.tail m) = inr m

      beyond : (y ≡ x) ⊎ Memᴰ y zs → (y ≡ x) ⊎ Memᴰ y (z ∷ zs)
      beyond (inl p) = inl p
      beyond (inr m) = inr (Memᴰ.tail m)

      later :
          (Memᴰ y (insert le x zs) → (y ≡ x) ⊎ Memᴰ y zs)
          → Memᴰ y (z ∷ insert le x zs)
          → (y ≡ x) ⊎ Memᴰ y (z ∷ zs)
      later ih (Memᴰ.head p) = inr (Memᴰ.head p)
      later ih (Memᴰ.tail m) = beyond (ih m)

  pub Memᴰ_of_sort : (y : A) (xs : List A) → Memᴰ y (sort le xs) → Memᴰ y xs
  unfolding sort
  Memᴰ_of_sort y [] h = h
  Memᴰ_of_sort y (x ∷ xs) h = elim (Memᴰ_of_insert x y (sort le xs) h) [
    | inl p ↦ Memᴰ.head p
    | inr m ↦ Memᴰ.tail (Memᴰ_of_sort y xs m)
  ]

pub edges_at-map_values :
    (f : List GraphEdge → List GraphEdge) (id : String) (m : JsMap (List GraphEdge))
    → f [] ≡ []
    → edges_at id (map_values f m) ≡ f (edges_at id m)
unfolding get
edges_at-map_values f id [] e = sym e
edges_at-map_values f id ((k, es) ∷ m) e = ground (arith, edges_at-map_values f id m e)

Memᴰ_of_snoc : {A : Type 0} → (y x : A) (xs : List A) → Memᴰ y (xs ++ x ∷ []) → Memᴰ y xs ⊎ (y ≡ x)
Memᴰ_of_snoc y x [] (Memᴰ.head p) = inr p
Memᴰ_of_snoc y x [] (Memᴰ.tail h) = inl h
Memᴰ_of_snoc y x (z ∷ zs) (Memᴰ.head p) = inl (Memᴰ.head p)
Memᴰ_of_snoc y x (z ∷ zs) (Memᴰ.tail h) = elim (Memᴰ_of_snoc y x zs h) [
  | inl m ↦ inl (Memᴰ.tail m)
  | inr p ↦ inr p
]

-- One edge more at one node.
edges_at-append_edge :
    (k id : String) (x : GraphEdge) (m : JsMap (List GraphEdge))
    → edges_at id (append_edge k x m)
      ≡ ite (string_discrete k id) (edges_at k m ++ x ∷ []) (edges_at id m)
unfolding append_edge
edges_at-append_edge k id x m = ground (arith, get-set k id ((get k m ⁇ []) ++ x ∷ []) m)

pub append_edge_keeps :
    (k id : String) (x e : GraphEdge) (m : JsMap (List GraphEdge))
    → Memᴰ e (edges_at id m)
    → Memᴰ e (edges_at id (append_edge k x m))
append_edge_keeps k id x e m h = elim (string_discrete k id) [
  | yes p ↦ rw (edges_at-append_edge k id x m) (
      rw (if_pos _ p)
        (Memᴰ-append_left e (edges_at k m) (x ∷ []) (subst (λ v. Memᴰ e (edges_at v m)) (sym p) h)))
  | no p ↦ rw (edges_at-append_edge k id x m) (rw (if_neg _ p) h)
]

pub append_edge_adds :
    (id : String) (x : GraphEdge) (m : JsMap (List GraphEdge))
    → Memᴰ x (edges_at id (append_edge id x m))
append_edge_adds id x m = rw (edges_at-append_edge id id x m) (
    rw (if_pos (string_discrete id id) refl)
      (Memᴰ-append_right x (edges_at id m) (x ∷ []) (Memᴰ.head refl)))

pub edge_of_append_edge :
    (k id : String) (x e : GraphEdge) (m : JsMap (List GraphEdge))
    → Memᴰ e (edges_at id (append_edge k x m))
    → Memᴰ e (edges_at id m) ⊎ ((k ≡ id) × (e ≡ x))
edge_of_append_edge k id x e m h = elim (string_discrete k id) [
  | yes p ↦ split p (
      Memᴰ_of_snoc e x (edges_at k m)
        (rw (if_pos _ p) at (subst (Memᴰ e) (edges_at-append_edge k id x m) h)))
  | no p ↦ inl (rw (if_neg _ p) at (subst (Memᴰ e) (edges_at-append_edge k id x m) h))
]
  where
    split :
        (k ≡ id) → Memᴰ e (edges_at k m) ⊎ (e ≡ x) → Memᴰ e (edges_at id m) ⊎ ((k ≡ id) × (e ≡ x))
    split p (inl t) = inl (subst (λ v. Memᴰ e (edges_at v m)) p t)
    split p (inr q) = inr (p, q)
