-- ===== src/Connectivity/Paths/Loop.antt =====
-- One edge of the inner loop of `reachablePaths` (web/src/connectivity.ts): what it may do to the search.
use Prim.Native.Nat.{Ordering}
use mathlib.Core.List.{Memᴰ}
use mc_carto_live.Prelude.{
  ◌+◌, ◌≤◌, String, Bool, true, false, ◌≡◌, ◌≢◌, refl, sym, Bool-cases, inl, inr, subst, Option,
  none, some, List, [], ◌∷◌, ◌++◌, All, All-append, arith,
}
use mc_carto_live.Prelude.JsMap.{get, get-set}
use mc_carto_live.Prelude.JsSet
use mc_carto_live.Prelude.Sort.{insert, sort, sort-All}
use mc_carto_live.Connectivity.{GraphEdge, ConnectivityGraph}
use mc_carto_live.Connectivity.Paths.{
  PathCandidate, Search, next_candidate, compare_path_candidates, path_not_after, improve,
  is_better, consider,
}
use mc_carto_live.Connectivity.Compare.{is_before}

module _ {A : Type 0} where
  pub Memᴰ-append_left : (y : A) (xs ys : List A) → Memᴰ y xs → Memᴰ y (xs ++ ys)
  Memᴰ-append_left y [] ys h = elim h [ ]
  Memᴰ-append_left y (x ∷ xs) ys (Memᴰ.head p) = Memᴰ.head p
  Memᴰ-append_left y (x ∷ xs) ys (Memᴰ.tail t) = Memᴰ.tail (Memᴰ-append_left y xs ys t)

  pub Memᴰ-append_right : (y : A) (xs ys : List A) → Memᴰ y ys → Memᴰ y (xs ++ ys)
  Memᴰ-append_right y [] ys h = h
  Memᴰ-append_right y (x ∷ xs) ys h = Memᴰ.tail (Memᴰ-append_right y xs ys h)

module _ {A : Type 0} (le : A → A → Bool) where
  Memᴰ-insert_self : (x : A) (xs : List A) → Memᴰ x (insert le x xs)
  unfolding insert
  Memᴰ-insert_self x [] = Memᴰ.head refl
  Memᴰ-insert_self x (y ∷ ys) = elim (Bool-cases (le x y)) [
    | inl e ↦ rw e (Memᴰ.head refl)
    | inr e ↦ rw e (Memᴰ.tail (Memᴰ-insert_self x ys))
  ]

  Memᴰ-insert : (x y : A) (xs : List A) → Memᴰ y xs → Memᴰ y (insert le x xs)
  unfolding insert
  Memᴰ-insert x y [] h = elim h [ ]
  Memᴰ-insert x y (z ∷ zs) (Memᴰ.head p) = elim (Bool-cases (le x z)) [
    | inl e ↦ rw e (Memᴰ.tail (Memᴰ.head p))
    | inr e ↦ rw e (Memᴰ.head p)
  ]
  Memᴰ-insert x y (z ∷ zs) (Memᴰ.tail t) = elim (Bool-cases (le x z)) [
    | inl e ↦ rw e (Memᴰ.tail (Memᴰ.tail t))
    | inr e ↦ rw e (Memᴰ.tail (Memᴰ-insert x y zs t))
  ]

  pub Memᴰ-sort : (y : A) (xs : List A) → Memᴰ y xs → Memᴰ y (sort le xs)
  unfolding sort
  Memᴰ-sort y [] h = elim h [ ]
  Memᴰ-sort y (x ∷ xs) (Memᴰ.head p) =
      subst (λ z. Memᴰ z (insert le x (sort le xs))) (sym p) (Memᴰ-insert_self x (sort le xs))
  Memᴰ-sort y (x ∷ xs) (Memᴰ.tail t) = Memᴰ-insert x y (sort le xs) (Memᴰ-sort y xs t)

module _ (locale_compare : String → String → Ordering) where
  better_hops :
      (next d : PathCandidate)
      → is_before (compare_path_candidates locale_compare next d) ≡ true
      → next.hop_count ≤ d.hop_count
  unfolding compare_path_candidates
  better_hops next d h = ground arith

  worse_hops :
      (next d : PathCandidate)
      → is_before (compare_path_candidates locale_compare next d) ≡ false
      → d.hop_count ≤ next.hop_count
  unfolding compare_path_candidates
  worse_hops next d h = ground arith

  -- A candidate that is better than what is known has no more hops.
  better_than :
      (next : PathCandidate) (known : Option PathCandidate)
      → is_better locale_compare next known ≡ true
      → (d : PathCandidate) → known ≡ some d
      → next.hop_count ≤ d.hop_count
  better_than next none h d e = cc
  better_than next (some c) h d e = subst (λ o. Hops o) e (better_hops next c h)
    where
      Hops : Option PathCandidate → Type 0
      Hops none = Unit
      Hops (some o) = next.hop_count ≤ o.hop_count

  -- A candidate that is no better meets one that has no more hops.
  worse_than :
      (next : PathCandidate) (known : Option PathCandidate)
      → is_better locale_compare next known ≡ false
      → (d : PathCandidate) × (known ≡ some d) × d.hop_count ≤ next.hop_count
  worse_than next none h = cc
  worse_than next (some c) h = (c, refl, worse_hops next c h)

  -- What one edge may do: nothing for a node on the path, nothing for a node that is known by no more hops,
  -- and otherwise the new candidate is put in both places.
  pub consider_cases :
      (graph : ConnectivityGraph) (current : PathCandidate) (edge : GraphEdge) (s : Search)
      (P : Search → Type 0)
      → (JsSet.has edge.to_node_id current.node_ids ≡ true → P s)
      → ((d : PathCandidate)
          → get edge.to_node_id s.best ≡ some d
          → d.hop_count ≤ current.hop_count + 1
          → P s)
      → (JsSet.has edge.to_node_id current.node_ids ≡ false
          → ((d : PathCandidate)
              → get edge.to_node_id s.best ≡ some d
              → current.hop_count + 1 ≤ d.hop_count)
          → P (improve locale_compare (next_candidate graph current edge) s))
      → P (consider locale_compare graph current edge s)
  unfolding consider next_candidate
  consider_cases graph current edge s P seen kept better =
      elim (Bool-cases (JsSet.has edge.to_node_id current.node_ids)) [
        | inl h ↦ rw h (seen h)
        | inr h ↦
            rw h (elim (Bool-cases (is_better locale_compare next (get edge.to_node_id s.best))) [
              | inl b ↦ rw b (better h (better_than next (get edge.to_node_id s.best) b))
              | inr b ↦
                  let w = worse_than next (get edge.to_node_id s.best) b in rw b (kept w.0 w.1 w.2)
            ])
      ]
    where
      next : PathCandidate
      next = next_candidate graph current edge

  -- What the map holds after a better candidate is put in: that one at its node, the rest elsewhere.
  pub get-improve_same :
      (v : String) (next : PathCandidate) (s : Search)
      → next.node_id ≡ v
      → get v (improve locale_compare next s).best ≡ some next
  unfolding improve
  get-improve_same v next s p = ground (arith, get-set next.node_id v next s.best)

  pub get-improve_other :
      (v : String) (next : PathCandidate) (s : Search)
      → next.node_id ≢ v
      → get v (improve locale_compare next s).best ≡ get v s.best
  unfolding improve
  get-improve_other v next s n = ground (arith, get-set next.node_id v next s.best)

  -- The new candidate is in the queue, and so is each one that was.
  pub Memᴰ-improve_self :
      (next : PathCandidate) (s : Search) → Memᴰ next (improve locale_compare next s).queue
  unfolding improve
  Memᴰ-improve_self next s =
      Memᴰ-sort (path_not_after locale_compare) next (s.queue ++ next ∷ [])
        (Memᴰ-append_right next s.queue (next ∷ []) (Memᴰ.head refl))

  pub Memᴰ-improve :
      (c next : PathCandidate) (s : Search)
      → Memᴰ c s.queue
      → Memᴰ c (improve locale_compare next s).queue
  unfolding improve
  Memᴰ-improve c next s h =
      Memᴰ-sort (path_not_after locale_compare) c (s.queue ++ next ∷ [])
        (Memᴰ-append_left c s.queue (next ∷ []) h)

  pub improve-All :
      (P : PathCandidate → Type 0) (next : PathCandidate) (s : Search)
      → P next
      → All P s.queue
      → All P (improve locale_compare next s).queue
  unfolding improve
  improve-All P next s p h =
      sort-All (path_not_after locale_compare) P (s.queue ++ next ∷ [])
        (All-append P s.queue (next ∷ []) h (p, tt))
