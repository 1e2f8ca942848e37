-- ===== src/Connectivity/Phonebook/Groups.antt =====
-- The phonebook of web/src/connectivity.ts: what the groups hold, and in which order.
use Prim.Native.Nat.{Ordering}
use mathlib.Core.List.{Perm, append_assoc}
use mathlib.Core.List.Perm
use mc_carto_live.Prelude.{
  ℕ, ◌<◌, String, ◌==◌, ◌≡◌, ◌≢◌, List, [], ◌∷◌, ◌++◌, map, All, Bool-cases, inl, inr, arith,
}
use mc_carto_live.Prelude.Sort.{insert, sort, sort-perm, sort-All}
use mc_carto_live.Connectivity.Paths.{ReachableNode}
use mc_carto_live.Connectivity.Phonebook.{
  PhonebookSortMode, PhonebookGroup, add_to_group, hops_not_after, item_not_after, sort_groups,
}

-- All items, group after group.
abbrev pub all_items : List PhonebookGroup → List ReachableNode
all_items [] = []
all_items (group ∷ groups) = group.nodes ++ all_items groups

-- Each group has more hops than the one before.
abbrev pub IsRising : List PhonebookGroup → Type 0
IsRising [] = Unit
IsRising (g ∷ []) = Unit
IsRising (g ∷ h ∷ groups) = (g.hop_count < h.hop_count) × IsRising (h ∷ groups)

-- The items of the group have the hops of the group.
abbrev pub IsUniform : PhonebookGroup → Type 0
IsUniform group = All (λ (item : ReachableNode). item.hop_count ≡ group.hop_count) group.nodes

-- No group has so many hops; no two groups have as many.
abbrev pub LacksHops : ℕ → List PhonebookGroup → Type 0
LacksHops hops = All (λ (group : PhonebookGroup). group.hop_count ≢ hops)

abbrev pub HasDistinctHops : List PhonebookGroup → Type 0
HasDistinctHops [] = Unit
HasDistinctHops (group ∷ groups) = LacksHops group.hop_count groups × HasDistinctHops groups

pub middle-perm : {A : Type 0} → {a : A} (xs ys : List A) → Perm (xs ++ (a ∷ ys)) (a ∷ (xs ++ ys))
middle-perm {a} [] ys = Perm.refl (a ∷ ys)
middle-perm {a} (x ∷ xs) ys =
    Perm.trans (Perm.cons x (middle-perm xs ys)) (Perm.swap a x (xs ++ ys))

-- Two runs of a list exchanged.
swap_runs : {A : Type 0} → (xs ys zs : List A) → Perm (xs ++ (ys ++ zs)) (ys ++ (xs ++ zs))
swap_runs [] ys zs = Perm.refl (ys ++ zs)
swap_runs (x ∷ xs) ys zs =
    Perm.trans (Perm.cons x (swap_runs xs ys zs)) (Perm.symm (middle-perm ys (xs ++ zs)))

pub add_to_group-perm :
    (item : ReachableNode) (groups : List PhonebookGroup)
    → Perm (all_items (add_to_group item groups)) (item ∷ all_items groups)
unfolding add_to_group
add_to_group-perm item [] = Perm.refl (item ∷ [])
add_to_group-perm item (g ∷ gs) = elim (Bool-cases (g.hop_count == item.hop_count)) [
  | inl e ↦
      rw (e, append_assoc g.nodes (item ∷ []) (all_items gs)) (middle-perm g.nodes (all_items gs))
  | inr e ↦ rw e (
      Perm.trans (Perm.append_left g.nodes (add_to_group-perm item gs))
        (middle-perm g.nodes (all_items gs)))
]

pub add_to_group-All :
    (P : PhonebookGroup → Type 0) (item : ReachableNode) (groups : List PhonebookGroup)
    → P (record { hop_count = item.hop_count; nodes = item ∷ [] })
    → ((g : PhonebookGroup)
        → g.hop_count ≡ item.hop_count
        → P g
        → P (record { hop_count = g.hop_count; nodes = g.nodes ++ item ∷ [] }))
    → All P groups
    → All P (add_to_group item groups)
unfolding add_to_group
add_to_group-All P item [] new old h = (new, tt)
add_to_group-All P item (g ∷ gs) new old h = elim (Bool-cases (g.hop_count == item.hop_count)) [
  | inl e ↦ rw e (old g (ground (arith, e)) h.0, h.1)
  | inr e ↦ rw e (h.0, add_to_group-All P item gs new old h.1)
]

pub add_to_group-HasDistinctHops :
    (item : ReachableNode) (groups : List PhonebookGroup)
    → HasDistinctHops groups
    → HasDistinctHops (add_to_group item groups)
unfolding add_to_group
add_to_group-HasDistinctHops item [] h = (tt, tt)
add_to_group-HasDistinctHops item (g ∷ gs) h = elim (Bool-cases (g.hop_count == item.hop_count)) [
  | inl e ↦ rw e h
  | inr e ↦ rw e (
    add_to_group-All (λ x. x.hop_count ≢ g.hop_count) item gs (λ p. ground (arith, e, p))
        (λ x p q. q) h.0,
    add_to_group-HasDistinctHops item gs h.1,
  )
]

-- Sorting by hops.
insert-perm_items :
    (g : PhonebookGroup) (gs : List PhonebookGroup)
    → Perm (all_items (insert hops_not_after g gs)) (g.nodes ++ all_items gs)
unfolding insert
insert-perm_items g [] = Perm.refl (g.nodes ++ [])
insert-perm_items g (x ∷ xs) = elim (Bool-cases (hops_not_after g x)) [
  | inl e ↦ rw e (Perm.refl (g.nodes ++ (x.nodes ++ all_items xs)))
  | inr e ↦ rw e (
      Perm.trans (Perm.append_left x.nodes (insert-perm_items g xs))
        (swap_runs x.nodes g.nodes (all_items xs)))
]

sort-perm_items :
    (gs : List PhonebookGroup) → Perm (all_items (sort hops_not_after gs)) (all_items gs)
unfolding sort
sort-perm_items [] = Perm.refl []
sort-perm_items (g ∷ gs) =
    Perm.trans (insert-perm_items g (sort hops_not_after gs))
      (Perm.append_left g.nodes (sort-perm_items gs))

insert-IsRising :
    (g : PhonebookGroup) (gs : List PhonebookGroup)
    → LacksHops g.hop_count gs
    → IsRising gs
    → IsRising (insert hops_not_after g gs)
unfolding insert
insert-IsRising g [] l h = tt
insert-IsRising g (x ∷ []) l h = ground arith
insert-IsRising g (x ∷ y ∷ ys) l h = ground (arith, insert-IsRising g (y ∷ ys) l.1 h.1)

sort-IsRising : (gs : List PhonebookGroup) → HasDistinctHops gs → IsRising (sort hops_not_after gs)
unfolding sort
sort-IsRising [] h = tt
sort-IsRising (g ∷ gs) h =
    insert-IsRising g (sort hops_not_after gs)
      (sort-All hops_not_after (λ x. x.hop_count ≢ g.hop_count) gs h.0) (sort-IsRising gs h.1)

-- What sorting the groups and their items keeps.
module _ (locale_compare : String → String → Ordering) (mode : PhonebookSortMode) where
  sort_items : PhonebookGroup → PhonebookGroup
  sort_items group = record group { nodes = sort (item_not_after locale_compare mode) group.nodes }

  map-perm_items : (gs : List PhonebookGroup) → Perm (all_items (map sort_items gs)) (all_items gs)
  unfolding sort_items
  map-perm_items [] = Perm.refl []
  map-perm_items (g ∷ gs) =
      Perm.append (sort-perm (item_not_after locale_compare mode) g.nodes) (map-perm_items gs)

  map-IsRising : (gs : List PhonebookGroup) → IsRising gs → IsRising (map sort_items gs)
  unfolding sort_items
  map-IsRising [] h = tt
  map-IsRising (g ∷ []) h = tt
  map-IsRising (g ∷ x ∷ gs) h = (h.0, map-IsRising (x ∷ gs) h.1)

  map-IsUniform : (gs : List PhonebookGroup) → All IsUniform gs → All IsUniform (map sort_items gs)
  unfolding sort_items
  map-IsUniform [] h = tt
  map-IsUniform (g ∷ gs) h = (
    sort-All (item_not_after locale_compare mode)
        (λ (item : ReachableNode). item.hop_count ≡ g.hop_count) g.nodes h.0,
    map-IsUniform gs h.1,
  )

  pub sort_groups-perm :
      (gs : List PhonebookGroup)
      → Perm (all_items (sort_groups locale_compare mode gs)) (all_items gs)
  unfolding sort_groups sort_items
  sort_groups-perm gs = Perm.trans (map-perm_items (sort hops_not_after gs)) (sort-perm_items gs)

  pub sort_groups-IsRising :
      (gs : List PhonebookGroup)
      → HasDistinctHops gs
      → IsRising (sort_groups locale_compare mode gs)
  unfolding sort_groups sort_items
  sort_groups-IsRising gs h = map-IsRising (sort hops_not_after gs) (sort-IsRising gs h)

  pub sort_groups-IsUniform :
      (gs : List PhonebookGroup)
      → All IsUniform gs
      → All IsUniform (sort_groups locale_compare mode gs)
  unfolding sort_groups sort_items
  sort_groups-IsUniform gs h =
      map-IsUniform (sort hops_not_after gs) (sort-All hops_not_after IsUniform gs h)
