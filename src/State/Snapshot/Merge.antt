-- ===== src/State/Snapshot/Merge.antt =====
-- What `mergeCurrentEntities` of web/src/state.ts keeps: the current items, in place, and one item
-- for each id.
use mathlib.Core.Bool.{true, false}
use mc_carto_live.Prelude.{
  ◌≡◌, refl, ap, none, List, [], ◌∷◌, ◌++◌, map, arith, String, string_discrete, Bool-cases, if_neg,
  inl, inr,
}
use mc_carto_live.Prelude.JsSet
use mc_carto_live.State.Routes.Position.{position, Distinct}
use mc_carto_live.State.Snapshot.{merge_loop}

module _ {ℓ} {A : Type ℓ} (id : A → String) where
  -- No id that was seen before comes out.
  pub merge_loop-fresh :
      (k : String) (seen : List String) (items : List A)
      → JsSet.has k seen ≡ true
      → position k (map id (merge_loop id seen items)) ≡ none
  unfolding merge_loop position
  merge_loop-fresh k seen [] h = refl
  merge_loop-fresh k seen (x ∷ xs) h = elim (Bool-cases (JsSet.has (id x) seen)) [
    | inl old ↦ rw old (merge_loop-fresh k seen xs h)
    | inr new ↦
        let known : JsSet.has k (JsSet.add (id x) seen) ≡ true =
          ground (arith, JsSet.has-add (id x) k seen, h) in
        let rest = merge_loop-fresh k (JsSet.add (id x) seen) xs known in
        elim (string_discrete (id x) k) [
          | yes e ↦ absurd (ground (arith, new, h, ap (λ j. JsSet.has j seen) e))
          | no ne ↦ rw (new, if_neg (string_discrete (id x) k) ne, rest) refl
        ]
  ]

  pub merge_loop-Distinct :
      (seen : List String) (items : List A) → Distinct (map id (merge_loop id seen items))
  unfolding merge_loop
  merge_loop-Distinct seen [] = tt
  merge_loop-Distinct seen (x ∷ xs) = elim (Bool-cases (JsSet.has (id x) seen)) [
    | inl old ↦ rw old (merge_loop-Distinct seen xs)
    | inr new ↦ rw new (
      merge_loop-fresh (id x) (JsSet.add (id x) seen) xs
          (ground (arith, JsSet.has-add (id x) (id x) seen)),
      merge_loop-Distinct (JsSet.add (id x) seen) xs,
    )
  ]

  -- None of the ids was seen.
  abbrev pub Unseen : List String → List A → Type 0
  Unseen seen [] = Unit
  Unseen seen (x ∷ xs) = (JsSet.has (id x) seen ≡ false) × Unseen seen xs

  Unseen-add :
      (k : String) (seen : List String) (items : List A)
      → position k (map id items) ≡ none
      → Unseen seen items
      → Unseen (JsSet.add k seen) items
  unfolding position
  Unseen-add k seen [] p h = tt
  Unseen-add k seen (x ∷ xs) p h =
      (ground (arith, JsSet.has-add k (id x) seen, h.0), Unseen-add k seen xs (ground arith) h.1)

  -- Distinct items come out as they came in, before all that follows.
  pub merge_loop-prefix :
      (seen : List String) (items rest : List A)
      → Distinct (map id items)
      → Unseen seen items
      → (tail : List A) × (merge_loop id seen (items ++ rest) ≡ items ++ tail)
  unfolding merge_loop
  merge_loop-prefix seen [] rest d u = (merge_loop id seen rest, refl)
  merge_loop-prefix seen (x ∷ xs) rest d u =
      let (tail, e) =
        merge_loop-prefix (JsSet.add (id x) seen) xs rest d.1 (Unseen-add (id x) seen xs d.0 u.1) in
      (tail, rw u.0 (ap (λ ys. x ∷ ys) e))

  pub Unseen-nil : (items : List A) → Unseen [] items
  unfolding JsSet.has
  Unseen-nil [] = tt
  Unseen-nil (x ∷ xs) = (refl, Unseen-nil xs)
