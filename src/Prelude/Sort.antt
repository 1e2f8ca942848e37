-- ===== src/Prelude/Sort.antt =====
-- `Array.prototype.sort`: stable, by a comparison. `le a b` is `compare(a, b) <= 0`.
use Prim.Native.Nat.{suc}
use mathlib.Core.Path.{◌≡◌, refl}
use mathlib.Core.Bool.{Bool, true, false}
use mathlib.Core.List.{List, [], ◌∷◌, Perm}
use mathlib.Core.List.Perm
use native.Mathlib.Omega.{arith}
use mc_carto_live.Prelude.Tests.{if◌then◌else◌}
use mc_carto_live.Prelude.Lists.{length, All}

module _ {ℓ} {A : Type ℓ} (le : A → A → Bool) where
  -- `x` goes before the first entry that it does not come after.
  unfoldable pub insert : A → List A → List A
  insert x [] = x ∷ []
  insert x (y ∷ ys) = if le x y then x ∷ y ∷ ys else y ∷ insert x ys

  unfoldable pub sort : List A → List A
  unfolding insert
  sort [] = []
  sort (x ∷ xs) = insert x (sort xs)

  pub length-insert : (x : A) (xs : List A) → length (insert x xs) ≡ suc (length xs)
  unfolding insert
  length-insert x [] = refl
  length-insert x (y ∷ ys) = ground (arith, length-insert x ys)

  pub length-sort : (xs : List A) → length (sort xs) ≡ length xs
  unfolding sort
  length-sort [] = refl
  length-sort (x ∷ xs) = omega (arith, length-insert x (sort xs), length-sort xs)

  insert-perm : (x : A) (xs : List A) → Perm (insert x xs) (x ∷ xs)
  unfolding insert
  insert-perm x [] = Perm.refl (x ∷ [])
  insert-perm x (y ∷ ys) = ground (
    arith,
    Perm.refl (x ∷ y ∷ ys),
    Perm.trans (Perm.cons y (insert-perm x ys)) (Perm.swap x y ys),
  )

  pub sort-perm : (xs : List A) → Perm (sort xs) xs
  unfolding sort
  sort-perm [] = Perm.refl []
  sort-perm (x ∷ xs) = Perm.trans (insert-perm x (sort xs)) (Perm.cons x (sort-perm xs))

  -- Each entry is `le` the next one.
  abbrev pub IsSorted : List A → Type 0
  IsSorted [] = Unit
  IsSorted (x ∷ []) = Unit
  IsSorted (x ∷ y ∷ ys) = (le x y ≡ true) × IsSorted (y ∷ ys)

  module _ {κ} (P : A → Type κ) where
    insert-All : (x : A) (xs : List A) → P x → All P xs → All P (insert x xs)
    unfolding insert
    insert-All x [] p h = (p, tt)
    insert-All x (y ∷ ys) p h = ground (arith, insert-All x ys p h.1)

    pub sort-All : (xs : List A) → All P xs → All P (sort xs)
    unfolding sort
    sort-All [] h = tt
    sort-All (x ∷ xs) h = insert-All x (sort xs) h.0 (sort-All xs h.1)

    -- On entries of a kind for which the comparison is total, the result is sorted.
    module _ (total : (a b : A) → P a → P b → le a b ≡ false → le b a ≡ true) where
      insert-IsSorted :
          (x : A) (xs : List A) → P x → All P xs → IsSorted xs → IsSorted (insert x xs)
      unfolding insert
      insert-IsSorted x [] p h s = tt
      insert-IsSorted x (y ∷ []) p h s = ground (arith, total x y p h.0)
      insert-IsSorted x (y ∷ z ∷ zs) p h s =
          ground (arith, total x y p h.0, total x z p h.1.0, insert-IsSorted x (z ∷ zs) p h.1 s.1)

      pub sort-IsSorted : (xs : List A) → All P xs → IsSorted (sort xs)
      unfolding sort
      sort-IsSorted [] h = tt
      sort-IsSorted (x ∷ xs) h =
          insert-IsSorted x (sort xs) h.0 (sort-All xs h.1) (sort-IsSorted xs h.1)
