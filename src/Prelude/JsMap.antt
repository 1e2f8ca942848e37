-- ===== src/Prelude/JsMap.antt =====
-- `Map<string, V>`: the entries in insertion order. `set` on a key that is there keeps its place.
use Prim.Native.Nat.{ℕ, ◌+◌, ◌≤◌}
use Prim.Native.String.{String}
use mathlib.Core.Path.{◌≡◌, refl}
use mathlib.Core.Logic.{◌≢◌, ite}
use mathlib.Core.Bool.{Bool}
use mathlib.Core.Option.{Option, none, some}
use mathlib.Core.List.{List, [], ◌∷◌, map}
use native.Mathlib.Omega.{arith}
use mc_carto_live.Prelude.Tests.{string_discrete, is_some}
use mc_carto_live.Prelude.Lists.{length}

abbrev pub JsMap {ℓ} : Type ℓ → Type ℓ
JsMap V = List (String × V)

module _ {ℓ} {V : Type ℓ} where
  unfoldable pub get : String → JsMap V → Option V
  get k [] = none
  get k ((j, v) ∷ m) = ite (string_discrete j k) (some v) (get k m)

  abbrev pub has : String → JsMap V → Bool
  has k m = is_some (get k m)

  unfoldable pub set : String → V → JsMap V → JsMap V
  set k v [] = (k, v) ∷ []
  set k v ((j, w) ∷ m) = ite (string_discrete j k) ((k, v) ∷ m) ((j, w) ∷ set k v m)

  unfoldable pub delete : String → JsMap V → JsMap V
  delete k [] = []
  delete k ((j, w) ∷ m) = ite (string_discrete j k) m ((j, w) ∷ delete k m)

  abbrev pub size : JsMap V → ℕ
  size m = length m

  abbrev pub keys : JsMap V → List String
  keys = map (λ e. e.0)

  pub get-set :
      (k j : String) (v : V) (m : JsMap V)
      → get j (set k v m) ≡ ite (string_discrete k j) (some v) (get j m)
  unfolding get set
  get-set k j v [] = refl
  get-set k j v ((i, w) ∷ m) = ground (arith, get-set k j v m)

  pub get-set_self : (k : String) (v : V) (m : JsMap V) → get k (set k v m) ≡ some v
  get-set_self k v m = ground (arith, get-set k k v m)

  pub get-delete_ne : (k j : String) (m : JsMap V) → k ≢ j → get j (delete k m) ≡ get j m
  unfolding get delete
  get-delete_ne k j [] h = refl
  get-delete_ne k j ((i, w) ∷ m) h = ground (arith, get-delete_ne k j m h)

  pub size-set-le : (k : String) (v : V) (m : JsMap V) → size (set k v m) ≤ size m + 1
  unfolding set
  size-set-le k v [] = omega arith
  size-set-le k v ((i, w) ∷ m) = ground (arith, size-set-le k v m)

  pub size-delete-le : (k : String) (m : JsMap V) → size (delete k m) ≤ size m
  unfolding delete
  size-delete-le k [] = omega arith
  size-delete-le k ((i, w) ∷ m) = ground (arith, size-delete-le k m)
