-- ===== src/State/Routes/Position.antt =====
-- What the route index of web/src/state.ts stands for: each id with its position in the list.
use mc_carto_live.Prelude.{
  ℕ, zero, suc, ◌≡◌, refl, subst, ◌≢◌, ite, Option, none, some, List, [], ◌∷◌, ◌++◌, map, arith,
  String, string_discrete, length, get_elem?, set,
}
use mathlib.Core.Option
use mc_carto_live.Prelude.JsMap.{JsMap}
use mc_carto_live.Prelude.JsMap
use mc_carto_live.Types.{PublicRoute}
use mc_carto_live.State.Buckets.{ids}

-- The first position of a text in a list.
unfoldable pub position : String → List String → Option ℕ
position k [] = none
position k (x ∷ xs) = ite (string_discrete x k) (some 0) (Option.map suc (position k xs))

-- No text stands twice in the list.
abbrev pub Distinct : List String → Type 0
Distinct [] = Unit
Distinct (x ∷ xs) = (position x xs ≡ none) × Distinct xs

-- The index gives each id its position, and nothing for another text.
abbrev pub IsIndex : List PublicRoute → JsMap ℕ → Type 0
IsIndex routes index = (k : String) → JsMap.get k index ≡ position k (ids routes)

pub position_route :
    (k : String) (i : ℕ) (rs : List PublicRoute)
    → position k (ids rs) ≡ some i
    → (r : PublicRoute) × (get_elem? rs i ≡ some r) × (r.id ≡ k)
unfolding position
position_route k i [] h = absurd (ground arith)
position_route k zero (r ∷ rs) h = (r, refl, ground arith)
position_route k (suc i) (r ∷ rs) h = position_route k i rs (ground arith)

pub position-append :
    (k x : String) (xs : List String)
    → position k (xs ++ x ∷ []) ≡ (elim (position k xs) [
      | none ↦ ite (string_discrete x k) (some (length xs)) none
      | some i ↦ some i
    ])
unfolding position
position-append k x [] = refl
position-append k x (y ∷ xs) = ground (arith, position-append k x xs)

pub Distinct-append :
    (x : String) (xs : List String) → position x xs ≡ none → Distinct xs → Distinct (xs ++ x ∷ [])
unfolding position
Distinct-append x [] h d = (refl, tt)
Distinct-append x (y ∷ xs) h d =
    (ground (arith, position-append y x xs), Distinct-append x xs (ground arith) d.1)

pub position-none :
    (k x : String) (xs : List String)
    → position k (x ∷ xs) ≡ none
    → (x ≢ k) × (position k xs ≡ none)
unfolding position
position-none k x xs h = ground arith

position-suc :
    (k x : String) (i : ℕ) (xs : List String)
    → position k (x ∷ xs) ≡ some (suc i)
    → (x ≢ k) × (position k xs ≡ some i)
unfolding position
position-suc k x i xs h = ground arith

position_zero : (k x : String) (xs : List String) → position k (x ∷ xs) ≡ some 0 → x ≡ k
unfolding position
position_zero k x xs h = ground arith

-- Where no route has the id, a function that differs on that id alone changes nothing.
pub map-absent {ℓ} :
    {A : Type ℓ} (k : String) (f g : PublicRoute → A) (rs : List PublicRoute)
    → position k (ids rs) ≡ none
    → ((q : PublicRoute) → q.id ≢ k → g q ≡ f q)
    → map g rs ≡ map f rs
map-absent k f g [] p same = refl
map-absent k f g (q ∷ rs) p same =
    let (ne, rest) = position-none k q.id (ids rs) p in
    cc (same q ne, map-absent k f g rs rest same)

-- A change of the one route with an id, made in place, is a change under `map`.
pub set-map :
    (k : String) (i : ℕ) (r : PublicRoute) (f g : PublicRoute → PublicRoute) (rs : List PublicRoute)
    → position k (ids rs) ≡ some i
    → get_elem? rs i ≡ some r
    → Distinct (ids rs)
    → ((q : PublicRoute) → q.id ≢ k → g q ≡ f q)
    → set (map f rs) i (g r) ≡ map g rs
set-map k i r f g [] p e d same = absurd (ground arith)
set-map k zero r f g (q ∷ rs) p e d same =
    let here = position_zero k q.id (ids rs) p in
    let rest = map-absent k f g rs (subst (λ x. position x (ids rs) ≡ none) here d.0) same in
    cc (e, rest)
set-map k (suc i) r f g (q ∷ rs) p e d same =
    let (ne, rest) = position-suc k q.id i (ids rs) p in
    cc (same q ne, set-map k i r f g rs rest e d.1 same)
