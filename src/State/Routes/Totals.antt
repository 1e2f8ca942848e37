-- ===== src/State/Routes/Totals.antt =====
-- The batch update counts every segment of the pulses into a route, once (web/src/state.ts).
use mc_carto_live.Prelude.{
  ℕ, ◌+◌, ◌≡◌, refl, sym, ap, subst, ◌≢◌, if_pos, if_neg, true, none, some, List, [], ◌∷◌, ◌++◌,
  map, arith, String, string_discrete, filter, not, is_some,
}
use mc_carto_live.Prelude.JsMap.{JsMap}
use mc_carto_live.Prelude.JsMap
use mc_carto_live.Types.{PublicRoute}
use mc_carto_live.State.Buckets.{ids}
use mc_carto_live.State.Routes.{Touched, updated_route, fresh_loop}
use mc_carto_live.State.Routes.Position.{position, position-none, Distinct}
use mc_carto_live.State.Routes.Known.{overlay, known_loop-overlay}
use mc_carto_live.State.Routes.Gather.{hits_of, hits_at, IsGathered}
use mc_carto_live.State.Routes.Fresh.{IsIndexed, new_routes, fresh_loop-next}
use mc_carto_live.State.Routes.Index.{known}

-- The packets of all routes.
unfoldable pub packet_total : List PublicRoute → ℕ
packet_total [] = 0
packet_total (r ∷ rs) = r.packet_count + packet_total rs

pub packet_total-append :
    (rs qs : List PublicRoute) → packet_total (rs ++ qs) ≡ packet_total rs + packet_total qs
unfolding packet_total
packet_total-append [] qs = omega arith
packet_total-append (r ∷ rs) qs = omega (arith, packet_total-append rs qs)

-- With the entry of one id taken out, the rest of the hits is left.
hits-delete :
    (k : String) (m : JsMap Touched)
    → hits_at (JsMap.get k m) + hits_of (JsMap.delete k m) ≡ hits_of m
unfolding JsMap.get JsMap.delete
hits-delete k [] = omega arith
hits-delete k ((j, u) ∷ m) = ground (arith, hits-delete k m)

-- The hits of the entries whose routes are in the list of ids, by route.
hits_in : List String → JsMap Touched → ℕ
hits_in [] m = 0
hits_in (x ∷ xs) m = hits_at (JsMap.get x m) + hits_in xs m

unknown_in : List String → JsMap Touched → JsMap Touched
unknown_in xs m = filter (λ (e : String × Touched). not (is_some (position e.0 xs))) m

hits_in-delete :
    (k : String) (xs : List String) (m : JsMap Touched)
    → position k xs ≡ none
    → hits_in xs (JsMap.delete k m) ≡ hits_in xs m
unfolding hits_in position
hits_in-delete k [] m h = refl
hits_in-delete k (x ∷ xs) m h = elim (string_discrete x k) [
  | yes e ↦ absurd (ground arith)
  | no n ↦ ground (arith, JsMap.get-delete_ne k x m, hits_in-delete k xs m)
]

position-cons_ne :
    (x j : String) (xs : List String)
    → x ≢ j
    → is_some (position j (x ∷ xs)) ≡ is_some (position j xs)
unfolding position
position-cons_ne x j xs ne = ground arith

position-cons_eq : (x j : String) (xs : List String) → x ≡ j → position j (x ∷ xs) ≡ some 0
unfolding position
position-cons_eq x j xs e = ground arith

unknown_in-absent :
    (x : String) (xs : List String) (m : JsMap Touched)
    → position x (JsMap.keys m) ≡ none
    → unknown_in (x ∷ xs) m ≡ unknown_in xs m
unfolding unknown_in
unknown_in-absent x xs [] h = refl
unknown_in-absent x xs ((j, u) ∷ m) h =
    let (ne, rest) = position-none x j (JsMap.keys m) h in
    let tail = unknown_in-absent x xs m rest in
    ground (arith, position-cons_ne x j xs (λ e. ne (sym e)), tail)

-- What is left after the ids `x ∷ xs` is what is left after `xs` of the map without `x`.
unknown_in-cons :
    (x : String) (xs : List String) (m : JsMap Touched)
    → Distinct (JsMap.keys m)
    → unknown_in (x ∷ xs) m ≡ unknown_in xs (JsMap.delete x m)
unfolding unknown_in JsMap.delete
unknown_in-cons x xs [] d = refl
unknown_in-cons x xs ((j, u) ∷ m) d = elim (string_discrete j x) [
  | yes e ↦
      rw (if_pos (string_discrete j x) e, position-cons_eq x j xs (sym e))
        (unknown_in-absent x xs m (subst (λ k. position k (JsMap.keys m) ≡ none) e d.0))
  | no n ↦
      rw (if_neg (string_discrete j x) n)
        (ground (arith, position-cons_ne x j xs (λ e. n (sym e)), unknown_in-cons x xs m d.1))
]

position-delete :
    (k j : String) (m : JsMap Touched)
    → position j (JsMap.keys m) ≡ none
    → position j (JsMap.keys (JsMap.delete k m)) ≡ none
unfolding JsMap.delete position
position-delete k j [] h = refl
position-delete k j ((i, u) ∷ m) h = ground (arith, position-delete k j m)

filter_all : (m : JsMap Touched) → filter (λ (e : String × Touched). true) m ≡ m
filter_all [] = refl
filter_all (e ∷ m) = ap (◌∷◌ e) (filter_all m)

delete-Distinct :
    (k : String) (m : JsMap Touched)
    → Distinct (JsMap.keys m)
    → Distinct (JsMap.keys (JsMap.delete k m))
unfolding JsMap.delete
delete-Distinct k [] d = tt
delete-Distinct k ((j, u) ∷ m) d = elim (string_discrete j k) [
  | yes e ↦ rw (if_pos (string_discrete j k) e) d.1
  | no n ↦ rw (if_neg (string_discrete j k) n) (position-delete k j m d.0, delete-Distinct k m d.1)
]

-- Every hit is one of a listed route or is left over.
hits_in-split :
    (xs : List String) (m : JsMap Touched)
    → Distinct xs
    → Distinct (JsMap.keys m)
    → hits_in xs m + hits_of (unknown_in xs m) ≡ hits_of m
unfolding hits_in unknown_in position
hits_in-split [] m dx dm = omega (arith, ap hits_of (filter_all m))
hits_in-split (x ∷ xs) m dx dm = omega (
  arith,
  ap hits_of (unknown_in-cons x xs m dm),
  hits_in-split xs (JsMap.delete x m) dx.1 (delete-Distinct x m dm),
  hits_in-delete x xs m dx.0,
  hits-delete x m,
)

module _ (log_ratio : ℕ → ℕ → ℕ) (max_before : ℕ) (routes : List PublicRoute)
    (index : JsMap ℕ) where
  overlay-absent :
      (es : JsMap Touched) (v r : PublicRoute)
      → position r.id (JsMap.keys es) ≡ none
      → overlay log_ratio max_before routes index v es r ≡ v
  overlay-absent [] v r h = refl
  overlay-absent ((k, u) ∷ es) v r h =
      let (ne, rest) = position-none r.id k (JsMap.keys es) h in
      rw (if_neg (string_discrete r.id k) (λ e. ne (sym e))) (overlay-absent es v r rest)

  abbrev count : PublicRoute → ℕ
  count q = q.packet_count

  -- Distinct entries change a route by the one of its id, or not at all.
  overlay-count :
      (es : JsMap Touched) (v r : PublicRoute)
      → Distinct (JsMap.keys es)
      → v.packet_count ≡ r.packet_count
      → (overlay log_ratio max_before routes index v es r).packet_count
        ≡ r.packet_count + hits_at (JsMap.get r.id es)
  unfolding JsMap.get
  overlay-count [] v r d e = omega (arith, e)
  overlay-count ((k, u) ∷ es) v r d e = elim (string_discrete r.id k) [
    | yes same ↦
        let w = updated_route log_ratio max_before r u in
        let gone = subst (λ x. position x (JsMap.keys es) ≡ none) (sym same) d.0 in
        omega (
          arith,
          ap count (
              ap (λ q. overlay log_ratio max_before routes index q es r)
                (if_pos (string_discrete r.id k) same w v)),
          ap count (overlay-absent es w r gone),
          ap hits_at (if_pos (string_discrete k r.id) (sym same) (some u) (JsMap.get r.id es)),
        )
    | no ne ↦ omega (
      arith,
      ap count (
          ap (λ q. overlay log_ratio max_before routes index q es r)
            (if_neg (string_discrete r.id k) ne (updated_route log_ratio max_before r u) v)),
      overlay-count es v r d.1 e,
      ap hits_at (if_neg (string_discrete k r.id) (λ p. ne (sym p)) (some u) (JsMap.get r.id es)),
    )
  ]

  total-overlay :
      (es : JsMap Touched) (rs : List PublicRoute)
      → Distinct (JsMap.keys es)
      → packet_total (map (λ r. overlay log_ratio max_before routes index r es r) rs)
        ≡ packet_total rs + hits_in (ids rs) es
  unfolding packet_total hits_in
  total-overlay es [] d = omega arith
  total-overlay es (r ∷ rs) d = omega (arith, overlay-count es r r d refl, total-overlay es rs d)

  total-new_routes :
      (es : JsMap Touched) → packet_total (new_routes log_ratio max_before es) ≡ hits_of es
  unfolding packet_total
  total-new_routes [] = refl
  total-new_routes ((k, u) ∷ es) = omega (arith, total-new_routes es)

  -- The lists after both loops hold the packets of the routes before and one for each hit.
  pub loops-total :
      (es : JsMap Touched)
      → IsGathered es
      → IsIndexed routes index
      → let b = known log_ratio max_before routes index es in
        packet_total (fresh_loop log_ratio max_before b.left b).next
        ≡ packet_total routes + hits_of es
  unfolding unknown_in
  loops-total es g x =
      let b = known log_ratio max_before routes index es in
      let over = known_loop-overlay log_ratio max_before routes index es x.indexed x.distinct in
      omega (
        arith,
        ap packet_total (fresh_loop-next log_ratio max_before b.left b),
        packet_total-append b.next (new_routes log_ratio max_before b.left),
        total-new_routes b.left,
        ap hits_of over.1,
        ap packet_total over.0,
        total-overlay es routes g.distinct,
        hits_in-split (ids routes) es x.distinct g.distinct,
      )
