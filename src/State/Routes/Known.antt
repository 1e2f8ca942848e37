-- ===== src/State/Routes/Known.antt =====
-- The loop over the routes that the index knows (web/src/state.ts): it changes each of them by
-- its entry of `touched`, where it stands, and leaves the other entries over.
use mc_carto_live.Prelude.{
  ℕ, ◌≡◌, refl, sym, ap, ◌∙◌, subst, ◌≢◌, ite, if_pos, if_neg, false, some, List, [], ◌∷◌, ◌++◌,
  map, String, string_discrete, get_elem?, set, Option-cases, inl, inr, is_some, filter, not,
  Bool-cases,
}
use mathlib.Core.List.{append-nil, append_assoc, map-id}
use mc_carto_live.Prelude.JsMap.{JsMap}
use mc_carto_live.Prelude.JsMap
use mc_carto_live.Types.{PublicRoute}
use mc_carto_live.State.Buckets.{ids}
use mc_carto_live.State.Routes.{Touched, Batch, updated_route, update_known, known_loop}
use mc_carto_live.State.Routes.Position.{
  position, Distinct, IsIndex, position_route, set-map, map-absent,
}

module _ (log_ratio : ℕ → ℕ → ℕ) (max_before : ℕ) (routes : List PublicRoute)
    (index : JsMap ℕ) where
  -- The value of a route `r` after the entries, where it is `v` before them.
  abbrev pub overlay : PublicRoute → JsMap Touched → PublicRoute → PublicRoute
  overlay v [] r = v
  overlay v ((k, u) ∷ es) r =
      overlay (ite (string_discrete r.id k) (updated_route log_ratio max_before r u) v) es r

  -- The entries of routes that are not in the list.
  abbrev pub unknown : JsMap Touched → JsMap Touched
  unknown es = filter (λ (e : String × Touched). not (is_some (position e.0 (ids routes)))) es

  abbrev pub overlay_one :
      String → Touched → (PublicRoute → PublicRoute) → PublicRoute → PublicRoute
  overlay_one k u f r = ite (string_discrete r.id k) (updated_route log_ratio max_before r u) (f r)

  overlay_one_ne :
      (k : String) (u : Touched) (f : PublicRoute → PublicRoute) (q : PublicRoute)
      → q.id ≢ k
      → overlay_one k u f q ≡ f q
  overlay_one_ne k u f q ne = if_neg (string_discrete q.id k) ne _ _

  abbrev pub Holds : (PublicRoute → PublicRoute) → JsMap Touched → Batch → Type 0
  Holds f left b = (b.next ≡ map f routes) × (b.left ≡ left) × (b.next_index ≡ index)

  module _ (indexed : IsIndex routes index) (distinct : Distinct (ids routes)) where
    set_known :
        (k : String) (u : Touched) (f : PublicRoute → PublicRoute) (i : ℕ) (r : PublicRoute)
        → position k (ids routes) ≡ some i
        → get_elem? routes i ≡ some r
        → r.id ≡ k
        → set (map f routes) i (updated_route log_ratio max_before r u)
          ≡ map (overlay_one k u f) routes
    set_known k u f i r here at same =
        subst (λ v. set (map f routes) i v ≡ map (overlay_one k u f) routes)
          (if_pos (string_discrete r.id k) same _ _)
          (set-map k i r f (overlay_one k u f) routes here at distinct (overlay_one_ne k u f))

    update_known-Holds :
        (k : String) (u : Touched) (f : PublicRoute → PublicRoute) (left : JsMap Touched)
        (b : Batch)
        → Holds f left b
        → Holds
            (overlay_one k u f)
            (left ++ unknown ((k, u) ∷ []))
            (update_known log_ratio max_before k u (JsMap.get k index) (get_elem? routes) b)
    unfolding update_known
    update_known-Holds k u f left b (n, l, x) = elim (Option-cases (position k (ids routes))) [
      | inl absent ↦
          rw (indexed k, absent)
            (
              n ∙ sym (map-absent k f (overlay_one k u f) routes absent (overlay_one_ne k u f)),
              ap (λ m. m ++ (k, u) ∷ []) l,
              x,
            )
      | inr (i, here) ↦
          let (r, at, same) = position_route k i routes here in
          rw (indexed k, here, at, update_known)
            (
              ap (λ rs. set rs i (updated_route log_ratio max_before r u)) n
                  ∙ set_known k u f i r here at same,
              l ∙ sym (append-nil left),
              x,
            )
    ]

    unknown-cons :
        (k : String) (u : Touched) (es : JsMap Touched)
        → unknown ((k, u) ∷ es) ≡ unknown ((k, u) ∷ []) ++ unknown es
    unknown-cons k u es = elim (Bool-cases (is_some (position k (ids routes)))) [
      | inl found ↦ rw found
      | inr new ↦ rw new
    ]

    known_loop-Holds :
        (es : JsMap Touched) (f : PublicRoute → PublicRoute) (left : JsMap Touched) (b : Batch)
        → Holds f left b
        → Holds
            (λ r. overlay (f r) es r)
            (left ++ unknown es)
            (known_loop log_ratio max_before routes index es b)
    unfolding known_loop
    known_loop-Holds [] f left b (n, l, x) = (n, l ∙ sym (append-nil left), x)
    known_loop-Holds ((k, u) ∷ es) f left b h =
        let b' = update_known log_ratio max_before k u (JsMap.get k index) (get_elem? routes) b in
        subst
          (λ m.
            Holds (λ r. overlay (f r) ((k, u) ∷ es) r) m
              (known_loop log_ratio max_before routes index es b'))
          (append_assoc left (unknown ((k, u) ∷ [])) (unknown es)
            ∙ ap (◌++◌ left) (sym (unknown-cons k u es)))
          (known_loop-Holds es (overlay_one k u f) (left ++ unknown ((k, u) ∷ [])) b'
            (update_known-Holds k u f left b h))

  -- The batch before the loop.
  abbrev pub start : Batch
  start = record {
    next = routes;
    next_index = index;
    max_after = max_before;
    changed = false;
    visual = false;
    left = [];
  }

  -- With an index that is right for routes with distinct ids, the loop over the touched routes gives
  -- each route that has an entry its update where it stands, keeps the others as they were, and
  -- leaves over exactly the entries of routes that are not in the list.
  pub known_loop-overlay :
      (es : JsMap Touched)
      → IsIndex routes index
      → Distinct (ids routes)
      → let b = known_loop log_ratio max_before routes index es start in
        (b.next ≡ map (λ r. overlay r es r) routes) × (b.left ≡ unknown es) × (b.next_index ≡ index)
  known_loop-overlay es indexed distinct =
      known_loop-Holds indexed distinct es (λ r. r) [] start (sym (map-id routes), refl, refl)
