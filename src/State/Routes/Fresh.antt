-- ===== src/State/Routes/Fresh.antt =====
-- The loop over the routes that the index does not know (web/src/state.ts): it adds them at the
-- end, and the index with them.
use mathlib.Core.List.{append-nil, append_assoc, map-append}
use mc_carto_live.Prelude.{
  ℕ, suc, ◌≡◌, refl, sym, ap, ◌∙◌, subst, none, List, [], ◌∷◌, ◌++◌, map, arith, String, length,
  All,
}
use mc_carto_live.Prelude.JsMap.{JsMap}
use mc_carto_live.Prelude.JsMap
use mc_carto_live.Types.{PublicRoute}
use mc_carto_live.State.Buckets.{ids}
use mc_carto_live.State.Routes.{Touched, Batch, new_route, fresh_loop}
use mc_carto_live.State.Routes.Position.{
  position, Distinct, IsIndex, position-append, Distinct-append,
}

length-ids : (rs : List PublicRoute) → length (ids rs) ≡ length rs
length-ids [] = refl
length-ids (r ∷ rs) = ap suc (length-ids rs)

pub IsIndex-push :
    (rs : List PublicRoute) (r : PublicRoute) (index : JsMap ℕ)
    → position r.id (ids rs) ≡ none
    → IsIndex rs index
    → IsIndex (rs ++ r ∷ []) (JsMap.set r.id (length rs) index)
IsIndex-push rs r index h x k = ground (
  arith,
  JsMap.get-set r.id k (length rs) index,
  ap (position k) (map-append (λ (q : PublicRoute). q.id) rs (r ∷ [])),
  position-append k r.id (ids rs),
  x k,
  length-ids rs,
)

-- The routes that a list of entries is about are not among the ids.
abbrev pub Absent : List String → JsMap Touched → Type 0
Absent xs es = All (λ (e : String × Touched). position e.0 xs ≡ none) es

Absent-push :
    (k : String) (xs : List String) (es : JsMap Touched)
    → position k (JsMap.keys es) ≡ none
    → Absent xs es
    → Absent (xs ++ k ∷ []) es
unfolding position
Absent-push k xs [] h a = tt
Absent-push k xs ((j, w) ∷ es) h a =
    (ground (arith, position-append j k xs, a.0), Absent-push k xs es (ground arith) a.1)

-- A list of routes with distinct ids, and its index.
pub record IsIndexed (rs : List PublicRoute) (index : JsMap ℕ) : Type 0 where
  pub indexed : IsIndex rs index
  pub distinct : Distinct (ids rs)

pub IsIndexed-push :
    (rs : List PublicRoute) (r : PublicRoute) (index : JsMap ℕ)
    → position r.id (ids rs) ≡ none
    → IsIndexed rs index
    → IsIndexed (rs ++ r ∷ []) (JsMap.set r.id (length rs) index)
IsIndexed-push rs r index h x = record {
  indexed = IsIndex-push rs r index h x.indexed;
  distinct =
      rw (map-append (λ (q : PublicRoute). q.id) rs (r ∷ []))
        (Distinct-append r.id (ids rs) h x.distinct);
}

abbrev pub Keyed : JsMap Touched → Type 0
Keyed es = All (λ (e : String × Touched). e.1.segment.route_id ≡ e.0) es

module _ (log_ratio : ℕ → ℕ → ℕ) (max_before : ℕ) where
  abbrev pub new_routes : JsMap Touched → List PublicRoute
  new_routes es = map (λ e. new_route log_ratio max_before e.1) es

  pub fresh_loop-next :
      (es : JsMap Touched) (b : Batch)
      → (fresh_loop log_ratio max_before es b).next ≡ b.next ++ new_routes es
  unfolding fresh_loop
  fresh_loop-next [] b = sym (append-nil b.next)
  fresh_loop-next ((k, u) ∷ es) b =
      fresh_loop-next es _
      ∙ append_assoc b.next (new_route log_ratio max_before u ∷ []) (new_routes es)

  pub fresh_loop-IsIndexed :
      (es : JsMap Touched) (b : Batch)
      → Distinct (JsMap.keys es)
      → Keyed es
      → Absent (ids b.next) es
      → IsIndexed b.next b.next_index
      → IsIndexed
          (fresh_loop log_ratio max_before es b).next
          (fresh_loop log_ratio max_before es b).next_index
  unfolding fresh_loop
  fresh_loop-IsIndexed [] b d key a x = x
  fresh_loop-IsIndexed ((k, u) ∷ es) b d key a x =
      let r = new_route log_ratio max_before u in
      let absent : position r.id (ids b.next) ≡ none =
        subst (λ j. position j (ids b.next) ≡ none) (sym key.0) a.0 in
      let clear : position r.id (JsMap.keys es) ≡ none =
        subst (λ j. position j (JsMap.keys es) ≡ none) (sym key.0) d.0 in
      fresh_loop-IsIndexed es _ d.1 key.1
        (subst (λ xs. Absent xs es) (sym (map-append (λ (q : PublicRoute). q.id) b.next (r ∷ [])))
          (Absent-push r.id (ids b.next) es clear a.1))
        (IsIndexed-push b.next r b.next_index absent x)
