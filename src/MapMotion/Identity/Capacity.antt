-- ===== src/MapMotion/Identity/Capacity.antt =====
-- The tracker of web/src/map/recentIdentityTracker.ts stays within its capacity.
use mc_carto_live.Prelude.{
  ℕ, ◌+◌, ◌≤◌, ◌≡◌, true, some, [], ◌∷◌, String, arith, Bool-cases, Option-cases, inl, inr,
}
use mc_carto_live.Prelude.JsMap.{JsMap}
use mc_carto_live.Prelude.JsMap
use mc_carto_live.MapMotion.Identity.{
  RecentIdentityTracker, prune_entries, prune, evict, refresh_entry, is_recent, remember,
}

size-prune_entries :
    (ttl now : ℕ) (m : JsMap ℕ) → JsMap.size (prune_entries ttl now m) ≤ JsMap.size m
unfolding prune_entries
size-prune_entries ttl now [] = omega arith
size-prune_entries ttl now ((k, t) ∷ m) = ground (arith, size-prune_entries ttl now m)

size-evict : (most : ℕ) (m : JsMap ℕ) → JsMap.size (evict most m) ≤ most
unfolding evict
size-evict most [] = omega arith
size-evict most (e ∷ m) = ground (arith, size-evict most m)

size-delete_there :
    (k : String) (t : ℕ) (m : JsMap ℕ)
    → JsMap.get k m ≡ some t
    → JsMap.size (JsMap.delete k m) + 1 ≡ JsMap.size m
unfolding JsMap.get JsMap.delete
size-delete_there k t [] h = absurd (ground arith)
size-delete_there k t ((j, u) ∷ m) h = ground (arith, size-delete_there k t m)

size-refresh_entry :
    (k : String) (now ttl : ℕ) (m : JsMap ℕ)
    → is_recent ttl now (JsMap.get k m) ≡ true
    → JsMap.size (refresh_entry k now m) ≤ JsMap.size m
size-refresh_entry k now ttl m h = elim (Option-cases (JsMap.get k m)) [
  | inl missing ↦ absurd (ground (arith, missing, h))
  | inr (t, there) ↦
      omega (arith, JsMap.size-set-le k now (JsMap.delete k m), size-delete_there k t m there)
]

-- A tracker within its capacity is within it after an identity is noted, new or known.
pub size-remember :
    (key : String) (now : ℕ) (t : RecentIdentityTracker)
    → JsMap.size t.entries ≤ t.max_entries
    → JsMap.size (remember key now t).0.entries ≤ (remember key now t).0.max_entries
unfolding remember prune
size-remember key now t h =
    let m = prune_entries t.ttl_ms now t.entries in
    elim (Bool-cases (is_recent t.ttl_ms now (JsMap.get key m))) [
      | inl known ↦ rw known (
          omega (
            arith,
            size-refresh_entry key now t.ttl_ms m known,
            size-prune_entries t.ttl_ms now t.entries,
            h,
          ))
      | inr new ↦ rw new (size-evict t.max_entries (refresh_entry key now m))
    ]
