-- ===== src/MapMotion/Identity.antt =====
-- web/src/map/recentIdentityTracker.ts, with `shouldAnimateLiveEvent` of
-- web/src/map/animationSafety.ts: the identities that were animated lately, the oldest first.
-- `now - seenAt <= ttl` is written `now ≤ seenAt + ttl`. Times are natural numbers, so finite.
pub mod Capacity
use mc_carto_live.Prelude.{
  ℕ, ◌+◌, max, Bool, true, false, not, ◌&&◌, ◌||◌, Option, none, some, List, [], ◌∷◌, String, ltb,
  leb, ◌==◌, if◌then◌else◌,
}
use mc_carto_live.Prelude.JsMap.{JsMap}
use mc_carto_live.Prelude.JsMap

abbrev pub max_animation_event_age_ms : ℕ
max_animation_event_age_ms = 30_000

abbrev pub max_animation_event_future_skew_ms : ℕ
max_animation_event_future_skew_ms = 10_000

abbrev pub should_animate_live_event : ℕ → ℕ → Bool → Bool
should_animate_live_event heard_at now document_hidden =
    not
      (document_hidden || heard_at == 0 || ltb (now + max_animation_event_future_skew_ms) heard_at)
    && leb now (heard_at + max_animation_event_age_ms)

pub record RecentIdentityTracker : Type 0 where
  pub entries : JsMap ℕ
  pub max_entries : ℕ
  pub ttl_ms : ℕ

abbrev pub new_tracker : ℕ → ℕ → RecentIdentityTracker
new_tracker max_entries ttl_ms = record {
  entries = [];
  max_entries = max 1 max_entries;
  ttl_ms = max 1 ttl_ms;
}

-- The loop of `prune`: it stops at the first entry that is recent.
unfoldable pub prune_entries : ℕ → ℕ → JsMap ℕ → JsMap ℕ
prune_entries ttl_ms now [] = []
prune_entries ttl_ms now ((key, seen_at) ∷ entries) =
    let rest = prune_entries ttl_ms now entries in
    if leb now (seen_at + ttl_ms) then (key, seen_at) ∷ entries else rest

unfoldable pub prune : ℕ → RecentIdentityTracker → RecentIdentityTracker
unfolding prune_entries
prune now t = record t { entries = prune_entries t.ttl_ms now t.entries }

-- The `while` over the capacity: the oldest entries go.
unfoldable pub evict : ℕ → JsMap ℕ → JsMap ℕ
evict max_entries [] = []
evict max_entries (e ∷ entries) =
    let rest = evict max_entries entries in
    if ltb max_entries (JsMap.size (e ∷ entries)) then rest else e ∷ entries

-- The entry goes to the end.
abbrev pub refresh_entry : String → ℕ → JsMap ℕ → JsMap ℕ
refresh_entry key now entries = JsMap.set key now (JsMap.delete key entries)

abbrev pub is_recent : ℕ → ℕ → Option ℕ → Bool
is_recent ttl_ms now none = false
is_recent ttl_ms now (some seen_at) = leb now (seen_at + ttl_ms)

-- The tracker after it, and the answer.
unfoldable pub remember : String → ℕ → RecentIdentityTracker → RecentIdentityTracker × Bool
unfolding prune evict
remember key now t =
    let pruned = prune now t in
    let moved = refresh_entry key now pruned.entries in
    if is_recent t.ttl_ms now (JsMap.get key pruned.entries)
    then (record t { entries = moved }, false)
    else (record t { entries = evict t.max_entries moved }, true)

abbrev pub remember_fresh_live_identity :
    String → ℕ → ℕ → ℕ → RecentIdentityTracker → RecentIdentityTracker × Bool
remember_fresh_live_identity key event_at epoch_now monotonic_now t =
    if should_animate_live_event event_at epoch_now false
    then remember key monotonic_now t
    else (t, false)
