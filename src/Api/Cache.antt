-- ===== src/Api/Cache.antt =====
-- The offline snapshot of the public state in web/src/api.ts: `cachePublicStateSnapshot`, its deferred
-- write, `readCachedPublicStateSnapshot`, and the two fetches that use them. The storage holds the
-- value that `JSON.parse` reads of the text in it; a text that does not parse counts as none.
use mc_carto_live.Prelude.{
  String, string_discrete, Bool, true, false, not, ◌||◌, ◌≡◌, refl, Option, none, some,
  if◌then◌else◌, ◌⊎◌, inl, inr,
}
use mc_carto_live.Prelude.JsValue.{JsNumbers, Value, number, object, field, no_fields, get}
use mc_carto_live.Types.{NodeRole}
use mc_carto_live.Api.Data.{PublicLiveState}
use mc_carto_live.Api.Scalars.{sanitize_number}
use mc_carto_live.Api.State.{sanitize_public_state}
use mc_carto_live.Api.State.Json.{role_name, json_state}
use mc_carto_live.Api.State.Sane.{IsText, IsState}
use mc_carto_live.Api.State.Back.Whole.{sanitize_public_state-json_state}
use mc_carto_live.Api.State.Made.Whole.{sanitized-IsState}

-- `lastPublicStateCacheWriteAt`; the state of the write that is pending, if
-- `pendingPublicStateCacheWrite`; what the storage holds.
pub record SnapshotCache (N : Type 0) : Type 0 where
  pub last_write_at : N
  pub pending : Option (PublicLiveState N)
  pub stored : Option (Value N)

pub data FetchSource : Type 0 where
  network offline_cache : FetchSource

pub record PublicStateFetchResult (N : Type 0) : Type 0 where
  pub state : PublicLiveState N
  pub source : FetchSource
  pub cached_at : Option N

-- How a request ends: the body it gives, an error, or the abort of the caller.
pub data Response (N : Type 0) : Type 0 where
  body : Value N → Response N
  failed : Response N
  aborted : Response N

abbrev pub is_pending : {A : Type 0} → Option A → Bool
is_pending none = false
is_pending (some a) = true

abbrev pub json_snapshot : {N : Type 0} → N → PublicLiveState N → Value N
json_snapshot cached_at state =
    object (field "cachedAt" (number cached_at) (field "state" (json_state state) no_fields))

if_refused :
    {A : Type 0}
    → (a b c : Bool) → (x y : A) → (b ≡ false) ⊎ (c ≡ false)
    → (if a || not b || not c then x else y) ≡ x
if_refused true b c x y h = refl
if_refused false false c x y h = refl
if_refused false true false x y h = refl
if_refused false true true x y (inl e) = cc
if_refused false true true x y (inr e) = cc

module _ {N : Type 0} (js : JsNumbers N) where
  -- `a < b`
  abbrev pub before : N → N → Bool
  before a b = not (js.le b a)

  unfoldable pub cache_public_state_snapshot :
      N → PublicLiveState N → SnapshotCache N → SnapshotCache N
  cache_public_state_snapshot now state c =
      if is_pending c.pending || before (js.sub now c.last_write_at) (js.numeral 60000)
      then c
      else record c { pending = some state }

  -- The deferred write at `now`; `has_room` says that `setItem` does not throw.
  unfoldable pub write_public_state_snapshot : Bool → N → SnapshotCache N → SnapshotCache N
  write_public_state_snapshot has_room now c = elim c.pending [
    | none ↦ c
    | some state ↦
        if has_room
        then record { last_write_at = now; pending = none; stored = some (json_snapshot now state) }
        else record c { pending = none }
  ]

  -- `clock` is `Date.now()`, and `now` the argument, which is the same by default.
  unfoldable pub read_cached_public_state_snapshot :
      (String → String) → N → N → Option (Value N) → Option (PublicStateFetchResult N)
  read_cached_public_state_snapshot lower clock now none = none
  read_cached_public_state_snapshot lower clock now (some parsed) =
      let cached_at = sanitize_number js (get "cachedAt" parsed) (js.numeral 0) in
      let age = js.sub now cached_at in
      if js.le cached_at (js.numeral 0)
        || before age (js.numeral 0)
        || before (js.numeral 300000) age
      then none
      else some (record {
        state = sanitize_public_state js lower clock (get "state" parsed);
        source = offline_cache;
        cached_at = some cached_at;
      })

  -- The state that is returned, and the cache after `cachePublicStateSnapshot`.
  unfoldable pub fetch_public_state :
      (String → String) → N → Value N → SnapshotCache N → PublicLiveState N × SnapshotCache N
  unfolding cache_public_state_snapshot
  fetch_public_state lower now value c =
      let state = sanitize_public_state js lower now value in
      (state, cache_public_state_snapshot now state c)

  -- No result stands for the error that is thrown.
  unfoldable pub fetch_public_state_with_fallback :
      (String → String)
      → N
      → Response N
      → SnapshotCache N
      → Option (PublicStateFetchResult N) × SnapshotCache N
  unfolding fetch_public_state read_cached_public_state_snapshot
  fetch_public_state_with_fallback lower now (body value) c =
      let (state, c') = fetch_public_state lower now value c in
      (some (record { state = state; source = network; cached_at = none }), c')
  fetch_public_state_with_fallback lower now failed c =
      (read_cached_public_state_snapshot lower now now c.stored, c)
  fetch_public_state_with_fallback lower now aborted c = (none, c)

module _ {N : Type 0} (js : JsNumbers N) (lower : String → String)
    (roles : (r : NodeRole) → lower (role_name r) ≡ role_name r) where
  -- A sane state that is pending, once the deferred write at `written` has put it in the storage, is what
  -- `readCachedPublicStateSnapshot` gives, with `written` as its time, at every later time whose
  -- distance is at most five minutes.
  pub read_cached_public_state_snapshot-write :
      (written clock now : N)
      → (state : PublicLiveState N) → (c : SnapshotCache N) → IsState state
      → c.pending ≡ some state
      → js.le written (js.numeral 0) ≡ false
      → js.le (js.numeral 0) (js.sub now written) ≡ true
      → js.le (js.sub now written) (js.numeral 300000) ≡ true
      → read_cached_public_state_snapshot js lower clock now
          (write_public_state_snapshot js true written c).stored
        ≡ some (record { state = state; source = offline_cache; cached_at = some written })
  unfolding read_cached_public_state_snapshot write_public_state_snapshot string_discrete get
      sanitize_number
  read_cached_public_state_snapshot-write written clock now state c sane pending positive past
        recent =
      rw
        (
          pending,
          positive,
          past,
          recent,
          sanitize_public_state-json_state js lower roles clock state sane,
        )
        refl

  -- What a request to the network gave is what the request that fails later gives, from the offline
  -- cache, where the cache let the state in, the write was carried out in between, and the snapshot is
  -- at most five minutes old.
  pub fetch_public_state_with_fallback-offline :
      ((n : N) → IsText (js.to_string n))
      → (fetched written now : N) → (value : Value N) → (c : SnapshotCache N) → c.pending ≡ none
      → js.le (js.numeral 60000) (js.sub fetched c.last_write_at) ≡ true
      → js.le written (js.numeral 0) ≡ false
      → js.le (js.numeral 0) (js.sub now written) ≡ true
      → js.le (js.sub now written) (js.numeral 300000) ≡ true
      → (let (state, c') = fetch_public_state js lower fetched value c in
          (fetch_public_state_with_fallback js lower now failed
            (write_public_state_snapshot js true written c')).0
          ≡ some (record { state = state; source = offline_cache; cached_at = some written }))
  unfolding fetch_public_state fetch_public_state_with_fallback cache_public_state_snapshot
  fetch_public_state_with_fallback-offline numerals fetched written now value c idle due positive
        past recent =
      read_cached_public_state_snapshot-write written now now
        (sanitize_public_state js lower fetched value)
        (cache_public_state_snapshot js fetched (sanitize_public_state js lower fetched value) c)
        (sanitized-IsState js numerals lower fetched value) (rw (idle, due) refl) positive past
        recent

  -- A snapshot from the future, or one that is more than five minutes old, is not given.
  pub read_cached_public_state_snapshot-stale :
      (clock now : N)
      → (stored : Value N)
      → (let age = js.sub now (sanitize_number js (get "cachedAt" stored) (js.numeral 0)) in
          (js.le (js.numeral 0) age ≡ false) ⊎ (js.le age (js.numeral 300000) ≡ false))
      → read_cached_public_state_snapshot js lower clock now (some stored) ≡ none
  unfolding read_cached_public_state_snapshot
  read_cached_public_state_snapshot-stale clock now stored h = if_refused _ _ _ _ _ h
