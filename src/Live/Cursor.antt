-- ===== src/Live/Cursor.antt =====
-- web/src/liveCursor.ts: which live envelopes advance the durable recovery cursor.
-- A cursor is a natural number: it starts at 0 and only ever takes accepted sequence numbers.
pub mod Order
pub mod Reset
pub mod Complete
pub mod Again
use mc_carto_live.Prelude.{
  ℕ, zero, suc, max, ◌≤◌, ◌<◌, ◌≡◌, ◌++◌, Bool, true, false, ◌&&◌, ◌||◌, Option, none, some, List,
  [], ◌∷◌, ltb, leb, ◌==◌, if◌then◌else◌, filter,
}
use mc_carto_live.Prelude.Int.{ℤ, pos, negsuc, JsNumber, int, other, is_safe_integer}
use mc_carto_live.Live.Wire.{Wire}

-- `seq` is 0 in the last two.
pub data LiveEnvelopeSequence : Type 0 where
  durable : ℕ → LiveEnvelopeSequence
  fallback : LiveEnvelopeSequence
  invalid : LiveEnvelopeSequence

-- The number tests of the source, in their order: 0, then safe and positive.
unfoldable pub classify_number : JsNumber → LiveEnvelopeSequence
classify_number (int (pos zero)) = fallback
classify_number (int (pos (suc n))) =
    if is_safe_integer (int (pos (suc n))) then durable (suc n) else invalid
classify_number (int (negsuc n)) = invalid
classify_number other = invalid

unfoldable pub classify_seq : Option JsNumber → LiveEnvelopeSequence
unfolding classify_number
classify_seq none = fallback
classify_seq (some value) = classify_number value

-- `validSequence`, also `durableSequence` and `finiteSequence` on a number.
unfoldable pub valid_sequence : JsNumber → ℕ
valid_sequence (int (pos n)) = if is_safe_integer (int (pos n)) then n else 0
valid_sequence (int (negsuc n)) = 0
valid_sequence other = 0

-- Math.max(0, value) where the value is an integer.
abbrev pub max_zero : ℤ → ℕ
max_zero (pos n) = n
max_zero (negsuc n) = 0

pub record IncreasingLiveEnvelopeBatch (A : Type 0) : Type 0 where
  pub accepted : List A
  pub cursor : ℕ
  pub invalid_seen : Bool
  pub non_monotonic : Bool

-- The test of `filter` on a message of a known class.
abbrev pub is_retained : ℕ → LiveEnvelopeSequence → Bool
is_retained cursor fallback = true
is_retained cursor (durable s) = ltb cursor s
is_retained cursor invalid = false

module _ {A : Type 0} (wire : Wire A) where
  unfoldable pub classify_live_envelope_sequence : A → LiveEnvelopeSequence
  unfolding classify_seq
  classify_live_envelope_sequence message = classify_seq (wire.seq message)

  -- One round of the loop, on a message of a known class. A `push` goes to the end.
  unfoldable pub take_one :
      LiveEnvelopeSequence → A → IncreasingLiveEnvelopeBatch A → IncreasingLiveEnvelopeBatch A
  take_one invalid message b = record b { invalid_seen = true }
  take_one fallback message b = record b { accepted = b.accepted ++ message ∷ [] }
  take_one (durable s) message b =
      if s == b.cursor
      then b
      else if ltb s b.cursor
      then record b { non_monotonic = true }
      else record b { accepted = b.accepted ++ message ∷ []; cursor = s }

  unfoldable pub take_loop : List A → IncreasingLiveEnvelopeBatch A → IncreasingLiveEnvelopeBatch A
  unfolding classify_live_envelope_sequence take_one
  take_loop [] b = b
  take_loop (m ∷ ms) b = take_loop ms (take_one (classify_live_envelope_sequence m) m b)

  unfoldable pub take_increasing_live_envelopes : List A → ℤ → IncreasingLiveEnvelopeBatch A
  unfolding take_loop
  take_increasing_live_envelopes messages after_seq = take_loop messages (record {
    accepted = [];
    cursor = max_zero after_seq;
    invalid_seen = false;
    non_monotonic = false;
  })

  unfoldable pub retain_live_envelopes_after_cursor : List A → ℕ → List A
  unfolding classify_live_envelope_sequence
  retain_live_envelopes_after_cursor messages cursor =
      filter (λ m. is_retained cursor (classify_live_envelope_sequence m)) messages

unfoldable pub should_queue_durable_live_sequence : JsNumber → ℕ → ℕ → Bool
should_queue_durable_live_sequence (int (pos n)) last_applied last_queued =
    is_safe_integer (int (pos n)) && ltb (max last_applied last_queued) n
should_queue_durable_live_sequence (int (negsuc n)) last_applied last_queued = false
should_queue_durable_live_sequence other last_applied last_queued = false

unfoldable pub live_cursor_reset_target : JsNumber → JsNumber → JsNumber → ℕ
unfolding valid_sequence
live_cursor_reset_target server_latest_seq prior_applied_seq latest_inbound_seq =
    let server_latest = valid_sequence server_latest_seq in
    let prior_applied = valid_sequence prior_applied_seq in
    let latest_inbound = valid_sequence latest_inbound_seq in
    if ltb server_latest prior_applied && leb prior_applied latest_inbound
    then server_latest
    else max server_latest latest_inbound

unfoldable pub hello_requires_cursor_reset_probe : JsNumber → JsNumber → Bool
unfolding valid_sequence
hello_requires_cursor_reset_probe hello_seq last_applied_seq =
    let applied = valid_sequence last_applied_seq in
    ltb 0 applied && ltb (valid_sequence hello_seq) applied
