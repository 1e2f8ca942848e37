-- ===== src/Live/Pacing.antt =====
-- web/src/livePacing.ts: the queue of live envelopes that wait for the next batch. The unused
-- parameters (`_now`, `_batchWindowMs`) are left out.
pub mod Queue
pub mod Order
pub mod Batch
use mc_carto_live.Prelude.{
  ℕ, suc, ◌-◌, max, Bool, ◌&&◌, Option, none, some, List, [], ◌∷◌, ltb, leb, ◌==◌, ◌⁇◌, ◌<|>◌,
  if◌then◌else◌, length, take, drop,
}
use mc_carto_live.Prelude.Int.{JsNumber}
use mc_carto_live.Prelude.Sort.{sort}
use mc_carto_live.Live.Wire.{Wire}
use mc_carto_live.Live.Cursor.{valid_sequence}

abbrev pub live_envelope_max_batch_size : ℕ
live_envelope_max_batch_size = 256

abbrev pub live_envelope_max_pending : ℕ
live_envelope_max_pending = 4096

pub record DueLiveEnvelopes (A : Type 0) : Type 0 where
  pub due : List A
  pub pending : List A

unfoldable pub durable_sequence : Option JsNumber → ℕ
unfolding valid_sequence
durable_sequence none = 0
durable_sequence (some value) = valid_sequence value

module _ {A : Type 0} (wire : Wire A) where
  abbrev pub seq_of : A → ℕ
  seq_of message = durable_sequence (wire.seq message)

  unfoldable pub live_envelope_display_at : A → ℕ
  live_envelope_display_at message =
      wire.received_at message <|> wire.server_time message <|> wire.display_at message ⁇ 0

  -- `compareLiveEnvelopes(a, b) <= 0`
  unfoldable pub compare_live_envelopes : A → A → Bool
  compare_live_envelopes a b =
      if ltb 0 (seq_of a) && ltb 0 (seq_of b)
      then leb (seq_of a) (seq_of b)
      else if live_envelope_display_at a == live_envelope_display_at b
      then leb (seq_of a) (seq_of b)
      else ltb (live_envelope_display_at a) (live_envelope_display_at b)

  unfoldable pub sort_live_envelopes : List A → List A
  sort_live_envelopes messages = sort compare_live_envelopes messages

  -- `slice(-0)` is the whole array, and so is `slice(-n)` for an `n` that is too large.
  abbrev pub slice_last : ℕ → List A → List A
  slice_last limit xs = if limit == 0 then xs else drop (length xs - limit) xs

  unfoldable pub cap_live_envelope_queue : List A → ℕ → List A
  unfolding sort_live_envelopes
  cap_live_envelope_queue messages limit =
      if leb (length messages) limit
      then messages
      else slice_last limit (sort_live_envelopes messages)

  unfoldable pub take_due_live_envelopes : List A → ℕ → DueLiveEnvelopes A
  unfolding sort_live_envelopes
  take_due_live_envelopes messages max_batch_size =
      let ordered = sort_live_envelopes messages in
      let n = max 1 max_batch_size in record { due = take n ordered; pending = drop n ordered }

  unfoldable pub next_live_envelope_delay_ms : List A → Option ℕ
  next_live_envelope_delay_ms [] = none
  next_live_envelope_delay_ms (m ∷ ms) = some 0
