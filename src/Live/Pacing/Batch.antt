-- ===== src/Live/Pacing/Batch.antt =====
-- The queue feeding the cursor: a batch of `takeDueLiveEnvelopes` handed to
-- `takeIncreasingLiveEnvelopes`, as the client does on each flush.
use mc_carto_live.Prelude.{
  ℕ, zero, suc, ◌≤◌, ◌<◌, ◌≡◌, refl, sym, false, List, [], ◌∷◌, Option, none, some, arith, All,
  subst, ◌⊎◌,
}
use mc_carto_live.Prelude.Int.{JsNumber, int, other, pos, negsuc}
use mc_carto_live.Live.Wire.{Wire}
use mc_carto_live.Live.Cursor.{
  LiveEnvelopeSequence, durable, IncreasingLiveEnvelopeBatch, classify_seq,
  classify_live_envelope_sequence, take_one, take_loop, take_increasing_live_envelopes,
}
use mc_carto_live.Live.Cursor.Order.{durables}
use mc_carto_live.Live.Cursor.Complete.{Occurs, take_increasing_complete}
use mc_carto_live.Live.Pacing.{durable_sequence, seq_of, take_due_live_envelopes}
use mc_carto_live.Live.Pacing.Order.{IsDurable, Ascends, due-Ascends, due-All}

-- The two files agree on what a durable sequence number is.
classify-durable_sequence :
    (value : Option JsNumber)
    → 0 < durable_sequence value
    → classify_seq value ≡ durable (durable_sequence value)
unfolding classify_seq durable_sequence
classify-durable_sequence none h = absurd (omega arith)
classify-durable_sequence (some (int (pos zero))) h = absurd (ground arith)
classify-durable_sequence (some (int (pos (suc n)))) h = ground arith
classify-durable_sequence (some (int (negsuc n))) h = absurd (omega arith)
classify-durable_sequence (some other) h = absurd (omega arith)

module _ {A : Type 0} (wire : Wire A) where
  abbrev IsClear : IncreasingLiveEnvelopeBatch A → Type 0
  IsClear b = (b.non_monotonic ≡ false) × (b.invalid_seen ≡ false)

  take_one-IsClear :
      (m : A) (n : ℕ) (c : LiveEnvelopeSequence) (b : IncreasingLiveEnvelopeBatch A)
      → c ≡ durable n
      → b.cursor ≤ n
      → IsClear b
      → ((take_one wire c m b).cursor ≡ n) × IsClear (take_one wire c m b)
  unfolding take_one
  take_one-IsClear m n c b e h k = rw e (ground arith)

  take_loop-IsClear :
      (ms : List A) (b : IncreasingLiveEnvelopeBatch A)
      → All (IsDurable wire) ms
      → Ascends wire b.cursor ms
      → IsClear b
      → IsClear (take_loop wire ms b)
  unfolding take_loop classify_live_envelope_sequence
  take_loop-IsClear [] b d h k = k
  take_loop-IsClear (m ∷ ms) b d h k =
      let c = classify_seq (wire.seq m) in
      let step =
        take_one-IsClear m (seq_of wire m) c b (classify-durable_sequence (wire.seq m) d.0) h.0 k in
      take_loop-IsClear ms (take_one wire c m b) d.1
        (subst (λ n. Ascends wire n ms) (sym step.0) h.1) step.1

  -- Durable messages above the cursor, taken from the queue and handed to the cursor: the batch
  -- raises no flag, so every sequence number of it that is above the cursor is accepted, in whatever order
  -- the messages had come in.
  pub take_due-take_increasing :
      (lo max_batch_size : ℕ) (messages : List A)
      → All (IsDurable wire) messages
      → All (λ m. lo < seq_of wire m) messages
      → let due = (take_due_live_envelopes wire messages max_batch_size).due in
        let b = take_increasing_live_envelopes wire due (pos lo) in
        (b.non_monotonic ≡ false)
        × (b.invalid_seen ≡ false)
        × All (λ s. (s ≤ lo) ⊎ Occurs s (durables wire b.accepted)) (durables wire due)
  unfolding take_increasing_live_envelopes
  take_due-take_increasing lo max_batch_size messages d h =
      let due = (take_due_live_envelopes wire messages max_batch_size).due in
      let clear =
        take_loop-IsClear due _ (due-All wire max_batch_size messages d)
          (due-Ascends wire lo max_batch_size messages d h) (refl, refl) in
      (clear.0, clear.1, take_increasing_complete wire due (pos lo) clear.0)
