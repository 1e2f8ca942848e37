-- ===== src/Live/Cursor/Again.antt =====
-- The same messages at the cursor that they led to (web/src/liveCursor.ts).
use mc_carto_live.Prelude.{
  ℕ, ◌≤◌, ◌≡◌, refl, sym, subst, ◌∙◌, false, List, [], ◌∷◌, arith, All, ltb,
}
use mc_carto_live.Prelude.Int.{ℤ, pos}
use mc_carto_live.Live.Wire.{Wire}
use mc_carto_live.Live.Cursor.{
  LiveEnvelopeSequence, durable, fallback, invalid, IncreasingLiveEnvelopeBatch,
  classify_live_envelope_sequence, take_one, take_loop, take_increasing_live_envelopes,
  retain_live_envelopes_after_cursor,
}
use mc_carto_live.Live.Cursor.Order.{Rises, Rises-le, durable_of, durables, take_increasing-Rises}
use mc_carto_live.Live.Cursor.Complete.{take_loop-Settled}

Rises-none : (lo : ℕ) (xs : List ℕ) → Rises lo xs lo → xs ≡ []
Rises-none lo [] r = refl
Rises-none lo (x ∷ xs) r = absurd (omega (arith, Rises-le x lo xs r.1))

lt_false : (hi n : ℕ) → n ≤ hi → ltb hi n ≡ false
lt_false hi n h = ground arith

module _ {A : Type 0} (wire : Wire A) where
  retain-step :
      (m : A) (ms : List A) (hi : ℕ) (c : LiveEnvelopeSequence)
      → classify_live_envelope_sequence wire m ≡ c
      → All (λ s. s ≤ hi) (durable_of c (durables wire ms))
      → (All (λ s. s ≤ hi) (durables wire ms)
          → durables wire (retain_live_envelopes_after_cursor wire ms hi) ≡ [])
      → durables wire (retain_live_envelopes_after_cursor wire (m ∷ ms) hi) ≡ []
  unfolding retain_live_envelopes_after_cursor
  retain-step m ms hi (durable n) e g ih = rw (e, lt_false hi n g.0) (ih g.1)
  retain-step m ms hi fallback e g ih = rw (e, e) (ih g)
  retain-step m ms hi invalid e g ih = rw e (ih g)

  retain-Settled :
      (ms : List A) (hi : ℕ)
      → All (λ s. s ≤ hi) (durables wire ms)
      → durables wire (retain_live_envelopes_after_cursor wire ms hi) ≡ []
  unfolding retain_live_envelopes_after_cursor
  retain-Settled [] hi h = refl
  retain-Settled (m ∷ ms) hi h =
      retain-step m ms hi (classify_live_envelope_sequence wire m) refl h (retain-Settled ms hi)

  take_one-Settled :
      (m : A) (c : LiveEnvelopeSequence) (b : IncreasingLiveEnvelopeBatch A) (xs : List ℕ)
      → All (λ s. s ≤ b.cursor) (durable_of c xs)
      → ((take_one wire c m b).cursor ≡ b.cursor) × All (λ s. s ≤ b.cursor) xs
  unfolding take_one
  take_one-Settled m (durable n) b xs h = (ground arith, h.1)
  take_one-Settled m fallback b xs h = (refl, h)
  take_one-Settled m invalid b xs h = (refl, h)

  again_cursor :
      (ms : List A) (b : IncreasingLiveEnvelopeBatch A)
      → All (λ s. s ≤ b.cursor) (durables wire ms)
      → (take_loop wire ms b).cursor ≡ b.cursor
  unfolding take_loop
  again_cursor [] b h = refl
  again_cursor (m ∷ ms) b h =
      let c = classify_live_envelope_sequence wire m in
      let (same, rest) = take_one-Settled m c b (durables wire ms) h in
      again_cursor ms (take_one wire c m b)
        (subst (λ k. All (λ s. s ≤ k) (durables wire ms)) (sym same) rest)
      ∙ same

  abbrev cursor_of : List A → ℤ → ℕ
  cursor_of messages after_seq = (take_increasing_live_envelopes wire messages after_seq).cursor

  settles :
      (messages : List A) (after_seq : ℤ)
      → All (λ s. s ≤ cursor_of messages after_seq) (durables wire messages)
  unfolding take_increasing_live_envelopes
  settles messages after_seq = take_loop-Settled wire messages _

  again_at :
      (messages : List A) (hi : ℕ)
      → All (λ s. s ≤ hi) (durables wire messages)
      → cursor_of messages (pos hi) ≡ hi
  unfolding take_increasing_live_envelopes
  again_at messages hi h = again_cursor messages _ h

  -- The same messages offered again at the cursor that they led to: no durable one is accepted, the
  -- cursor stays, and the queue's filter at that cursor keeps no durable one either.
  pub take_increasing-again :
      (messages : List A) (after_seq : ℤ)
      → let hi = (take_increasing_live_envelopes wire messages after_seq).cursor in
        let again = take_increasing_live_envelopes wire messages (pos hi) in
        (durables wire again.accepted ≡ [])
        × (again.cursor ≡ hi)
        × (durables wire (retain_live_envelopes_after_cursor wire messages hi) ≡ [])
  take_increasing-again messages after_seq =
      let settled = settles messages after_seq in
      let same = again_at messages (cursor_of messages after_seq) settled in
      (
        Rises-none _ _ (
            subst (Rises _ _) same
              (take_increasing-Rises wire messages (pos (cursor_of messages after_seq)))),
        same,
        retain-Settled messages (cursor_of messages after_seq) settled,
      )
