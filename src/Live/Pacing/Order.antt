-- ===== src/Live/Pacing/Order.antt =====
-- The order of the queue (web/src/livePacing.ts), and what it means for the cursor.
use mc_carto_live.Prelude.{
  ℕ, zero, suc, max, ◌≤◌, ◌<◌, ◌≡◌, true, false, List, [], ◌∷◌, arith, All, All-take, take,
}
use mc_carto_live.Prelude.Sort.{IsSorted, sort-IsSorted, sort-All}
use mc_carto_live.Live.Wire.{Wire}
use mc_carto_live.Live.Pacing.{
  seq_of, live_envelope_display_at, compare_live_envelopes, sort_live_envelopes,
  take_due_live_envelopes,
}

module _ {A : Type 0} (wire : Wire A) where
  abbrev pub IsDurable : A → Type 0
  IsDurable m = 0 < seq_of wire m

  abbrev pub Ascends : ℕ → List A → Type 0
  Ascends lo [] = Unit {0}
  Ascends lo (m ∷ ms) = (lo ≤ seq_of wire m) × Ascends (seq_of wire m) ms

  durable_total :
      (a b : A)
      → IsDurable a
      → IsDurable b
      → compare_live_envelopes wire a b ≡ false
      → compare_live_envelopes wire b a ≡ true
  unfolding compare_live_envelopes
  durable_total a b ha hb h = ground arith

  durable_le :
      (a b : A)
      → IsDurable a
      → IsDurable b
      → compare_live_envelopes wire a b ≡ true
      → seq_of wire a ≤ seq_of wire b
  unfolding compare_live_envelopes
  durable_le a b ha hb h = ground arith

  Ascends-sorted :
      (a : A) (ms : List A)
      → IsDurable a
      → All IsDurable ms
      → IsSorted (compare_live_envelopes wire) (a ∷ ms)
      → Ascends (seq_of wire a) ms
  Ascends-sorted a [] p d s = tt
  Ascends-sorted a (b ∷ ms) p d s = (durable_le a b p d.0 s.0, Ascends-sorted b ms d.0 d.1 s.1)

  Ascends-from :
      (lo : ℕ) (ms : List A)
      → All IsDurable ms
      → All (λ m. lo < seq_of wire m) ms
      → IsSorted (compare_live_envelopes wire) ms
      → Ascends lo ms
  Ascends-from lo [] d h s = tt
  Ascends-from lo (m ∷ ms) d h s = (omega (arith, h.0), Ascends-sorted m ms d.0 d.1 s)

  Ascends-take : (n lo : ℕ) (ms : List A) → Ascends lo ms → Ascends lo (take n ms)
  Ascends-take zero lo ms h = tt
  Ascends-take (suc n) lo [] h = tt
  Ascends-take (suc n) lo (m ∷ ms) h = (h.0, Ascends-take n (seq_of wire m) ms h.1)

  pub due-All :
      (max_batch_size : ℕ) (messages : List A)
      → All IsDurable messages
      → All IsDurable (take_due_live_envelopes wire messages max_batch_size).due
  unfolding take_due_live_envelopes sort_live_envelopes
  due-All max_batch_size messages d =
      All-take IsDurable (max 1 max_batch_size) _
        (sort-All (compare_live_envelopes wire) IsDurable messages d)

  -- A batch taken from durable messages above `lo` is in ascending order of their sequence numbers.
  pub due-Ascends :
      (lo max_batch_size : ℕ) (messages : List A)
      → All IsDurable messages
      → All (λ m. lo < seq_of wire m) messages
      → Ascends lo (take_due_live_envelopes wire messages max_batch_size).due
  unfolding take_due_live_envelopes sort_live_envelopes
  due-Ascends lo max_batch_size messages d h =
      let le = compare_live_envelopes wire in
      Ascends-take (max 1 max_batch_size) lo _ (
        Ascends-from lo _ (sort-All le IsDurable messages d)
          (sort-All le (λ m. lo < seq_of wire m) messages h)
          (sort-IsSorted le IsDurable durable_total messages d))

  -- The comparison is no order when envelopes without a sequence number wait among durable ones:
  -- an envelope that arrives between two durable ones that came out of order closes a cycle, each
  -- of the three strictly before the next.
  pub compare_live_envelopes-cycle :
      (late early between : A)
      → 0 < seq_of wire early
      → seq_of wire early < seq_of wire late
      → seq_of wire between ≡ 0
      → live_envelope_display_at wire late < live_envelope_display_at wire between
      → live_envelope_display_at wire between < live_envelope_display_at wire early
      → (compare_live_envelopes wire between late ≡ false)
        × (compare_live_envelopes wire early between ≡ false)
        × (compare_live_envelopes wire late early ≡ false)
  unfolding compare_live_envelopes
  compare_live_envelopes-cycle late early between p q r s t = ground arith
