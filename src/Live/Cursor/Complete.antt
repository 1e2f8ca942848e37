-- ===== src/Live/Cursor/Complete.antt =====
-- What `takeIncreasingLiveEnvelopes` does not accept, and why (web/src/liveCursor.ts).
use mc_carto_live.Prelude.{
  ℕ, ◌≤◌, ◌≡◌, refl, sym, subst, ◌⊎◌, inl, inr, ◌++◌, false, List, [], ◌∷◌, arith, All,
}
use mc_carto_live.Prelude.Int.{ℤ}
use mc_carto_live.Live.Wire.{Wire}
use mc_carto_live.Live.Cursor.{
  LiveEnvelopeSequence, durable, fallback, invalid, IncreasingLiveEnvelopeBatch, max_zero,
  classify_live_envelope_sequence, take_one, take_loop, take_increasing_live_envelopes,
}
use mc_carto_live.Live.Cursor.Order.{
  Rises, durable_of, durables, durables-append, durables-push, Ordered, take_one-Ordered,
}

abbrev pub Occurs : ℕ → List ℕ → Type 0
Occurs s [] = ⊥
Occurs s (x ∷ xs) = (s ≡ x) ⊎ Occurs s xs

Occurs-append : (s : ℕ) (xs ys : List ℕ) → Occurs s xs → Occurs s (xs ++ ys)
Occurs-append s [] ys h = absurd h
Occurs-append s (x ∷ xs) ys (inl e) = inl e
Occurs-append s (x ∷ xs) ys (inr h) = inr (Occurs-append s xs ys h)

Occurs-push : (s : ℕ) (xs : List ℕ) → Occurs s (xs ++ s ∷ [])
Occurs-push s [] = inl refl
Occurs-push s (x ∷ xs) = inr (Occurs-push s xs)

Rises-Occurs : (lo hi : ℕ) (xs : List ℕ) → Rises lo xs hi → (lo ≡ hi) ⊎ Occurs hi xs
Rises-Occurs lo hi [] r = inl r
Rises-Occurs lo hi (x ∷ xs) r = elim (Rises-Occurs x hi xs r.1) [
  | inl e ↦ inr (inl (sym e))
  | inr o ↦ inr (inr o)
]

module _ {A : Type 0} (wire : Wire A) where
  -- A round keeps the accepted messages, or adds its own at the end.
  take_one-accepted :
      (m : A) (c : LiveEnvelopeSequence) (b : IncreasingLiveEnvelopeBatch A)
      → ((take_one wire c m b).accepted ≡ b.accepted)
        ⊎ ((take_one wire c m b).accepted ≡ b.accepted ++ m ∷ [])
  unfolding take_one
  take_one-accepted m (durable n) b = ground arith
  take_one-accepted m fallback b = inr refl
  take_one-accepted m invalid b = inl refl

  take_one-Occurs :
      (s : ℕ) (m : A) (c : LiveEnvelopeSequence) (b : IncreasingLiveEnvelopeBatch A)
      → Occurs s (durables wire b.accepted)
      → Occurs s (durables wire (take_one wire c m b).accepted)
  take_one-Occurs s m c b h = elim (take_one-accepted m c b) [
    | inl e ↦ rw e h
    | inr e ↦
        rw (e, durables-append wire b.accepted (m ∷ []))
          (Occurs-append s (durables wire b.accepted) _ h)
  ]

  take_one-cursor :
      (m : A) (c : LiveEnvelopeSequence) (b : IncreasingLiveEnvelopeBatch A)
      → (b.cursor ≤ (take_one wire c m b).cursor)
        × ((take_one wire c m b).non_monotonic ≡ false → b.non_monotonic ≡ false)
  unfolding take_one
  take_one-cursor m (durable n) b = ground arith
  take_one-cursor m fallback b = (omega arith, λ h. h)
  take_one-cursor m invalid b = (omega arith, λ h. h)

  take_one-reaches :
      (n : ℕ) (m : A) (c : LiveEnvelopeSequence) (b : IncreasingLiveEnvelopeBatch A)
      → c ≡ durable n
      → n ≤ (take_one wire c m b).cursor
  unfolding take_one
  take_one-reaches n m c b e = rw e (ground arith)

  take_loop-Occurs :
      (s : ℕ) (ms : List A) (b : IncreasingLiveEnvelopeBatch A)
      → Occurs s (durables wire b.accepted)
      → Occurs s (durables wire (take_loop wire ms b).accepted)
  unfolding take_loop
  take_loop-Occurs s [] b h = h
  take_loop-Occurs s (m ∷ ms) b h =
      take_loop-Occurs s ms _ (take_one-Occurs s m (classify_live_envelope_sequence wire m) b h)

  take_loop-cursor :
      (ms : List A) (b : IncreasingLiveEnvelopeBatch A)
      → (b.cursor ≤ (take_loop wire ms b).cursor)
        × ((take_loop wire ms b).non_monotonic ≡ false → b.non_monotonic ≡ false)
  unfolding take_loop
  take_loop-cursor [] b = (omega arith, λ h. h)
  take_loop-cursor (m ∷ ms) b =
      let c = classify_live_envelope_sequence wire m in
      let one = take_one-cursor m c b in
      let rest = take_loop-cursor ms (take_one wire c m b) in (omega arith, λ h. one.1 (rest.1 h))

  abbrev Known : ℕ → List ℕ → ℕ → Type 0
  Known lo xs s = (s ≤ lo) ⊎ Occurs s xs

  -- After its own round a durable message is known, unless the flag went up.
  take_one-Known :
      (lo n : ℕ) (m : A) (b : IncreasingLiveEnvelopeBatch A)
      → classify_live_envelope_sequence wire m ≡ durable n
      → Ordered wire lo b
      → (take_one wire (durable n) m b).non_monotonic ≡ false
      → Known lo (durables wire (take_one wire (durable n) m b).accepted) n
  unfolding take_one
  take_one-Known lo n m b e h flag = ground (
    arith,
    durables-push wire b.accepted m (durable n) e,
    Occurs-push n (durables wire b.accepted),
    Rises-Occurs lo b.cursor (durables wire b.accepted) h,
  )

  All-durable_of :
      (P : ℕ → Type 0) (c : LiveEnvelopeSequence) (xs : List ℕ)
      → ((n : ℕ) → c ≡ durable n → P n)
      → All P xs
      → All P (durable_of c xs)
  All-durable_of P (durable n) xs h r = (h n refl, r)
  All-durable_of P fallback xs h r = r
  All-durable_of P invalid xs h r = r

  take_loop-Known :
      (lo : ℕ) (ms : List A) (b : IncreasingLiveEnvelopeBatch A)
      → Ordered wire lo b
      → (take_loop wire ms b).non_monotonic ≡ false
      → All (Known lo (durables wire (take_loop wire ms b).accepted)) (durables wire ms)
  unfolding take_loop
  take_loop-Known lo [] b h flag = tt
  take_loop-Known lo (m ∷ ms) b h flag =
      All-durable_of _ c (durables wire ms) late
        (take_loop-Known lo ms (take_one wire c m b) (take_one-Ordered wire lo m c b refl h) flag)
    where
      c : LiveEnvelopeSequence
      c = classify_live_envelope_sequence wire m

      known : (n : ℕ) → c ≡ durable n → Known lo (durables wire (take_one wire c m b).accepted) n
      known n e =
          subst (λ d. Known lo (durables wire (take_one wire d m b).accepted) n) (sym e)
            (take_one-Known lo n m b e h (
              subst (λ d. (take_one wire d m b).non_monotonic ≡ false) e
                ((take_loop-cursor ms (take_one wire c m b)).1 flag)))

      late :
          (n : ℕ)
          → c ≡ durable n
          → Known lo (durables wire (take_loop wire ms (take_one wire c m b)).accepted) n
      late n e = elim (known n e) [
        | inl below ↦ inl below
        | inr here ↦ inr (take_loop-Occurs n ms (take_one wire c m b) here)
      ]

  -- If no sequence number fell back below the cursor, every durable message of the batch is at or
  -- below the cursor that the batch started at, or its sequence number is among the accepted ones:
  -- nothing new is dropped.
  pub take_increasing_complete :
      (messages : List A) (after_seq : ℤ)
      → (take_increasing_live_envelopes wire messages after_seq).non_monotonic ≡ false
      → let b = take_increasing_live_envelopes wire messages after_seq in
        All
          (λ s. (s ≤ max_zero after_seq) ⊎ Occurs s (durables wire b.accepted))
          (durables wire messages)
  unfolding take_increasing_live_envelopes
  take_increasing_complete messages after_seq flag =
      take_loop-Known (max_zero after_seq) messages _ refl flag

  pub take_loop-Settled :
      (ms : List A) (b : IncreasingLiveEnvelopeBatch A)
      → All (λ s. s ≤ (take_loop wire ms b).cursor) (durables wire ms)
  unfolding take_loop
  take_loop-Settled [] b = tt
  take_loop-Settled (m ∷ ms) b =
      All-durable_of _ c (durables wire ms) seen (take_loop-Settled ms (take_one wire c m b))
    where
      c : LiveEnvelopeSequence
      c = classify_live_envelope_sequence wire m

      seen : (n : ℕ) → c ≡ durable n → n ≤ (take_loop wire ms (take_one wire c m b)).cursor
      seen n e =
          omega (arith, take_one-reaches n m c b e, (take_loop-cursor ms (take_one wire c m b)).0)
