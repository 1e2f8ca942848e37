-- ===== src/Live/Cursor/Order.antt =====
-- What `takeIncreasingLiveEnvelopes` accepts (web/src/liveCursor.ts).
use mc_carto_live.Prelude.{ℕ, ◌≤◌, ◌<◌, ◌≡◌, refl, ap, ◌∙◌, ◌++◌, List, [], ◌∷◌, arith}
use mc_carto_live.Prelude.Int.{ℤ}
use mc_carto_live.Live.Wire.{Wire}
use mc_carto_live.Live.Cursor.{
  LiveEnvelopeSequence, durable, fallback, invalid, IncreasingLiveEnvelopeBatch, max_zero,
  classify_live_envelope_sequence, take_one, take_loop, take_increasing_live_envelopes,
}

-- The numbers rise from `lo`, and the last of them is `hi`; with none, `hi` is `lo`.
abbrev pub Rises : ℕ → List ℕ → ℕ → Type 0
Rises lo [] hi = lo ≡ hi
Rises lo (x ∷ xs) hi = (lo < x) × Rises x xs hi

Rises-push : (lo mid s : ℕ) (xs : List ℕ) → Rises lo xs mid → mid < s → Rises lo (xs ++ s ∷ []) s
Rises-push lo mid s [] r h = (omega arith, refl)
Rises-push lo mid s (x ∷ xs) r h = (r.0, Rises-push x mid s xs r.1 h)

pub Rises-le : (lo hi : ℕ) (xs : List ℕ) → Rises lo xs hi → lo ≤ hi
Rises-le lo hi [] r = omega arith
Rises-le lo hi (x ∷ xs) r = omega (arith, Rises-le x hi xs r.1)

abbrev pub durable_of : LiveEnvelopeSequence → List ℕ → List ℕ
durable_of (durable s) xs = s ∷ xs
durable_of fallback xs = xs
durable_of invalid xs = xs

durable_of-append :
    (c : LiveEnvelopeSequence) (xs ys : List ℕ) → durable_of c (xs ++ ys) ≡ durable_of c xs ++ ys
durable_of-append (durable s) xs ys = refl
durable_of-append fallback xs ys = refl
durable_of-append invalid xs ys = refl

module _ {A : Type 0} (wire : Wire A) where
  -- The durable sequence numbers of a list of messages, in its order.
  abbrev pub durables : List A → List ℕ
  durables [] = []
  durables (m ∷ ms) = durable_of (classify_live_envelope_sequence wire m) (durables ms)

  pub durables-append : (xs ys : List A) → durables (xs ++ ys) ≡ durables xs ++ durables ys
  durables-append [] ys = refl
  durables-append (m ∷ ms) ys =
      ap (durable_of (classify_live_envelope_sequence wire m)) (durables-append ms ys)
      ∙ durable_of-append (classify_live_envelope_sequence wire m) (durables ms) (durables ys)

  abbrev pub Ordered : ℕ → IncreasingLiveEnvelopeBatch A → Type 0
  Ordered lo b = Rises lo (durables b.accepted) b.cursor

  pub durables-push :
      (xs : List A) (m : A) (c : LiveEnvelopeSequence)
      → classify_live_envelope_sequence wire m ≡ c
      → durables (xs ++ m ∷ []) ≡ durables xs ++ durable_of c []
  durables-push xs m c e = rw (durables-append xs (m ∷ []), e)

  append_none : (xs : List ℕ) → xs ++ [] ≡ xs
  append_none [] = refl
  append_none (x ∷ xs) = ap (◌∷◌ x) (append_none xs)

  pub take_one-Ordered :
      (lo : ℕ) (m : A) (c : LiveEnvelopeSequence) (b : IncreasingLiveEnvelopeBatch A)
      → classify_live_envelope_sequence wire m ≡ c
      → Ordered lo b
      → Ordered lo (take_one wire c m b)
  unfolding take_one
  take_one-Ordered lo m (durable s) b e h = ground (
    arith,
    durables-push b.accepted m (durable s) e,
    Rises-push lo b.cursor s (durables b.accepted) h,
  )
  take_one-Ordered lo m fallback b e h = rw (durables-push b.accepted m fallback e, append_none) h
  take_one-Ordered lo m invalid b e h = h

  take_loop-Ordered :
      (lo : ℕ) (ms : List A) (b : IncreasingLiveEnvelopeBatch A)
      → Ordered lo b
      → Ordered lo (take_loop wire ms b)
  unfolding take_loop
  take_loop-Ordered lo [] b h = h
  take_loop-Ordered lo (m ∷ ms) b h =
      take_loop-Ordered lo ms _
        (take_one-Ordered lo m (classify_live_envelope_sequence wire m) b refl h)

  -- The durable sequence numbers of the accepted envelopes rise strictly from the cursor that the
  -- batch starts at (0 for a negative one), and the batch's cursor is the last of them, or the
  -- start if there is none.
  pub take_increasing-Rises :
      (messages : List A) (after_seq : ℤ)
      → let b = take_increasing_live_envelopes wire messages after_seq in
        Rises (max_zero after_seq) (durables b.accepted) b.cursor
  unfolding take_increasing_live_envelopes
  take_increasing-Rises messages after_seq = take_loop-Ordered (max_zero after_seq) messages _ refl
