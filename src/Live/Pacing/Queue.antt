-- ===== src/Live/Pacing/Queue.antt =====
-- The queue loses nothing, and stays within its limits (web/src/livePacing.ts).
use mathlib.Core.List.{Perm}
use mathlib.Core.List.Perm
use mc_carto_live.Prelude.{
  ℕ, ◌-◌, ◌<◌, ◌≡◌, inl, inr, ◌++◌, min, max, List, arith, tests, leb→le, [], ◌==◌, false,
  Bool-cases, leb, length-take, length, take, subst, sym, take-append-drop, length-drop,
}
use mc_carto_live.Prelude.Sort.{sort-perm, length-sort}
use mc_carto_live.Live.Wire.{Wire}
use mc_carto_live.Live.Pacing.{
  compare_live_envelopes, sort_live_envelopes, cap_live_envelope_queue, take_due_live_envelopes,
}

positive : (n : ℕ) → 0 < n → (n == 0) ≡ false
positive n h = ground arith

not_leb : {a b : ℕ} → leb a b ≡ false → b < a
not_leb h = ground arith

module _ {A : Type 0} (wire : Wire A) (messages : List A) where
  -- A batch and what stays behind are together the messages that were there, each as often, and
  -- the batch has as many of them as fit: `maxBatchSize`, or one if that is 0.
  pub take_due-perm :
      (max_batch_size : ℕ)
      → let r = take_due_live_envelopes wire messages max_batch_size in
        Perm (r.due ++ r.pending) messages
        × (length r.due ≡ min (max 1 max_batch_size) (length messages))
  unfolding take_due_live_envelopes sort_live_envelopes
  take_due-perm max_batch_size =
      let ordered = sort_live_envelopes wire messages in
      let n = max 1 max_batch_size in
      (
        subst (λ xs. Perm xs messages) (sym (take-append-drop n ordered))
            (sort-perm (compare_live_envelopes wire) messages),
        omega (arith, length-take n ordered, length-sort (compare_live_envelopes wire) messages),
      )

  -- For a positive limit the capped queue has as many messages as fit, and those that it drops
  -- are, with it, all that were there.
  pub cap_live_envelope_queue-bounds :
      (limit : ℕ)
      → 0 < limit
      → let kept = cap_live_envelope_queue wire messages limit in
        (length kept ≡ min limit (length messages))
        × ((dropped : List A) × Perm (dropped ++ kept) messages)
  unfolding cap_live_envelope_queue sort_live_envelopes
  cap_live_envelope_queue-bounds limit h =
      let ordered = sort_live_envelopes wire messages in
      let n = length ordered - limit in
      elim (Bool-cases (leb (length messages) limit)) [
        | inl fits ↦ rw fits (omega (tests, leb→le _ _ fits), ([], Perm.refl messages))
        | inr long ↦
            rw (long, positive limit h)
              (
                omega (
                  tests,
                  length-drop n ordered,
                  length-sort (compare_live_envelopes wire) messages,
                  not_leb long,
                ),
                (
                  take n ordered,
                  subst (λ xs. Perm xs messages) (sym (take-append-drop n ordered))
                      (sort-perm (compare_live_envelopes wire) messages),
                ),
              )
      ]
