-- ===== src/State/Reduce/Replay.antt =====
-- An envelope that comes a second time changes nothing (web/src/state.ts): its sequence number is
-- among the remembered ones.
use mc_carto_live.Prelude.{
  ℕ, zero, suc, ◌-◌, ◌≤◌, ◌<◌, ◌≡◌, refl, sym, ap, ◌∙◌, subst, Bool, true, Option, none, some, List,
  [], ◌∷◌, ◌++◌, arith, length, length-append, drop, Bool-cases, inl, inr,
}
use mc_carto_live.Prelude.JsSet
use mc_carto_live.Types.{
  PublicActivity, PublicRoutePulse, PublicLiveEnvelope, EnvelopeBody, hello, pong, lagged,
  node_update, activity, route_pulse, unknown_event, unknown_type,
}
use mc_carto_live.State.Model.{AppState, with_latest_seq, remember_seq, is_seen, includes}
use mc_carto_live.State.Reduce.Monotone.{apply_public_envelopes-IsLater}
use mc_carto_live.State.Reduce.{
  Reduction, mark, with_node, apply_node_update, with_activity, apply_activity,
  apply_non_route_envelope, accept_pulse, apply_pulse, apply_route_pulse, apply_message,
  reduce_messages, start_reduction, finish_reduction, apply_public_envelopes, unless_seen,
  reported_seq, reported_or_known, has_activity, activity_with_timing, pulse_with_timing,
}

includes-drop : (k n : ℕ) (xs : List ℕ) → k ≤ length xs → includes n (drop k (xs ++ n ∷ [])) ≡ true
includes-drop zero n [] h = ground arith
includes-drop zero n (x ∷ xs) h = ground (arith, includes-drop zero n xs (omega arith))
includes-drop (suc k) n [] h = absurd (omega arith)
includes-drop (suc k) n (x ∷ xs) h = includes-drop k n xs (omega arith)

-- The sequence number is no news for the state.
abbrev IsOld : Option ℕ → AppState → Type 0
IsOld none s = Unit {0}
IsOld (some n) s = n ≤ s.latest_seq

with_latest_seq-IsOld : (o : Option ℕ) (s : AppState) → IsOld o (with_latest_seq s o)
unfolding with_latest_seq
with_latest_seq-IsOld none s = tt
with_latest_seq-IsOld (some n) s = ground arith

IsOld-with_latest_seq : (o : Option ℕ) (s : AppState) → IsOld o s → with_latest_seq s o ≡ s
unfolding with_latest_seq
IsOld-with_latest_seq none s h = refl
IsOld-with_latest_seq (some n) s h = ground arith

IsOld-latest : (o : Option ℕ) (s t : AppState) → t.latest_seq ≡ s.latest_seq → IsOld o s → IsOld o t
IsOld-latest none s t e h = tt
IsOld-latest (some n) s t e h = omega arith

remember_seq-latest : (s : AppState) (o : Option ℕ) → (remember_seq s o).latest_seq ≡ s.latest_seq
unfolding remember_seq
remember_seq-latest s none = refl
remember_seq-latest s (some n) = ground arith

with_latest_seq-seen : (s : AppState) (o : Option ℕ) → (with_latest_seq s o).seen_seqs ≡ s.seen_seqs
unfolding with_latest_seq
with_latest_seq-seen s none = refl
with_latest_seq-seen s (some n) = ground arith

remember_seq-seen :
    (s : AppState) (n : ℕ) → 0 < n → is_seen (some n) (remember_seq s (some n)).seen_seqs ≡ true
unfolding remember_seq is_seen
remember_seq-seen s n h = elim (Bool-cases (includes n s.seen_seqs)) [
  | inl old ↦ ground (arith, old)
  | inr new ↦
      let kept =
        includes-drop (length (s.seen_seqs ++ n ∷ []) - 1000) n s.seen_seqs
          (omega (arith, length-append s.seen_seqs (n ∷ []))) in
      ground (arith, new, kept)
]

module _ (m : PublicLiveEnvelope) (n : ℕ) (numbered : m.seq ≡ some n) (positive : 0 < n) where
  -- The state has seen the envelope.
  abbrev Knows : AppState → Type 0
  Knows s = (is_seen m.seq s.seen_seqs ≡ true) × IsOld (reported_seq m) s

  reported-known : (s : AppState) → reported_or_known m s ≡ reported_seq m
  reported-known s = ground (arith, numbered)

  remembered-Knows : (s : AppState) → IsOld (reported_seq m) s → Knows (remember_seq s m.seq)
  remembered-Knows s h = (
    subst (λ o. is_seen o (remember_seq s o).seen_seqs ≡ true) (sym numbered)
        (remember_seq-seen s n positive),
    IsOld-latest (reported_seq m) s (remember_seq s m.seq) (remember_seq-latest s m.seq) h,
  )

  known-IsOld : (s : AppState) → IsOld (reported_seq m) (with_latest_seq s (reported_or_known m s))
  known-IsOld s =
      subst (λ o. IsOld o (with_latest_seq s (reported_or_known m s))) (reported-known s)
        (with_latest_seq-IsOld (reported_or_known m s) s)

  mark-Knows : (s : AppState) → Knows (mark m s)
  unfolding mark
  mark-Knows s = remembered-Knows _ (known-IsOld s)

  seen-Knows :
      (s : AppState) → is_seen m.seq s.seen_seqs ≡ true → Knows (with_latest_seq s (reported_seq m))
  seen-Knows s h = (
    ap (is_seen m.seq) (with_latest_seq-seen s (reported_seq m)) ∙ h,
    with_latest_seq-IsOld (reported_seq m) s,
  )

  unless_seen-Knows : (s t : AppState) → Knows t → Knows (unless_seen s m t)
  unless_seen-Knows s t k = elim (Bool-cases (is_seen m.seq s.seen_seqs)) [
    | inl seen ↦ rw seen (seen-Knows s seen)
    | inr new ↦ rw new k
  ]

  apply_activity-Knows :
      (s : AppState) (a : PublicActivity) (animate : Bool) → Knows (apply_activity s m a animate)
  unfolding apply_activity
  apply_activity-Knows s a animate = elim (Bool-cases (has_activity a.id s.activity)) [
    | inl old ↦ rw old (mark-Knows s)
    | inr new ↦ rw new (mark-Knows (with_activity s m (activity_with_timing a m) animate))
  ]

  apply_pulse-Knows :
      (r : Reduction) (p : PublicRoutePulse) (animate : Bool)
      → Knows (apply_pulse r m p animate).next
  unfolding apply_pulse
  apply_pulse-Knows r p animate = elim (Bool-cases (JsSet.has p.id r.pulse_ids)) [
    | inl old ↦ rw old (remembered-Knows _ (with_latest_seq-IsOld (reported_seq m) r.next))
    | inr new ↦ rw new (mark-Knows (accept_pulse r.next m p animate))
  ]

  apply_route_pulse-Knows :
      (r : Reduction) (p : PublicRoutePulse) (animate : Bool)
      → Knows (apply_route_pulse r m p animate).next
  unfolding apply_route_pulse
  apply_route_pulse-Knows r p animate = elim (Bool-cases (is_seen m.seq r.next.seen_seqs)) [
    | inl seen ↦ rw seen (seen-Knows r.next seen)
    | inr new ↦ rw new (apply_pulse-Knows r (pulse_with_timing p m) animate)
  ]

  -- A state that has reported all that a message reports.
  quiet : (s : AppState) → IsOld (reported_seq m) s → with_latest_seq s (reported_or_known m s) ≡ s
  quiet s h = ap (with_latest_seq s) (reported-known s) ∙ IsOld-with_latest_seq (reported_seq m) s h

  module _ (log_ratio : ℕ → ℕ → ℕ) where
    -- One message with this body.
    abbrev step : AppState → Bool → EnvelopeBody → AppState
    step s animate body =
        let r = apply_message (start_reduction s) m animate body in
        finish_reduction log_ratio r.next r.accepted_pulses

    finish_reduction-Knows :
        (s : AppState) (ps : List PublicRoutePulse)
        → Knows s
        → Knows (finish_reduction log_ratio s ps)
    unfolding finish_reduction
    finish_reduction-Knows s [] k = k
    finish_reduction-Knows s (p ∷ ps) k = (k.0, IsOld-latest (reported_seq m) s _ refl k.1)

    step-known :
        (s : AppState) (animate : Bool) (body : EnvelopeBody) → Knows s → step s animate body ≡ s
    unfolding apply_message apply_non_route_envelope apply_route_pulse finish_reduction
    step-known s animate hello k = quiet s k.1
    step-known s animate pong k = quiet s k.1
    step-known s animate lagged k = quiet s k.1
    step-known s animate (node_update x) k = rw k.0 (IsOld-with_latest_seq (reported_seq m) s k.1)
    step-known s animate (activity x) k = rw k.0 (IsOld-with_latest_seq (reported_seq m) s k.1)
    step-known s animate (route_pulse x) k = rw k.0 (IsOld-with_latest_seq (reported_seq m) s k.1)
    step-known s animate unknown_event k = rw k.0 (IsOld-with_latest_seq (reported_seq m) s k.1)
    step-known s animate unknown_type k = refl

    step-again :
        (s : AppState) (first second : Bool) (body : EnvelopeBody)
        → step (step s first body) second body ≡ step s first body
    unfolding apply_message apply_non_route_envelope apply_node_update finish_reduction
    step-again s first second hello = quiet _ (known-IsOld s)
    step-again s first second pong = quiet _ (known-IsOld s)
    step-again s first second lagged = quiet _ (known-IsOld s)
    step-again s first second (node_update x) =
        step-known _ second (node_update x) (unless_seen-Knows s _ (mark-Knows (with_node s x)))
    step-again s first second (activity x) =
        step-known _ second (activity x) (unless_seen-Knows s _ (apply_activity-Knows s x first))
    step-again s first second (route_pulse x) =
        step-known _ second (route_pulse x)
          (finish_reduction-Knows _ _ (apply_route_pulse-Knows (start_reduction s) x first))
    step-again s first second unknown_event = elim (Bool-cases (is_seen m.seq s.seen_seqs)) [
      | inl seen ↦
          rw seen (
            step-known (with_latest_seq s (reported_seq m)) second unknown_event
              (seen-Knows s seen))
      | inr new ↦ rw new (rw new refl)
    ]
    step-again s first second unknown_type = refl

    -- An envelope with a positive sequence number changes nothing when it comes again right after, live or
    -- recovered, each as a batch of its own: the state after it is the state after the two.
    pub apply_public_envelopes_again :
        (s : AppState) (first second : Bool)
        → apply_public_envelopes log_ratio
            (apply_public_envelopes log_ratio s (m ∷ []) first)
            (m ∷ [])
            second
          ≡ apply_public_envelopes log_ratio s (m ∷ []) first
    unfolding apply_public_envelopes reduce_messages
    apply_public_envelopes_again s first second = step-again s first second m.body

    -- After a message that the state remembers, the state has reported it.
    step-IsOld :
        (s : AppState) (animate : Bool) (body : EnvelopeBody)
        → (body ≡ unknown_type → ⊥)
        → is_seen m.seq (step s animate body).seen_seqs ≡ true
        → IsOld (reported_seq m) (step s animate body)
    unfolding apply_message apply_non_route_envelope apply_node_update finish_reduction
    step-IsOld s animate hello typed h = known-IsOld s
    step-IsOld s animate pong typed h = known-IsOld s
    step-IsOld s animate lagged typed h = known-IsOld s
    step-IsOld s animate (node_update x) typed h =
        (unless_seen-Knows s _ (mark-Knows (with_node s x))).1
    step-IsOld s animate (activity x) typed h =
        (unless_seen-Knows s _ (apply_activity-Knows s x animate)).1
    step-IsOld s animate (route_pulse x) typed h =
        (finish_reduction-Knows _ _ (apply_route_pulse-Knows (start_reduction s) x animate)).1
    step-IsOld s animate unknown_event typed h = elim (Bool-cases (is_seen m.seq s.seen_seqs)) [
      | inl seen ↦ rw seen (with_latest_seq-IsOld (reported_seq m) s)
      | inr new ↦ absurd (ground (arith, new, rw new at h))
    ]
    step-IsOld s animate unknown_type typed h = absurd (typed refl)

    IsOld-IsLater :
        (o : Option ℕ) (s t : AppState) → s.latest_seq ≤ t.latest_seq → IsOld o s → IsOld o t
    IsOld-IsLater none s t le h = tt
    IsOld-IsLater (some k) s t le h = omega (arith, le, h)

    step-later :
        (s t : AppState) (first second : Bool) (body : EnvelopeBody)
        → is_seen m.seq (step s first body).seen_seqs ≡ true
        → is_seen m.seq t.seen_seqs ≡ true
        → (step s first body).latest_seq ≤ t.latest_seq
        → step t second body ≡ t
    unfolding finish_reduction apply_message
    step-later s t first second body before still le = typed body before le
      where
        known :
            (b : EnvelopeBody)
            → (b ≡ unknown_type → ⊥)
            → is_seen m.seq (step s first b).seen_seqs ≡ true
            → (step s first b).latest_seq ≤ t.latest_seq
            → step t second b ≡ t
        known b is_typed h l = step-known t second b (
          still,
          IsOld-IsLater (reported_seq m) (step s first b) t l (step-IsOld s first b is_typed h),
        )

        typed :
            (b : EnvelopeBody)
            → is_seen m.seq (step s first b).seen_seqs ≡ true
            → (step s first b).latest_seq ≤ t.latest_seq
            → step t second b ≡ t
        typed hello h l = known hello (λ e. cc) h l
        typed pong h l = known pong (λ e. cc) h l
        typed lagged h l = known lagged (λ e. cc) h l
        typed (node_update x) h l = known (node_update x) (λ e. cc) h l
        typed (activity x) h l = known (activity x) (λ e. cc) h l
        typed (route_pulse x) h l = known (route_pulse x) (λ e. cc) h l
        typed unknown_event h l = known unknown_event (λ e. cc) h l
        typed unknown_type h l = refl

    -- An envelope with a positive sequence number that is remembered after it, and still is after any batch of
    -- other envelopes, changes nothing when it comes again then, live or recovered.
    pub apply_public_envelopes-later :
        (s : AppState) (between : List PublicLiveEnvelope) (first middle second : Bool)
        → is_seen m.seq (apply_public_envelopes log_ratio s (m ∷ []) first).seen_seqs ≡ true
        → is_seen m.seq
            (apply_public_envelopes log_ratio
              (apply_public_envelopes log_ratio s (m ∷ []) first)
              between
              middle).seen_seqs
          ≡ true
        → apply_public_envelopes log_ratio
            (apply_public_envelopes log_ratio
              (apply_public_envelopes log_ratio s (m ∷ []) first)
              between
              middle)
            (m ∷ [])
            second
          ≡ apply_public_envelopes log_ratio
              (apply_public_envelopes log_ratio s (m ∷ []) first)
              between
              middle
    apply_public_envelopes-later s between first middle second before still =
        let after : AppState = apply_public_envelopes log_ratio s (m ∷ []) first in
        one-again (apply_public_envelopes log_ratio after between middle) before still
          (apply_public_envelopes-IsLater log_ratio after between middle).seq
      where
        one-again :
            (t : AppState)
            → is_seen m.seq (apply_public_envelopes log_ratio s (m ∷ []) first).seen_seqs ≡ true
            → is_seen m.seq t.seen_seqs ≡ true
            → (apply_public_envelopes log_ratio s (m ∷ []) first).latest_seq ≤ t.latest_seq
            → apply_public_envelopes log_ratio t (m ∷ []) second ≡ t
        one-again t h k le =
            unfold apply_public_envelopes reduce_messages in
            step-later s t first second m.body h k le
