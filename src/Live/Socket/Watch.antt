-- ===== src/Live/Socket/Watch.antt =====
-- The connection of web/src/ws.ts is never given up: while it is not closed, a retry is pending, or its
-- socket is being opened, or it is open and the liveness timer runs.
use mc_carto_live.Prelude.{
  ℕ, Bool, true, false, not, ◌||◌, ◌==◌, ◌≡◌, refl, Bool-cases, inl, inr, ap, ◌∙◌, arith, Option,
  none, some, if◌then◌else◌,
}
use mc_carto_live.Live.Socket.{
  LiveConnection, Phase, opening, up, gone, set_phase, connect_public_socket, handle_open,
  handle_close, handle_error, handle_message, liveness_timeout, retry, close, schedule_reconnect,
  send_json, handle_send_failure, connect, clear_ping_timer, can_send, opened, drop_socket,
  close_socket, clear_liveness_timer, say, stale, error, trying, start_ping, fresh,
}
use mc_carto_live.Live.Socket.Steps.{
  Step, opens, ends, fails, tells, silence, retries, pings, closes, Reachable, connected, stepped,
}

set_phase-here : (s : ℕ) → (p : Phase) → (phases : ℕ → Phase) → set_phase s p phases s ≡ p
set_phase-here s p phases = ground arith

module _ {M : Type 0} where
  pub data IsWatched (c : LiveConnection M) : Type 0 where
    shut : c.closed ≡ true → IsWatched c
    retrying : c.retry_timer ≡ true → IsWatched c
    starting : (s : ℕ) → c.socket ≡ some s → c.phases s ≡ opening → IsWatched c
    running : (s : ℕ) → c.socket ≡ some s → c.phases s ≡ up → c.liveness_timer ≡ true → IsWatched c

  if_IsWatched :
      (a b : Bool)
      → (c d : LiveConnection M) → c.closed ≡ a
      → c.retry_timer ≡ b
      → d.retry_timer ≡ true
      → IsWatched (if a || b then c else d)
  if_IsWatched true b c d closed retry asked = shut closed
  if_IsWatched false true c d closed retry asked = retrying retry
  if_IsWatched false false c d closed retry asked = retrying asked

  if_closed :
      (a : Bool)
      → (c d : LiveConnection M) → c.closed ≡ a
      → IsWatched d
      → IsWatched (if a then c else d)
  if_closed true c d closed h = shut closed
  if_closed false c d closed h = h

  schedule_reconnect-IsWatched : (c : LiveConnection M) → IsWatched (schedule_reconnect c)
  unfolding schedule_reconnect
  schedule_reconnect-IsWatched c = if_IsWatched c.closed c.retry_timer _ _ refl refl refl

  handle_close-IsWatched : (c : LiveConnection M) → IsWatched (handle_close c)
  unfolding handle_close
  handle_close-IsWatched c =
      if_closed c.closed _ _ refl
        (schedule_reconnect-IsWatched (clear_liveness_timer (clear_ping_timer c)))

  drop_socket-IsWatched : (c : LiveConnection M) → IsWatched (drop_socket c)
  drop_socket-IsWatched c =
      schedule_reconnect-IsWatched (close_socket c.socket (record c { socket = none }))

  liveness_timeout-IsWatched : (c : LiveConnection M) → IsWatched (liveness_timeout c)
  unfolding liveness_timeout
  liveness_timeout-IsWatched c = drop_socket-IsWatched (say stale (clear_liveness_timer c))

  handle_send_failure-IsWatched : (c : LiveConnection M) → IsWatched (handle_send_failure c)
  unfolding handle_send_failure
  handle_send_failure-IsWatched c =
      drop_socket-IsWatched (say error (clear_liveness_timer (clear_ping_timer c)))

  abbrev sent_or_failed :
      Bool → Bool → LiveConnection M → LiveConnection M → Bool × LiveConnection M
  sent_or_failed a b c d = if a then (false, c) else if b then (false, d) else (true, c)

  -- What holds of both outcomes of a send holds of the outcome.
  pub sent_any :
      (P : LiveConnection M → Type 0)
      → (a b : Bool) → (c d : LiveConnection M) → P c
      → P d
      → P (sent_or_failed a b c d).1
  sent_any P true b c d hc hd = hc
  sent_any P false true c d hc hd = hd
  sent_any P false false c d hc hd = hc

  send_json-IsWatched :
      (throws : Bool) → (c : LiveConnection M) → IsWatched c → IsWatched (send_json throws c).1
  unfolding send_json
  send_json-IsWatched throws c h =
      sent_any IsWatched (not (can_send c)) throws c (handle_send_failure c) h
        (handle_send_failure-IsWatched c)

  -- The state after a change that touches neither sockets nor timers but the liveness timer, which runs.
  carry :
      (c d : LiveConnection M)
      → d.closed ≡ c.closed
      → d.retry_timer ≡ c.retry_timer
      → d.socket ≡ c.socket
      → d.phases ≡ c.phases
      → d.liveness_timer ≡ not c.closed
      → IsWatched c
      → IsWatched d
  carry c d same_closed same_retry same_socket same_phases alive (shut h) = shut (same_closed ∙ h)
  carry c d same_closed same_retry same_socket same_phases alive (retrying h) =
      retrying (same_retry ∙ h)
  carry c d same_closed same_retry same_socket same_phases alive (starting s h p) =
      starting s (same_socket ∙ h) (ap (λ f. f s) same_phases ∙ p)
  carry c d same_closed same_retry same_socket same_phases alive (running s h p l) =
      elim (Bool-cases c.closed) [
        | inl e ↦ shut (same_closed ∙ e)
        | inr e ↦ running s (same_socket ∙ h) (ap (λ f. f s) same_phases ∙ p) (alive ∙ ap not e)
      ]

  handle_message-IsWatched :
      (message : Option M)
      → (throws : Bool) → (c : LiveConnection M) → IsWatched c
      → IsWatched (handle_message message throws c)
  unfolding handle_message
  handle_message-IsWatched none throws c h = carry c _ refl refl refl refl refl h
  handle_message-IsWatched (some m) true c h = carry c _ refl refl refl refl refl h
  handle_message-IsWatched (some m) false c h = carry c _ refl refl refl refl refl h

  connect-IsWatched : (throws : Bool) → (c : LiveConnection M) → IsWatched (connect throws c)
  unfolding connect
  connect-IsWatched true c =
      if_closed c.closed _ _ refl (schedule_reconnect-IsWatched (say error (trying c)))
  connect-IsWatched false c =
      if_closed c.closed _ _ refl (starting c.made refl (set_phase-here c.made opening c.phases))

  opened-IsWatched :
      (s : ℕ)
      → (c : LiveConnection M) → IsWatched c
      → IsWatched (opened (record c { phases = set_phase s up c.phases }))
  opened-IsWatched s c (shut h) = shut h
  opened-IsWatched s c (retrying h) = retrying h
  opened-IsWatched s c (starting k h p) = elim (Bool-cases c.closed) [
    | inl e ↦ shut e
    | inr e ↦ elim (Bool-cases (k == s)) [
      | inl t ↦ running k h (rw t refl) (ap not e)
      | inr f ↦ starting k h (rw f p)
    ]
  ]
  opened-IsWatched s c (running k h p l) = elim (Bool-cases c.closed) [
    | inl e ↦ shut e
    | inr e ↦ elim (Bool-cases (k == s)) [
      | inl t ↦ running k h (rw t refl) (ap not e)
      | inr f ↦ running k h (rw f p) (ap not e)
    ]
  ]

  start_ping-IsWatched : (c : LiveConnection M) → IsWatched c → IsWatched (start_ping c)
  start_ping-IsWatched c (shut h) = shut h
  start_ping-IsWatched c (retrying h) = retrying h
  start_ping-IsWatched c (starting s h p) = starting s h p
  start_ping-IsWatched c (running s h p l) = running s h p l

  handle_error-IsWatched : (c : LiveConnection M) → IsWatched c → IsWatched (handle_error c)
  handle_error-IsWatched c (shut h) = shut h
  handle_error-IsWatched c (retrying h) = retrying h
  handle_error-IsWatched c (starting s h p) = starting s h p
  handle_error-IsWatched c (running s h p l) = running s h p l

  -- What holds with and without a ping interval holds after a socket has opened.
  pub pinged_any :
      (P : LiveConnection M → Type 0)
      → (enabled sent : Bool) → (c d : LiveConnection M) → P c
      → P (start_ping c)
      → P (start_ping d)
      → P (if enabled then if sent then start_ping c else c else start_ping d)
  pinged_any P true true c d hc hp hd = hp
  pinged_any P true false c d hc hp hd = hc
  pinged_any P false sent c d hc hp hd = hd

  handle_open-IsWatched :
      (enabled throws : Bool)
      → (s : ℕ) → (c : LiveConnection M) → IsWatched c
      → IsWatched (handle_open enabled false throws (record c { phases = set_phase s up c.phases }))
  unfolding handle_open
  handle_open-IsWatched enabled throws s c h =
      let d = opened (record c { phases = set_phase s up c.phases }) in
      let (sent, d') = send_json throws d in
      let sound = send_json-IsWatched throws d (opened-IsWatched s c h) in
      pinged_any IsWatched enabled sent d' d sound (start_ping-IsWatched d' sound)
        (start_ping-IsWatched d (opened-IsWatched s c h))

  close_socket-closed :
      (o : Option ℕ) → (c : LiveConnection M) → (close_socket o c).closed ≡ c.closed
  close_socket-closed none c = refl
  close_socket-closed (some s) c = refl

  close-IsWatched : (c : LiveConnection M) → IsWatched (close c)
  unfolding close
  close-IsWatched c = shut (close_socket-closed c.socket _)

module _ {M : Type 0} {subscriptions_enabled : Bool} where
  step-IsWatched :
      {c c' : LiveConnection M} → Step M subscriptions_enabled c c' → IsWatched c → IsWatched c'
  unfolding retry
  step-IsWatched (opens c s throws e) h = handle_open-IsWatched subscriptions_enabled throws s c h
  step-IsWatched (ends c s e) h =
      handle_close-IsWatched (record c { phases = set_phase s gone c.phases })
  step-IsWatched (fails c s e) h = handle_error-IsWatched c h
  step-IsWatched (tells c s message throws e) h = handle_message-IsWatched message throws c h
  step-IsWatched (silence c e) h = liveness_timeout-IsWatched c
  step-IsWatched (retries c throws e) h =
      connect-IsWatched throws (record c { retry_timer = false })
  step-IsWatched (pings c i throws e) h = send_json-IsWatched throws c h
  step-IsWatched (closes c) h = close-IsWatched c

  -- In every run, whatever the sockets, the timers and the sends do, where `onOpen` returns, a connection that is not closed has
  -- a retry pending, or a current socket that is being opened, or one that is open and watched by the
  -- liveness timer.
  pub Reachable-IsWatched :
      (c : LiveConnection M) → Reachable M subscriptions_enabled c → IsWatched c
  unfolding connect_public_socket
  Reachable-IsWatched c (connected throws) = connect-IsWatched throws fresh
  Reachable-IsWatched c (stepped before after reached step) =
      step-IsWatched step (Reachable-IsWatched before reached)
