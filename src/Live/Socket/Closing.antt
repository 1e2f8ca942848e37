-- ===== src/Live/Socket/Closing.antt =====
-- After the `close` of web/src/ws.ts nothing is opened any more; and what a close event of a socket that
-- is no longer the current one does.
use mc_carto_live.Prelude.{
  ℕ, ◌+◌, Bool, true, false, not, ◌==◌, ◌≡◌, ◌≢◌, refl, ap, Option, none, some, arith,
}
use mc_carto_live.Live.Socket.{
  LiveConnection, up, closing, gone, set_phase, handle_open, handle_close, handle_message, retry,
  close, schedule_reconnect, send_json, handle_send_failure, clear_ping_timer, can_send, opened,
  drop_socket, close_socket, clear_liveness_timer, say, error, start_ping,
}
use mc_carto_live.Live.Socket.Watch.{sent_any, pinged_any}
use mc_carto_live.Live.Socket.Steps.{
  Step, opens, ends, fails, tells, silence, retries, pings, closes, Run, done, and_then,
}

module _ {M : Type 0} where
  -- Closed, without a timer that could open a socket, `n` sockets having been made.
  pub record IsShut (n : ℕ) (c : LiveConnection M) : Type 0 where
    pub closed : c.closed ≡ true
    pub retry : c.retry_timer ≡ false
    pub liveness : c.liveness_timer ≡ false
    pub made : c.made ≡ n

  close_socket-IsShut :
      (n : ℕ) → (o : Option ℕ) → (c : LiveConnection M) → IsShut n c → IsShut n (close_socket o c)
  close_socket-IsShut n none c h = h
  close_socket-IsShut n (some s) c h = record {
    closed = h.closed;
    retry = h.retry;
    liveness = h.liveness;
    made = h.made;
  }

  schedule_reconnect-shut : (c : LiveConnection M) → c.closed ≡ true → schedule_reconnect c ≡ c
  unfolding schedule_reconnect
  schedule_reconnect-shut c h = rw h refl

  drop_socket-IsShut : (n : ℕ) → (c : LiveConnection M) → IsShut n c → IsShut n (drop_socket c)
  drop_socket-IsShut n c h =
      let dropped =
        close_socket-IsShut n c.socket (record c { socket = none })
          (record { closed = h.closed; retry = h.retry; liveness = h.liveness; made = h.made }) in
      rw
        (schedule_reconnect-shut (close_socket c.socket (record c { socket = none }))
          dropped.closed)
        dropped

  calm :
      (n : ℕ)
      → (c : LiveConnection M) → IsShut n c
      → IsShut n (say error (clear_liveness_timer (clear_ping_timer c)))
  unfolding clear_ping_timer
  calm n c h = record { closed = h.closed; retry = h.retry; liveness = refl; made = h.made }

  send_json-IsShut :
      (n : ℕ)
      → (throws : Bool) → (c : LiveConnection M) → IsShut n c
      → IsShut n (send_json throws c).1
  unfolding send_json handle_send_failure
  send_json-IsShut n throws c h =
      sent_any (IsShut n) (not (can_send c)) throws c (handle_send_failure c) h
        (drop_socket-IsShut n (say error (clear_liveness_timer (clear_ping_timer c))) (calm n c h))

  start_ping-IsShut : (n : ℕ) → (c : LiveConnection M) → IsShut n c → IsShut n (start_ping c)
  start_ping-IsShut n c h = record {
    closed = h.closed;
    retry = h.retry;
    liveness = h.liveness;
    made = h.made;
  }

  opened-IsShut : (n : ℕ) → (c : LiveConnection M) → IsShut n c → IsShut n (opened c)
  opened-IsShut n c h = record {
    closed = h.closed;
    retry = h.retry;
    liveness = ap not h.closed;
    made = h.made;
  }

  handle_open-IsShut :
      (n : ℕ)
      → (enabled throws : Bool) → (c : LiveConnection M) → IsShut n c
      → IsShut n (handle_open enabled false throws c)
  unfolding handle_open
  handle_open-IsShut n enabled throws c h =
      let d = opened c in
      let (sent, d') = send_json throws d in
      let quiet = opened-IsShut n c h in
      let sound = send_json-IsShut n throws d quiet in
      pinged_any (IsShut n) enabled sent d' d sound (start_ping-IsShut n d' sound)
        (start_ping-IsShut n d quiet)

  handle_close-IsShut : (n : ℕ) → (c : LiveConnection M) → IsShut n c → IsShut n (handle_close c)
  unfolding handle_close
  handle_close-IsShut n c h =
      rw h.closed (record { closed = refl; retry = h.retry; liveness = refl; made = h.made })

  handle_message-IsShut :
      (n : ℕ)
      → (message : Option M) → (throws : Bool) → (c : LiveConnection M) → IsShut n c
      → IsShut n (handle_message message throws c)
  unfolding handle_message
  handle_message-IsShut n none throws c h = record {
    closed = h.closed;
    retry = h.retry;
    liveness = ap not h.closed;
    made = h.made;
  }
  handle_message-IsShut n (some m) true c h = record {
    closed = h.closed;
    retry = h.retry;
    liveness = ap not h.closed;
    made = h.made;
  }
  handle_message-IsShut n (some m) false c h = record {
    closed = h.closed;
    retry = h.retry;
    liveness = ap not h.closed;
    made = h.made;
  }

  -- Whatever the state, the call of `close` shuts the connection.
  close-IsShut : (n : ℕ) → (c : LiveConnection M) → c.made ≡ n → IsShut n (close c)
  unfolding close
  close-IsShut n c h =
      close_socket-IsShut n c.socket _
        (record { closed = refl; retry = refl; liveness = refl; made = h })

module _ {M : Type 0} {subscriptions_enabled : Bool} where
  step-IsShut :
      (n : ℕ) {c c' : LiveConnection M}
      → Step M subscriptions_enabled c c'
      → IsShut n c
      → IsShut n c'
  step-IsShut n (opens c s throws e) h =
      handle_open-IsShut n subscriptions_enabled throws
        (record c { phases = set_phase s up c.phases })
        (record { closed = h.closed; retry = h.retry; liveness = h.liveness; made = h.made })
  step-IsShut n (ends c s e) h =
      handle_close-IsShut n (record c { phases = set_phase s gone c.phases })
        (record { closed = h.closed; retry = h.retry; liveness = h.liveness; made = h.made })
  step-IsShut n (fails c s e) h = record {
    closed = h.closed;
    retry = h.retry;
    liveness = h.liveness;
    made = h.made;
  }
  step-IsShut n (tells c s message throws e) h = handle_message-IsShut n message throws c h
  step-IsShut n (silence c e) h = cc
  step-IsShut n (retries c throws e) h = cc
  step-IsShut n (pings c i throws e) h = send_json-IsShut n throws c h
  step-IsShut n (closes c) h = close-IsShut n c h.made

  Run-IsShut :
      (n : ℕ) (c c' : LiveConnection M)
      → Run M subscriptions_enabled c c'
      → IsShut n c
      → IsShut n c'
  Run-IsShut n c c' (done d) h = h
  Run-IsShut n c c' (and_then d d' d'' first rest) h =
      Run-IsShut n d' d'' rest (step-IsShut n first h)

  -- However a run goes on after the call of `close`, the connection stays closed, no retry and no liveness
  -- timer is pending, and no further socket is made.
  pub close-Run :
      (c c' : LiveConnection M) → Run M subscriptions_enabled (close c) c' → IsShut c.made c'
  close-Run c c' run = Run-IsShut c.made (close c) c' run (close-IsShut c.made c refl)

eqb_self : (a : ℕ) → (a == a) ≡ true
eqb_self a = ground arith

eqb_of_ne : (a b : ℕ) → a ≢ b → (a == b) ≡ false
eqb_of_ne a b h = ground arith

module _ {M : Type 0} where
  -- The close event of a socket `t` other than the current one `s`, while the connection is not closed, `s`
  -- is open, and no retry is pending: a retry is pending after it; that retry, where the constructor does
  -- not throw, makes a new socket, the current one from then on; and the call of `close` after that closes
  -- the new socket and leaves `s` open.
  pub handle_close-other :
      (c : LiveConnection M)
      → (s t : ℕ) → c.closed ≡ false
      → c.retry_timer ≡ false
      → c.socket ≡ some s
      → c.phases s ≡ up
      → s ≢ t
      → s ≢ c.made
      → let ended = handle_close (record c { phases = set_phase t gone c.phases }) in
        let tried = retry false ended in
        (ended.retry_timer ≡ true)
        × (tried.socket ≡ some c.made)
        × (tried.made ≡ c.made + 1)
        × ((close tried).phases c.made ≡ closing)
        × ((close tried).phases s ≡ up)
  unfolding close retry handle_close
  handle_close-other c s t here idle current open_now other old = (
    rw (here, idle) refl,
    rw (here, idle) refl,
    rw (here, idle) refl,
    rw (here, idle, eqb_self c.made) refl,
    rw (here, idle, eqb_of_ne s c.made old, eqb_of_ne s t other) open_now,
  )
