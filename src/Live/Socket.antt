-- ===== src/Live/Socket.antt =====
-- web/src/ws.ts: the socket of the live feed. The variables of `connectPublicSocket` are a record, with
-- what the browser keeps: the phase of each socket that was made, and the ping intervals that run. A
-- timer of which there is at most one is a flag, true while it runs. A call of `onStatus`, `onOpen` or
-- `onMessage` is an entry of `calls`, the latest first. What the browser does (a constructor or a send
-- that throws, a text that does not parse) comes with each event.
pub mod Steps
pub mod Watch
pub mod Closing
pub mod Backoff
use mc_carto_live.Prelude.{
  ℕ, ◌+◌, ◌*◌, ◌^◌, min, Bool, true, false, not, ◌&&◌, ◌||◌, ◌==◌, Option, none, some, List, [],
  ◌∷◌, filter, if◌then◌else◌,
}

-- The status texts.
pub data Status : Type 0 where
  polling connecting live recovering error stale closed bad_message : Status

pub data Call (M : Type 0) : Type 0 where
  on_status : Status → Call M
  on_open : Call M
  on_message : M → Call M

-- A socket of the browser: `closing` after `close()`, `gone` after its close event.
pub data Phase : Type 0 where
  opening up closing gone : Phase

pub record LiveConnection (M : Type 0) : Type 0 where
  pub socket : Option ℕ
  pub closed : Bool
  pub retry_timer : Bool
  pub ping_timer : Option ℕ
  pub liveness_timer : Bool
  pub attempts : ℕ
  pub made : ℕ
  pub phases : ℕ → Phase
  pub intervals : ℕ
  pub pings : List ℕ
  pub calls : List (Call M)

unfoldable pub reconnect_delay_ms : ℕ → ℕ → ℕ
reconnect_delay_ms attempts jitter = min 15000 (800 * 2 ^ min attempts 5) + jitter

abbrev pub set_phase : ℕ → Phase → (ℕ → Phase) → ℕ → Phase
set_phase s p phases i = if i == s then p else phases i

-- `close()` of a socket has no effect once it is gone.
abbrev pub after_close : Phase → Phase
after_close gone = gone
after_close p = closing

abbrev pub is_open : Phase → Bool
is_open up = true
is_open p = false

-- `clearInterval` of an interval that may be gone.
abbrev pub stop_ping : Option ℕ → List ℕ → List ℕ
stop_ping none pings = pings
stop_ping (some i) pings = filter (λ j. not (j == i)) pings

module _ {M : Type 0} where
  abbrev pub call : Call M → LiveConnection M → LiveConnection M
  call entry c = record c { calls = entry ∷ c.calls }

  abbrev pub say : Status → LiveConnection M → LiveConnection M
  say status c = call (on_status status) c

  abbrev pub close_socket : Option ℕ → LiveConnection M → LiveConnection M
  close_socket none c = c
  close_socket (some s) c = record c { phases = set_phase s (after_close (c.phases s)) c.phases }

  unfoldable pub clear_ping_timer : LiveConnection M → LiveConnection M
  clear_ping_timer c = record c { ping_timer = none; pings = stop_ping c.ping_timer c.pings }

  abbrev pub clear_liveness_timer : LiveConnection M → LiveConnection M
  clear_liveness_timer c = record c { liveness_timer = false }

  abbrev pub reset_liveness_timer : LiveConnection M → LiveConnection M
  reset_liveness_timer c = record c { liveness_timer = not c.closed }

  unfoldable pub schedule_reconnect : LiveConnection M → LiveConnection M
  schedule_reconnect c =
      if c.closed || c.retry_timer
      then c
      else record (say recovering c) { attempts = c.attempts + 1; retry_timer = true }

  -- The socket is let go, closed, and a new one asked for.
  abbrev pub drop_socket : LiveConnection M → LiveConnection M
  drop_socket c = schedule_reconnect (close_socket c.socket (record c { socket = none }))

  -- The callback of the liveness timer.
  unfoldable pub liveness_timeout : LiveConnection M → LiveConnection M
  unfolding schedule_reconnect
  liveness_timeout c = drop_socket (say stale (clear_liveness_timer c))

  unfoldable pub handle_send_failure : LiveConnection M → LiveConnection M
  unfolding schedule_reconnect clear_ping_timer
  handle_send_failure c = drop_socket (say error (clear_liveness_timer (clear_ping_timer c)))

  abbrev pub can_send : LiveConnection M → Bool
  can_send c = elim c.socket [ none ↦ false | some s ↦ is_open (c.phases s) ]

  -- Whether the message was sent.
  unfoldable pub send_json : Bool → LiveConnection M → Bool × LiveConnection M
  unfolding handle_send_failure
  send_json throws c =
      if not (can_send c)
      then (false, c)
      else if throws
      then (false, handle_send_failure c)
      else (true, c)

  abbrev pub trying : LiveConnection M → LiveConnection M
  trying c = say (if c.attempts == 0 then connecting else recovering) c

  unfoldable pub connect : Bool → LiveConnection M → LiveConnection M
  unfolding schedule_reconnect
  connect throws c =
      if c.closed
      then c
      else if throws
      then schedule_reconnect (say error (trying c))
      else record (trying c) {
        socket = some c.made;
        made = c.made + 1;
        phases = set_phase c.made opening c.phases;
      }

  -- The callback of the retry timer.
  unfoldable pub retry : Bool → LiveConnection M → LiveConnection M
  unfolding connect
  retry throws c = connect throws (record c { retry_timer = false })

  abbrev pub start_ping : LiveConnection M → LiveConnection M
  start_ping c = record c {
    ping_timer = some c.intervals;
    intervals = c.intervals + 1;
    pings = c.intervals ∷ c.pings;
  }

  abbrev pub opened : LiveConnection M → LiveConnection M
  opened c = reset_liveness_timer (call on_open (say live (record c { attempts = 0 })))

  -- The listeners of a socket.
  -- `open_throws` says that `onOpen` does: then nothing after its call is done.
  unfoldable pub handle_open : Bool → Bool → Bool → LiveConnection M → LiveConnection M
  unfolding send_json
  handle_open subscriptions_enabled open_throws throws c =
      let told = call on_open (say live (record c { attempts = 0 })) in
      let (sent, c') = send_json throws (opened c) in
      if open_throws
      then told
      else if subscriptions_enabled
      then if sent then start_ping c' else c'
      else start_ping (opened c)

  unfoldable pub handle_close : LiveConnection M → LiveConnection M
  unfolding schedule_reconnect clear_ping_timer
  handle_close c =
      let cleared = clear_liveness_timer (clear_ping_timer c) in
      if c.closed then say closed cleared else schedule_reconnect cleared

  abbrev pub handle_error : LiveConnection M → LiveConnection M
  handle_error c = say error c

  -- `message` is none if its text does not parse; `throws` says that `onMessage` does.
  unfoldable pub handle_message : Option M → Bool → LiveConnection M → LiveConnection M
  handle_message none throws c = say bad_message (reset_liveness_timer c)
  handle_message (some message) throws c =
      let told = call (on_message message) (reset_liveness_timer c) in
      if throws then say bad_message told else told

  -- The callback of a ping interval.
  abbrev pub ping : Bool → LiveConnection M → LiveConnection M
  ping throws c = (send_json throws c).1

  -- The `close` of the socket that `connectPublicSocket` returns.
  unfoldable pub close : LiveConnection M → LiveConnection M
  unfolding clear_ping_timer
  close c =
      close_socket c.socket
        (clear_liveness_timer (clear_ping_timer (record c { closed = true; retry_timer = false })))

  abbrev pub fresh : LiveConnection M
  fresh = record {
    socket = none;
    closed = false;
    retry_timer = false;
    ping_timer = none;
    liveness_timer = false;
    attempts = 0;
    made = 0;
    phases = λ s. gone;
    intervals = 0;
    pings = [];
    calls = [];
  }

  -- Without `WebSocket` in the browser only the status is told, and nothing else ever happens.
  unfoldable pub connect_public_socket : Bool → Bool → LiveConnection M
  unfolding connect
  connect_public_socket has_web_socket throws =
      if has_web_socket then connect throws fresh else say polling fresh
