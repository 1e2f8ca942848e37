-- ===== src/Live/Socket/Steps.antt =====
-- The runs of web/src/ws.ts: the events of every socket that was made, current or not, the callbacks of
-- the timers, and the call of `close`, in any order that the browser allows. In these runs `onOpen`
-- returns and does not throw.
use mathlib.Core.List.{Mem}
use mc_carto_live.Prelude.{ℕ, Bool, true, false, ◌≡◌, ◌≢◌, Option}
use mc_carto_live.Live.Socket.{
  LiveConnection, opening, up, gone, set_phase, connect_public_socket, handle_open, handle_close,
  handle_error, handle_message, liveness_timeout, retry, ping, close,
}

module _ (M : Type 0) (subscriptions_enabled : Bool) where
  pub data Step : LiveConnection M → LiveConnection M → Type 0 where
    opens :
        (c : LiveConnection M) (s : ℕ) (throws : Bool)
        → c.phases s ≡ opening
        → Step c (
            handle_open subscriptions_enabled false throws
              (record c { phases = set_phase s up c.phases }))
    ends :
        (c : LiveConnection M) (s : ℕ)
        → c.phases s ≢ gone
        → Step c (handle_close (record c { phases = set_phase s gone c.phases }))
    fails : (c : LiveConnection M) (s : ℕ) → c.phases s ≢ gone → Step c (handle_error c)
    tells :
        (c : LiveConnection M) (s : ℕ) (message : Option M) (throws : Bool)
        → c.phases s ≡ up
        → Step c (handle_message message throws c)
    silence : (c : LiveConnection M) → c.liveness_timer ≡ true → Step c (liveness_timeout c)
    retries :
        (c : LiveConnection M) (throws : Bool) → c.retry_timer ≡ true → Step c (retry throws c)
    pings : (c : LiveConnection M) (i : ℕ) (throws : Bool) → Mem i c.pings → Step c (ping throws c)
    closes : (c : LiveConnection M) → Step c (close c)

  -- A page whose browser has web sockets.
  pub data Reachable : LiveConnection M → Type 0 where
    connected : (throws : Bool) → Reachable (connect_public_socket true throws)
    stepped : (c c' : LiveConnection M) → Reachable c → Step c c' → Reachable c'

  -- Any number of steps.
  pub data Run : LiveConnection M → LiveConnection M → Type 0 where
    done : (c : LiveConnection M) → Run c c
    and_then : (c c' c'' : LiveConnection M) → Step c c' → Run c' c'' → Run c c''
