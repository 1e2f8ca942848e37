-- ===== src/Tests/Socket.antt =====
-- The socket of the live feed (web/src/ws.ts) in small runs. The messages are numbers.
use mc_carto_live.Prelude.{some, ℕ, ◌≡◌, ◌≤◌, ◌<◌, refl, true, false, [], ◌∷◌, arith}
use mc_carto_live.Live.Socket.{
  LiveConnection, up, closing, gone, set_phase, connect_public_socket, handle_open, handle_close,
  liveness_timeout, retry, close, reconnect_delay_ms, on_status, on_open, connecting, live, error,
  recovering, stale,
}
use mc_carto_live.Live.Socket.Steps.{opens, closes, connected, stepped, done, and_then}
use mc_carto_live.Live.Socket.Backoff.{reconnect_delay_ms-bounds}
use mc_carto_live.Live.Socket.Watch.{IsWatched, Reachable-IsWatched}
use mc_carto_live.Live.Socket.Closing.{IsShut, close-Run, handle_close-other}

-- A first socket is made, and it opens.
abbrev first : LiveConnection ℕ
unfolding connect_public_socket
first = connect_public_socket true false

abbrev after_open : ℕ → LiveConnection ℕ → LiveConnection ℕ
after_open s c = handle_open false false false (record c { phases = set_phase s up c.phases })

-- It falls silent, and a second one is made and opens, before the first has told its end.
abbrev second : LiveConnection ℕ
second = after_open 1 (retry false (liveness_timeout (after_open 0 first)))

blocked_ok :
    (connect_public_socket {M = ℕ} true true).calls
    ≡ on_status recovering ∷ on_status error ∷ on_status connecting ∷ []
unfolding connect_public_socket
blocked_ok = refl

second_ok :
    second.calls
    ≡ on_open
      ∷ on_status live
      ∷ on_status recovering
      ∷ on_status recovering
      ∷ on_status stale
      ∷ on_open
      ∷ on_status live
      ∷ on_status connecting
      ∷ []
unfolding connect_public_socket handle_open liveness_timeout retry
second_ok = refl

-- The ping interval of the first socket still runs.
pings_ok : second.pings ≡ 1 ∷ 0 ∷ []
unfolding connect_public_socket handle_open liveness_timeout retry
pings_ok = refl

reconnect_delay_ms-bounds_example :
    (800 ≤ reconnect_delay_ms 7 499)
    × (reconnect_delay_ms 7 499 < 15500)
    × (reconnect_delay_ms 7 499 ≤ reconnect_delay_ms 8 499)
reconnect_delay_ms-bounds_example = reconnect_delay_ms-bounds 7 499 (omega arith)

Reachable-IsWatched_example : IsWatched (after_open 0 first)
unfolding connect_public_socket
Reachable-IsWatched_example =
    Reachable-IsWatched {subscriptions_enabled = false} (after_open 0 first)
      (stepped first (after_open 0 first) (connected false) (opens first 0 false refl))

close-Run_example : IsShut 1 (close (close (after_open 0 first)))
unfolding connect_public_socket handle_open
close-Run_example =
    close-Run {subscriptions_enabled = false} (after_open 0 first)
      (close (close (after_open 0 first)))
      (and_then (close (after_open 0 first)) (close (close (after_open 0 first)))
        (close (close (after_open 0 first))) (closes (close (after_open 0 first)))
        (done (close (close (after_open 0 first)))))

handle_close-other_example :
    let ended = handle_close (record second { phases = set_phase 0 gone second.phases }) in
    let tried = retry false ended in
    (ended.retry_timer ≡ true)
    × (tried.socket ≡ some 2)
    × (tried.made ≡ 3)
    × ((close tried).phases 2 ≡ closing)
    × ((close tried).phases 1 ≡ up)
unfolding connect_public_socket handle_open liveness_timeout retry
handle_close-other_example =
    handle_close-other second 1 0 refl refl refl refl (omega arith) (omega arith)
