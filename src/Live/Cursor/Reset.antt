-- ===== src/Live/Cursor/Reset.antt =====
-- The rebase of the cursor onto the server's epoch (web/src/liveCursor.ts).
use mc_carto_live.Prelude.{max, ◌≤◌, ◌<◌, ◌≡◌, ◌↔◌, true, arith}
use mc_carto_live.Prelude.Int.{JsNumber}
use mc_carto_live.Live.Cursor.{
  valid_sequence, live_cursor_reset_target, hello_requires_cursor_reset_probe,
}

-- The reset target lies below the applied cursor exactly when the server's latest sequence does,
-- whatever came in meanwhile; it never lies below the server's latest sequence, and never above
-- both that and the latest inbound one.
pub reset_target_epoch :
    (server prior inbound : JsNumber)
    → ((live_cursor_reset_target server prior inbound < valid_sequence prior)
        ↔ (valid_sequence server < valid_sequence prior))
      × (valid_sequence server ≤ live_cursor_reset_target server prior inbound)
      × (live_cursor_reset_target server prior inbound
          ≤ max (valid_sequence server) (valid_sequence inbound))
unfolding live_cursor_reset_target
reset_target_epoch server prior inbound = ground arith

-- The hello probe asks for a reset exactly when a rebase onto the hello's sequence would move the
-- applied cursor back, whatever sequence came in last.
pub hello_probe_reset_target :
    (hello applied inbound : JsNumber)
    → (hello_requires_cursor_reset_probe hello applied ≡ true)
      ↔ (live_cursor_reset_target hello applied inbound < valid_sequence applied)
unfolding hello_requires_cursor_reset_probe live_cursor_reset_target
hello_probe_reset_target hello applied inbound = ground arith
