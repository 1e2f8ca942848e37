-- ===== src/Live.antt =====
-- The live feed: the order and the cursor of envelopes (web/src/liveCursor.ts), the pacing queue
-- (web/src/livePacing.ts), the recovery of missed events (web/src/eventRecovery.ts) the refresh
-- of a page that comes back (web/src/resumeRecovery.ts) and the socket (web/src/ws.ts).
pub mod Wire
pub mod Cursor
pub mod Pacing
pub mod Recovery
pub mod Resume
pub mod Socket
