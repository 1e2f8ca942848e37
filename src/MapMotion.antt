-- ===== src/MapMotion.antt =====
-- What moves on the map: the scheduler of live visuals (web/src/map/liveVisualScheduler.ts) and the
-- identities that moved lately (web/src/map/recentIdentityTracker.ts).
pub mod Scheduler
pub mod Identity
