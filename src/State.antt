-- ===== src/State.antt =====
-- web/src/state.ts: the client's state and its reducer. `AppState` and what the children share;
-- State/Buckets.antt has the derived route fields, State/Traces.antt the windows of recent
-- traffic, State/Routes.antt the batch update of the routes, State/Reduce.antt the reducer, and
-- State/Snapshot.antt the hydration from snapshots.
-- `Math.round((Math.log1p(count) / Math.log1p(max + 1)) * 4)` is the parameter `log_ratio`.
pub mod Model
pub mod Buckets
pub mod Traces
pub mod Routes
pub mod Reduce
pub mod Snapshot
