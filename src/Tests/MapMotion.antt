-- ===== src/Tests/MapMotion.antt =====
-- The scheduler of visuals (web/src/map/liveVisualScheduler.ts) on small queues of numbers.
use mc_carto_live.Prelude.{ℕ, ◌≡◌, ◌==◌, refl, true, [], ◌∷◌, if◌then◌else◌}
use mc_carto_live.Prelude.JsMap
use mc_carto_live.Prelude.{string_discrete}
use mc_carto_live.MapMotion.Identity.{RecentIdentityTracker, remember}
use mc_carto_live.MapMotion.Scheduler.{
  LiveVisualStartResult, started, retry, LiveAnimationPressure, Clock, LiveVisualScheduler, enqueue,
  drain_frame,
}
use mc_carto_live.MapMotion.Scheduler.Fifo.{
  line, enqueue-line, drain_frame-line, IsAsked, drain_frame-IsAsked,
}
use mc_carto_live.MapMotion.Scheduler.Load.{NeverRetries}

abbrev clock : Clock
clock = record { now = 5000; active_count = 60 }

abbrev waiting : LiveVisualScheduler ℕ
waiting = record {
  queue = 1 ∷ 2 ∷ 3 ∷ [];
  frame = true;
  recent_starts = 4000 ∷ [];
  calls = 0;
  handled = [];
  asked = 1;
}

-- The second start is put off.
abbrev busy : ℕ → ℕ → LiveAnimationPressure → LiveVisualStartResult
busy k v p = if k == 1 then retry else started

abbrev ready : ℕ → ℕ → LiveAnimationPressure → LiveVisualStartResult
ready k v p = started

ready-NeverRetries : NeverRetries ℕ ready
ready-NeverRetries k v p e = cc

enqueue-line_example : line (enqueue busy clock (4 ∷ 5 ∷ []) waiting) ≡ 1 ∷ 2 ∷ 3 ∷ 4 ∷ 5 ∷ []
enqueue-line_example = enqueue-line busy clock (4 ∷ 5 ∷ []) waiting

drain_frame-line_example : line (drain_frame busy clock waiting) ≡ 1 ∷ 2 ∷ 3 ∷ []
drain_frame-line_example = drain_frame-line busy clock waiting

-- The frame starts the first visual alone.
busy-drain_frame : (drain_frame busy clock waiting).queue ≡ 2 ∷ 3 ∷ []
unfolding drain_frame
busy-drain_frame = refl

drain_frame-IsAsked_example : IsAsked busy 1 (drain_frame busy clock waiting)
drain_frame-IsAsked_example = drain_frame-IsAsked busy clock waiting

abbrev tracker : RecentIdentityTracker
tracker = record { entries = ("a", 1000) ∷ ("b", 4000) ∷ []; max_entries = 2; ttl_ms = 3000 }

-- The oldest identity made room.
remember_c : (remember "c" 3500 tracker).0.entries ≡ ("b", 4000) ∷ ("c", 3500) ∷ []
unfolding remember string_discrete JsMap.get JsMap.set JsMap.delete
remember_c = refl
