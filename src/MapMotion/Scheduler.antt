-- ===== src/MapMotion/Scheduler.antt =====
-- web/src/map/liveVisualScheduler.ts: the queue of visuals that wait for a frame. `start` is the
-- caller's; it may answer differently each time, so it takes the number of the call. `now()` and
-- `activeCount()` come with each event. `handled` lists the visuals that `start` has taken or turned
-- down, the oldest first; the diagnostics are left out.
pub mod Fifo
pub mod Load
use mc_carto_live.Prelude.{
  ℕ, zero, suc, ◌+◌, min, max, Bool, true, false, ◌||◌, List, [], ◌∷◌, ◌++◌, ltb, leb,
  if◌then◌else◌, length, filter,
}

abbrev pub live_visual_queue_limit : ℕ
live_visual_queue_limit = 1024

abbrev pub live_visual_max_starts_per_frame : ℕ
live_visual_max_starts_per_frame = 8

abbrev pub live_visual_degraded_active : ℕ
live_visual_degraded_active = 48

abbrev pub live_visual_minimal_active : ℕ
live_visual_minimal_active = 120

pub data LiveVisualStartResult : Type 0 where
  started retry ineligible : LiveVisualStartResult

pub data LiveAnimationPressure : Type 0 where
  normal degraded minimal emergency : LiveAnimationPressure

-- What an event sees.
pub record Clock : Type 0 where
  pub now : ℕ
  pub active_count : ℕ

-- `frame` is `frameHandle !== 0`; `asked` counts the calls of `requestFrame`.
pub record LiveVisualScheduler (T : Type 0) : Type 0 where
  pub queue : List T
  pub frame : Bool
  pub recent_starts : List ℕ
  pub calls : ℕ
  pub handled : List T
  pub asked : ℕ

abbrev pub is_empty : {T : Type 0} → List T → Bool
is_empty [] = true
is_empty (x ∷ xs) = false

-- `startVisual` with the outcome of `start`.
abbrev pub note_start :
    {T : Type 0} → LiveVisualStartResult → T → ℕ → LiveVisualScheduler T → LiveVisualScheduler T
note_start started visual now s = record s {
  calls = s.calls + 1;
  recent_starts = s.recent_starts ++ now ∷ [];
  handled = s.handled ++ visual ∷ [];
}
note_start retry visual now s = record s { calls = s.calls + 1 }
note_start ineligible visual now s = record s {
  calls = s.calls + 1;
  handled = s.handled ++ visual ∷ [];
}

-- What is left of the queue: a visual to be tried again goes back in front.
abbrev pub queue_after : {T : Type 0} → LiveVisualStartResult → T → List T → List T
queue_after started visual rest = rest
queue_after retry visual rest = visual ∷ rest
queue_after ineligible visual rest = rest

abbrev pub schedule : {T : Type 0} → LiveVisualScheduler T → LiveVisualScheduler T
schedule s =
    if s.frame || is_empty s.queue then s else record s { frame = true; asked = s.asked + 1 }

abbrev pub clear : {T : Type 0} → LiveVisualScheduler T → LiveVisualScheduler T
clear s = record s { queue = []; recent_starts = []; frame = false }

-- The two parts of `pressure`.
abbrev pub prune_starts : {T : Type 0} → Clock → LiveVisualScheduler T → LiveVisualScheduler T
prune_starts clock s = record s {
  recent_starts = filter (λ at. leb clock.now (at + 2100)) s.recent_starts;
}

unfoldable pub pressure : {T : Type 0} → Clock → LiveVisualScheduler T → LiveAnimationPressure
pressure clock s =
    let active = max clock.active_count (length s.recent_starts) in
    if ltb live_visual_minimal_active active
    then minimal
    else if ltb live_visual_degraded_active active
    then degraded
    else normal

-- Whether the loop of a frame goes on after a start.
abbrev pub go_on :
    {T : Type 0}
    → LiveVisualStartResult
    → LiveVisualScheduler T
    → LiveVisualScheduler T
    → LiveVisualScheduler T
go_on started further stopped = further
go_on retry further stopped = stopped
go_on ineligible further stopped = further

module _ {T : Type 0} (start : ℕ → T → LiveAnimationPressure → LiveVisualStartResult) where
  -- The oldest visual is taken from the queue and started.
  abbrev pub start_oldest :
      LiveAnimationPressure → ℕ → T → List T → LiveVisualScheduler T → LiveVisualScheduler T
  start_oldest p now visual rest s =
      let result = start s.calls visual p in
      record (note_start result visual now s) { queue = queue_after result visual rest }

  unfoldable pub make_room : Clock → List T → LiveVisualScheduler T → LiveVisualScheduler T
  make_room clock [] s = s
  make_room clock (oldest ∷ rest) s = start_oldest emergency clock.now oldest rest s

  unfoldable pub enqueue_one : Clock → T → LiveVisualScheduler T → LiveVisualScheduler T
  unfolding make_room
  enqueue_one clock visual s =
      let room =
        if leb live_visual_queue_limit (length s.queue) then make_room clock s.queue s else s in
      record room { queue = room.queue ++ visual ∷ [] }

  unfoldable pub enqueue_loop : Clock → List T → LiveVisualScheduler T → LiveVisualScheduler T
  unfolding enqueue_one
  enqueue_loop clock [] s = s
  enqueue_loop clock (v ∷ vs) s = enqueue_loop clock vs (enqueue_one clock v s)

  unfoldable pub enqueue : Clock → List T → LiveVisualScheduler T → LiveVisualScheduler T
  unfolding enqueue_loop
  enqueue clock visuals s = schedule (enqueue_loop clock visuals s)

  -- At most `n` starts, of the visuals of the queue given. A visual to be tried again ends the loop.
  unfoldable pub drain_loop : ℕ → Clock → List T → LiveVisualScheduler T → LiveVisualScheduler T
  unfolding pressure
  drain_loop zero clock queue s = s
  drain_loop (suc n) clock [] s = s
  drain_loop (suc n) clock (visual ∷ rest) s =
      let calm = prune_starts clock s in
      let p = pressure clock calm in
      let next = start_oldest p clock.now visual rest calm in
      let further = drain_loop n clock rest next in go_on (start calm.calls visual p) further next

  unfoldable pub drain_frame : Clock → LiveVisualScheduler T → LiveVisualScheduler T
  unfolding drain_loop
  drain_frame clock s =
      let starts = min (length s.queue) live_visual_max_starts_per_frame in
      schedule (drain_loop starts clock s.queue (record s { frame = false }))
