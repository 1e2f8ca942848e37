-- ===== src/MapMotion/Scheduler/Load.antt =====
-- How long the queue of web/src/map/liveVisualScheduler.ts gets where no start is put off.
use mc_carto_live.Prelude.{
  ℕ, zero, suc, ◌+◌, ◌-◌, ◌≤◌, min, ◌≡◌, ◌≢◌, refl, sym, ap, ◌∙◌, subst, false, List, [], ◌∷◌, leb,
  length, length-append, arith, Bool-cases, inl, inr,
}
use mc_carto_live.MapMotion.Scheduler.{
  LiveVisualStartResult, started, retry, ineligible, LiveAnimationPressure, emergency, Clock,
  LiveVisualScheduler, go_on, schedule, prune_starts, pressure, start_oldest, make_room,
  enqueue_one, enqueue_loop, enqueue, drain_loop, drain_frame, live_visual_queue_limit,
  live_visual_max_starts_per_frame,
}
use mc_carto_live.MapMotion.Scheduler.Fifo.{queue_after-gone}

go_on-gone :
    {T : Type 0} (result : LiveVisualStartResult) (further stopped : LiveVisualScheduler T)
    → result ≢ retry
    → go_on result further stopped ≡ further
go_on-gone started further stopped h = refl
go_on-gone retry further stopped h = absurd (h refl)
go_on-gone ineligible further stopped h = refl

schedule-queue : {T : Type 0} (s : LiveVisualScheduler T) → (schedule s).queue ≡ s.queue
schedule-queue s = ground arith

-- No start is put off.
abbrev pub NeverRetries :
    (T : Type 0) → (ℕ → T → LiveAnimationPressure → LiveVisualStartResult) → Type 0
NeverRetries T start = (k : ℕ) (v : T) (p : LiveAnimationPressure) → start k v p ≢ retry

module _ {T : Type 0} (start : ℕ → T → LiveAnimationPressure → LiveVisualStartResult)
    (never : NeverRetries T start) where
  length-drain_loop :
      (n : ℕ) (clock : Clock) (queue : List T) (s : LiveVisualScheduler T)
      → queue ≡ s.queue
      → length (drain_loop start n clock queue s).queue ≡ length queue - n
  unfolding drain_loop
  length-drain_loop zero clock queue s e = omega (arith, ap length e)
  length-drain_loop (suc n) clock [] s e = omega (arith, ap length e)
  length-drain_loop (suc n) clock (v ∷ vs) s e =
      let calm = prune_starts clock s in
      let p = pressure clock calm in
      let next = start_oldest start p clock.now v vs calm in
      let gone = never calm.calls v p in
      let rest = queue_after-gone (start calm.calls v p) v vs gone in
      ap (λ (q : LiveVisualScheduler T). length q.queue)
        (go_on-gone (start calm.calls v p) (drain_loop start n clock vs next) next gone)
      ∙ length-drain_loop n clock vs next rest
      ∙ omega arith

  -- Where no start is put off, each frame takes eight visuals from the queue, or all of fewer.
  pub length-drain_frame :
      (clock : Clock) (s : LiveVisualScheduler T)
      → length (drain_frame start clock s).queue ≡ length s.queue - live_visual_max_starts_per_frame
  unfolding drain_frame
  length-drain_frame clock s =
      let starts = min (length s.queue) live_visual_max_starts_per_frame in
      let idle = record s { frame = false } in
      ap length (schedule-queue (drain_loop start starts clock s.queue idle))
      ∙ length-drain_loop starts clock s.queue idle refl
      ∙ omega arith

  length-make_room :
      (clock : Clock) (queue : List T) (s : LiveVisualScheduler T)
      → queue ≡ s.queue
      → length (make_room start clock queue s).queue ≡ length queue - 1
  unfolding make_room
  length-make_room clock [] s e = omega (arith, ap length e)
  length-make_room clock (v ∷ vs) s e =
      let gone = never s.calls v emergency in
      omega (arith, ap length (queue_after-gone (start s.calls v emergency) v vs gone))

  length-enqueue_one :
      (clock : Clock) (visual : T) (s : LiveVisualScheduler T)
      → length s.queue ≤ live_visual_queue_limit
      → length (enqueue_one start clock visual s).queue ≤ live_visual_queue_limit
  unfolding enqueue_one
  length-enqueue_one clock v s h =
      elim (Bool-cases (leb live_visual_queue_limit (length s.queue))) [
        | inl full ↦
            let room = make_room start clock s.queue s in
            rw full (
              omega (
                arith,
                length-append room.queue (v ∷ []),
                length-make_room clock s.queue s refl,
                h,
              ))
        | inr space ↦
            let fits : length s.queue + 1 ≤ live_visual_queue_limit = ground arith in
            rw space (omega (arith, length-append s.queue (v ∷ []), fits))
      ]

  length-enqueue_loop :
      (clock : Clock) (visuals : List T) (s : LiveVisualScheduler T)
      → length s.queue ≤ live_visual_queue_limit
      → length (enqueue_loop start clock visuals s).queue ≤ live_visual_queue_limit
  unfolding enqueue_loop
  length-enqueue_loop clock [] s h = h
  length-enqueue_loop clock (v ∷ vs) s h =
      length-enqueue_loop clock vs (enqueue_one start clock v s) (length-enqueue_one clock v s h)

  -- Where no start is put off, the queue stays within its limit, however many visuals come at once.
  pub length-enqueue :
      (clock : Clock) (visuals : List T) (s : LiveVisualScheduler T)
      → length s.queue ≤ live_visual_queue_limit
      → length (enqueue start clock visuals s).queue ≤ live_visual_queue_limit
  unfolding enqueue
  length-enqueue clock visuals s h =
      subst (λ n. n ≤ live_visual_queue_limit)
        (sym (ap length (schedule-queue (enqueue_loop start clock visuals s))))
        (length-enqueue_loop clock visuals s h)
