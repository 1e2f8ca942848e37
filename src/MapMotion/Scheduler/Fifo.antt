-- ===== src/MapMotion/Scheduler/Fifo.antt =====
-- The scheduler of web/src/map/liveVisualScheduler.ts loses nothing and keeps the order.
use mathlib.Core.List.{append_assoc, append-nil}
use mc_carto_live.Prelude.{
  ℕ, zero, suc, ◌+◌, min, ◌≡◌, ◌≢◌, refl, sym, ap, ◌∙◌, ◌⊎◌, inl, inr, Bool, true, false, ◌||◌,
  List, [], ◌∷◌, ◌++◌, leb, length, arith, Bool-cases,
}
use mc_carto_live.MapMotion.Scheduler.{
  LiveVisualStartResult, started, retry, ineligible, LiveAnimationPressure, emergency, Clock,
  LiveVisualScheduler, note_start, queue_after, go_on, is_empty, schedule, prune_starts, pressure,
  start_oldest, make_room, enqueue_one, enqueue_loop, enqueue, drain_loop, drain_frame,
  live_visual_queue_limit, live_visual_max_starts_per_frame,
}

-- All that was queued: what was handled, and then what waits.
abbrev pub line : {T : Type 0} → LiveVisualScheduler T → List T
line s = s.handled ++ s.queue

line-note :
    {T : Type 0} (result : LiveVisualStartResult) (visual : T) (rest : List T) (now : ℕ)
    (s : LiveVisualScheduler T)
    → (note_start result visual now s).handled ++ queue_after result visual rest
      ≡ s.handled ++ visual ∷ rest
line-note started visual rest now s = append_assoc s.handled (visual ∷ []) rest
line-note retry visual rest now s = refl
line-note ineligible visual rest now s = append_assoc s.handled (visual ∷ []) rest

pub queue_after-gone :
    {T : Type 0} (result : LiveVisualStartResult) (visual : T) (rest : List T)
    → result ≢ retry
    → rest ≡ queue_after result visual rest
queue_after-gone started visual rest h = refl
queue_after-gone retry visual rest h = absurd (h refl)
queue_after-gone ineligible visual rest h = refl

line-go_on :
    {T : Type 0} (result : LiveVisualStartResult) (further stopped : LiveVisualScheduler T)
    (all : List T)
    → (result ≢ retry → line further ≡ all)
    → line stopped ≡ all
    → line (go_on result further stopped) ≡ all
line-go_on started further stopped all f s = f (λ e. cc)
line-go_on retry further stopped all f s = s
line-go_on ineligible further stopped all f s = f (λ e. cc)

waits :
    {T : Type 0} (frame : Bool) (queue : List T)
    → frame || is_empty queue ≡ true
    → (queue ≡ []) ⊎ (frame ≡ true)
waits true queue h = inr refl
waits false [] h = inl refl
waits false (v ∷ vs) h = absurd (ground arith)

line-schedule : {T : Type 0} (s : LiveVisualScheduler T) → line (schedule s) ≡ line s
line-schedule s = ground arith

module _ {T : Type 0} (start : ℕ → T → LiveAnimationPressure → LiveVisualStartResult) where
  line-make_room :
      (clock : Clock) (queue : List T) (s : LiveVisualScheduler T)
      → queue ≡ s.queue
      → line (make_room start clock queue s) ≡ line s
  unfolding make_room
  line-make_room clock [] s e = refl
  line-make_room clock (v ∷ vs) s e =
      line-note (start s.calls v emergency) v vs clock.now s ∙ ap (◌++◌ s.handled) e

  line-enqueue_one :
      (clock : Clock) (visual : T) (s : LiveVisualScheduler T)
      → line (enqueue_one start clock visual s) ≡ line s ++ visual ∷ []
  unfolding enqueue_one
  line-enqueue_one clock v s = elim (Bool-cases (leb live_visual_queue_limit (length s.queue))) [
    | inl full ↦
        let room = make_room start clock s.queue s in
        rw full (
          sym (append_assoc room.handled room.queue (v ∷ []))
          ∙ ap (λ xs. xs ++ v ∷ []) (line-make_room clock s.queue s refl))
    | inr space ↦ rw space (sym (append_assoc s.handled s.queue (v ∷ [])))
  ]

  line-enqueue_loop :
      (clock : Clock) (visuals : List T) (s : LiveVisualScheduler T)
      → line (enqueue_loop start clock visuals s) ≡ line s ++ visuals
  unfolding enqueue_loop
  line-enqueue_loop clock [] s = sym (append-nil (line s))
  line-enqueue_loop clock (v ∷ vs) s =
      line-enqueue_loop clock vs (enqueue_one start clock v s)
      ∙ ap (λ xs. xs ++ vs) (line-enqueue_one clock v s)
      ∙ append_assoc (line s) (v ∷ []) vs

  -- Whatever the full queue forces out and whatever is to be tried again: what was handled, followed
  -- by what waits, is what it was, followed by the visuals that were added.
  pub enqueue-line :
      (clock : Clock) (visuals : List T) (s : LiveVisualScheduler T)
      → line (enqueue start clock visuals s) ≡ line s ++ visuals
  unfolding enqueue
  enqueue-line clock visuals s =
      line-schedule (enqueue_loop start clock visuals s) ∙ line-enqueue_loop clock visuals s

  line-drain_loop :
      (n : ℕ) (clock : Clock) (queue : List T) (s : LiveVisualScheduler T)
      → queue ≡ s.queue
      → line (drain_loop start n clock queue s) ≡ line s
  unfolding drain_loop
  line-drain_loop zero clock queue s e = refl
  line-drain_loop (suc n) clock [] s e = refl
  line-drain_loop (suc n) clock (v ∷ vs) s e =
      let calm = prune_starts clock s in
      let p = pressure clock calm in
      let result = start calm.calls v p in
      let next = start_oldest start p clock.now v vs calm in
      let kept : line next ≡ line s =
        line-note result v vs clock.now calm ∙ ap (◌++◌ s.handled) e in
      line-go_on result (drain_loop start n clock vs next) next (line s)
        (λ gone. line-drain_loop n clock vs next (queue_after-gone result v vs gone) ∙ kept) kept

  -- A frame moves visuals from the front of the queue to the end of those handled, and loses none.
  pub drain_frame-line :
      (clock : Clock) (s : LiveVisualScheduler T) → line (drain_frame start clock s) ≡ line s
  unfolding drain_frame
  drain_frame-line clock s =
      let starts = min (length s.queue) live_visual_max_starts_per_frame in
      let idle = record s { frame = false } in
      line-schedule (drain_loop start starts clock s.queue idle)
      ∙ line-drain_loop starts clock s.queue idle refl

  -- No frame is asked for, and so many have been.
  abbrev IsQuiet : ℕ → LiveVisualScheduler T → Type 0
  IsQuiet n s = (s.frame ≡ false) × (s.asked ≡ n)

  note_start-IsQuiet :
      (n : ℕ) (result : LiveVisualStartResult) (v : T) (now : ℕ) (s : LiveVisualScheduler T)
      → IsQuiet n s
      → IsQuiet n (note_start result v now s)
  note_start-IsQuiet n started v now s h = h
  note_start-IsQuiet n retry v now s h = h
  note_start-IsQuiet n ineligible v now s h = h

  go_on-IsQuiet :
      (n : ℕ) (result : LiveVisualStartResult) (further stopped : LiveVisualScheduler T)
      → IsQuiet n further
      → IsQuiet n stopped
      → IsQuiet n (go_on result further stopped)
  go_on-IsQuiet n started further stopped f g = f
  go_on-IsQuiet n retry further stopped f g = g
  go_on-IsQuiet n ineligible further stopped f g = f

  -- Starting visuals asks for no frame.
  drain_loop-IsQuiet :
      (n k : ℕ) (clock : Clock) (queue : List T) (s : LiveVisualScheduler T)
      → IsQuiet n s
      → IsQuiet n (drain_loop start k clock queue s)
  unfolding drain_loop
  drain_loop-IsQuiet n zero clock queue s h = h
  drain_loop-IsQuiet n (suc k) clock [] s h = h
  drain_loop-IsQuiet n (suc k) clock (v ∷ vs) s h =
      let calm = prune_starts clock s in
      let p = pressure clock calm in
      let next = start_oldest start p clock.now v vs calm in
      let quiet = note_start-IsQuiet n (start calm.calls v p) v clock.now calm h in
      go_on-IsQuiet n (start calm.calls v p) (drain_loop start k clock vs next) next
        (drain_loop-IsQuiet n k clock vs next quiet) quiet

  -- Nothing waits, or a frame is asked for, the next after so many.
  abbrev pub IsAsked : ℕ → LiveVisualScheduler T → Type 0
  IsAsked n s = (s.queue ≡ []) ⊎ ((s.frame ≡ true) × (s.asked ≡ n + 1))

  schedule-IsAsked : (n : ℕ) (s : LiveVisualScheduler T) → IsQuiet n s → IsAsked n (schedule s)
  schedule-IsAsked n s (e, f) = by_queue s.queue refl
    where
      by_queue : (queue : List T) → s.queue ≡ queue → IsAsked n (schedule s)
      by_queue [] q = inl (ground (arith, e, q))
      by_queue (v ∷ vs) q = inr (ground (arith, e, q), ground (arith, e, f, q))

  -- A frame leaves no visual waiting without another frame, for which it has called `requestFrame` itself: it
  -- asks for one more than were asked for before it, or the queue is empty.
  pub drain_frame-IsAsked :
      (clock : Clock) (s : LiveVisualScheduler T) → IsAsked s.asked (drain_frame start clock s)
  unfolding drain_frame
  drain_frame-IsAsked clock s =
      let starts = min (length s.queue) live_visual_max_starts_per_frame in
      let idle = record s { frame = false } in
      let quiet = drain_loop-IsQuiet s.asked starts clock s.queue idle (refl, refl) in
      schedule-IsAsked s.asked (drain_loop start starts clock s.queue idle) quiet
