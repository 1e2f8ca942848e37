-- ===== src/Live/Resume/Cycles.antt =====
-- Which refreshes the runs of web/src/resumeRecovery.ts make.
use mc_carto_live.Prelude.{
  ℕ, ◌+◌, ◌≤◌, ◌<◌, max, Bool, true, false, not, ◌≡◌, refl, ap, ◌∙◌, some, List, [], ◌∷◌, ltb, leb,
  if◌then◌else◌, arith, ◌&&◌, ◌||◌, Bool-cases, inl, inr,
}
use mc_carto_live.Live.Resume.{
  ResumeRecovery, Page, Signal, visibility_change, freeze, resume_event, page_hide, blur, focus,
  page_show, install_resume_recovery, start, settle, mark_suspended, is_idle, is_repeated, resumed,
  resume, handle,
}
use mc_carto_live.Live.Resume.Steps.{Step, signal, land, close, Reachable, installed, stepped}

-- The numbers fall strictly from `hi`, down to something positive.
abbrev pub Falls : ℕ → List ℕ → Type 0
Falls hi [] = hi ≡ 0
Falls hi (x ∷ xs) = (hi ≡ x) × ((lower : ℕ) × ((lower < x) × Falls lower xs))

-- One for a page that is suspended.
abbrev pub pending : Bool → ℕ
pending suspended = if suspended then 1 else 0

-- The newest call is for the started cycle, older calls are for smaller ones, and no cycle is started
-- or queued before it has begun; the cycle in which the page is suspended is neither.
pub record IsCycled (r : ResumeRecovery) : Type 0 where
  pub falls : Falls r.started_cycle r.calls
  pub started : r.started_cycle + pending r.suspended ≤ r.cycle
  pub queued : r.queued_cycle + pending r.suspended ≤ r.cycle

start-IsCycled :
    (target : ℕ) (r : ResumeRecovery)
    → target + pending r.suspended ≤ r.cycle
    → IsCycled r
    → IsCycled (start target r)
unfolding start
start-IsCycled target r h c = elim (Bool-cases (r.disposed || leb target r.started_cycle)) [
  | inl no_start ↦ rw no_start c
  | inr new ↦ elim (Bool-cases r.in_flight) [
    | inl busy ↦
        rw (new, busy)
          (record { falls = c.falls; started = c.started; queued = omega (arith, h, c.queued) })
    | inr ready ↦
        rw (new, ready)
          (record {
            falls = (refl, (r.started_cycle, (ground (arith, new), c.falls)));
            started = h;
            queued = c.queued;
          })
  ]
]

if-IsCycled :
    (b : Bool) (x y : ResumeRecovery) → IsCycled x → IsCycled y → IsCycled (if b then x else y)
if-IsCycled true x y p q = p
if-IsCycled false x y p q = q

settle-IsCycled : (page : Page) (r : ResumeRecovery) → IsCycled r → IsCycled (settle page r)
unfolding settle
settle-IsCycled page r c =
    let landed : IsCycled (record r { in_flight = false }) = record {
      falls = c.falls;
      started = c.started;
      queued = c.queued;
    } in
    if-IsCycled (is_idle page r) _ _ landed (
      if-IsCycled (ltb r.started_cycle r.queued_cycle) _ _
        (start-IsCycled r.queued_cycle (record r { in_flight = false; queued_cycle = 0 }) c.queued
          (record { falls = c.falls; started = c.started; queued = omega (arith, c.queued) }))
        landed)

pending-le : (suspended : Bool) → pending suspended ≤ 1
pending-le true = omega arith
pending-le false = omega arith

mark_suspended-IsCycled :
    (page : Page) (r : ResumeRecovery) → IsCycled r → IsCycled (mark_suspended page r)
unfolding mark_suspended
mark_suspended-IsCycled page r c = if-IsCycled r.suspended r _ c (record {
  falls = c.falls;
  started = omega (arith, c.started, pending-le (not page.suspend_throws));
  queued = omega (arith, c.queued, pending-le (not page.suspend_throws));
})

resumed-IsCycled :
    (cycle : ℕ) (page : Page) (r : ResumeRecovery)
    → r.cycle ≤ cycle
    → IsCycled r
    → IsCycled (resumed cycle page r)
resumed-IsCycled cycle page r h c =
    start-IsCycled cycle
      (record r { cycle = cycle; last_resume_at = some page.now; suspended = false }) (omega arith)
      (record {
        falls = c.falls;
        started = omega (arith, c.started, h);
        queued = omega (arith, c.queued, h);
      })

resume-IsCycled :
    (ms : ℕ) (force : Bool) (page : Page) (r : ResumeRecovery)
    → IsCycled r
    → IsCycled (resume ms force page r)
unfolding resume
resume-IsCycled ms force page r c = if-IsCycled (is_idle page r) r _ c (
    if-IsCycled r.suspended (resumed r.cycle page r) _
      (resumed-IsCycled r.cycle page r (omega arith) c)
      (if-IsCycled (force && not (is_repeated ms page.now r.last_resume_at))
        (resumed (r.cycle + 1) page r) r (resumed-IsCycled (r.cycle + 1) page r (omega arith) c) c))

handle-IsCycled :
    (ms : ℕ) (event : Signal) (page : Page) (r : ResumeRecovery)
    → IsCycled r
    → IsCycled (handle ms event page r)
unfolding handle
handle-IsCycled ms visibility_change page r c =
    if-IsCycled page.hidden (mark_suspended page r) (resume ms false page r)
      (mark_suspended-IsCycled page r c) (resume-IsCycled ms false page r c)
handle-IsCycled ms freeze page r c = mark_suspended-IsCycled page r c
handle-IsCycled ms resume_event page r c = resume-IsCycled ms true page r c
handle-IsCycled ms page_hide page r c = mark_suspended-IsCycled page r c
handle-IsCycled ms blur page r c = mark_suspended-IsCycled page r c
handle-IsCycled ms focus page r c = resume-IsCycled ms false page r c
handle-IsCycled ms (page_show persisted) page r c = resume-IsCycled ms persisted page r c

start-calls :
    (target : ℕ) (r : ResumeRecovery)
    → r.disposed ≡ false
    → r.started_cycle < target
    → r.in_flight ≡ false
    → (start target r).calls ≡ target ∷ r.calls
unfolding start
start-calls target r d h f = ground arith

start-busy :
    (target : ℕ) (r : ResumeRecovery)
    → r.disposed ≡ false
    → r.started_cycle < target
    → r.in_flight ≡ true
    → start target r ≡ record r { queued_cycle = max r.queued_cycle target }
unfolding start
start-busy target r d h f = ground arith

settle-calls :
    (page : Page) (r : ResumeRecovery)
    → is_idle page r ≡ false
    → r.started_cycle < r.queued_cycle
    → (settle page r).calls ≡ r.queued_cycle ∷ r.calls
unfolding settle start
settle-calls page r a h = ground arith

-- A page that comes back from a suspension resumes the cycle that began with it.
resume-back :
    (ms : ℕ) (force : Bool) (page : Page) (r : ResumeRecovery)
    → is_idle page r ≡ false
    → r.suspended ≡ true
    → resume ms force page r ≡ resumed r.cycle page r
unfolding resume
resume-back ms force page r a s = ground arith

calls_of_if :
    (b : Bool) (x y : ResumeRecovery) (calls : List ℕ)
    → (b ≡ true → x.calls ≡ calls)
    → (b ≡ false → y.calls ≡ calls)
    → (if b then x else y).calls ≡ calls
calls_of_if true x y calls p q = p refl
calls_of_if false x y calls p q = q refl

module _ (force_dedupe_ms : ℕ) where
  Step-IsCycled : (r r' : ResumeRecovery) → Step force_dedupe_ms r r' → IsCycled r → IsCycled r'
  Step-IsCycled _ _ (signal r page event on) c = handle-IsCycled force_dedupe_ms event page r c
  Step-IsCycled _ _ (land r page busy) c = settle-IsCycled page r c
  Step-IsCycled _ _ (close r) c = record { falls = c.falls; started = c.started; queued = c.queued }

  -- In whatever order the signals, the ends of refreshes and the disposal come, the calls of the
  -- refresh are for strictly rising cycles, none of which has yet to begin: no cycle is refreshed twice.
  pub Reachable-IsCycled : (r : ResumeRecovery) → Reachable force_dedupe_ms r → IsCycled r
  unfolding install_resume_recovery
  Reachable-IsCycled _ (installed true) = record {
    falls = refl;
    started = omega arith;
    queued = omega arith;
  }
  Reachable-IsCycled _ (installed false) = record {
    falls = refl;
    started = omega arith;
    queued = omega arith;
  }
  Reachable-IsCycled _ (stepped r r' h s) = Step-IsCycled r r' s (Reachable-IsCycled r h)

  -- A page that was suspended and comes back, shown and to be refreshed, gets its refresh: at once if
  -- none is in flight, and otherwise when the one in flight ends with the page still shown.
  pub Reachable-resume :
      (r : ResumeRecovery) (force : Bool) (page later : Page)
      → Reachable force_dedupe_ms r
      → r.suspended ≡ true
      → is_idle page r ≡ false
      → is_idle later r ≡ false
      → let r' = resume force_dedupe_ms force page r in
        (if r.in_flight then settle later r' else r').calls ≡ r.cycle ∷ r.calls
  Reachable-resume r force page later h s a b =
      let c = Reachable-IsCycled r h in
      let on : r.disposed ≡ false = ground arith in
      let behind : r.started_cycle < r.cycle = ground (arith, c.started) in
      let below : max r.queued_cycle r.cycle ≡ r.cycle = ground (arith, c.queued) in
      let r' = resume force_dedupe_ms force page r in
      let back = record r { cycle = r.cycle; last_resume_at = some page.now; suspended = false } in
      let e = resume-back force_dedupe_ms force page r a s in
      calls_of_if r.in_flight (settle later r') r' (r.cycle ∷ r.calls)
        (λ busy.
          let e' = e ∙ start-busy r.cycle back on behind busy in
          let queued = record back { queued_cycle = max r.queued_cycle r.cycle } in
          ap (λ (q : ResumeRecovery). (settle later q).calls) e'
          ∙ settle-calls later queued b (omega (arith, behind))
          ∙ ap (λ n. n ∷ r.calls) below)
        (λ ready. ap (λ (q : ResumeRecovery). q.calls) e ∙ start-calls r.cycle back on behind ready)

  -- No step after the disposal refreshes, and none takes the disposal back.
  pub Step-disposed :
      (r r' : ResumeRecovery)
      → Step force_dedupe_ms r r'
      → r.disposed ≡ true
      → (r'.calls ≡ r.calls) × (r'.disposed ≡ true)
  unfolding settle
  Step-disposed _ _ (signal r page event on) d = absurd (ground (arith, on, d))
  Step-disposed _ _ (land r page busy) d = rw d (refl, refl)
  Step-disposed _ _ (close r) d = (refl, refl)
