-- ===== src/Live/Resume.antt =====
-- web/src/resumeRecovery.ts: one refresh for each time that the page was suspended. The variables
-- of `installResumeRecovery` are a record, each listener is a function on it, and a call of
-- `options.rehydrate` is an entry of `calls`, with the cycle it is for; the calls of `options.onSuspend`
-- are counted. What the listeners read (`document.hidden`, `shouldRehydrate()`, `now()`) and whether
-- `onSuspend` throws come with each event.
pub mod Steps
pub mod Cycles
use mc_carto_live.Prelude.{
  ℕ, ◌+◌, ◌-◌, max, Bool, true, false, not, ◌&&◌, ◌||◌, ◌≡◌, Option, none, some, List, [], ◌∷◌, ltb,
  leb, if◌then◌else◌,
}

-- `lastResumeAt` is `none` for minus infinity.
pub record ResumeRecovery : Type 0 where
  pub disposed : Bool
  pub suspended : Bool
  pub cycle : ℕ
  pub started_cycle : ℕ
  pub queued_cycle : ℕ
  pub in_flight : Bool
  pub last_resume_at : Option ℕ
  pub calls : List ℕ
  pub suspend_calls : ℕ

-- What a listener sees.
pub record Page : Type 0 where
  pub hidden : Bool
  pub should_rehydrate : Bool
  pub now : ℕ
  pub suspend_throws : Bool

unfoldable pub install_resume_recovery : Bool → ResumeRecovery
install_resume_recovery hidden = record {
  disposed = false;
  suspended = hidden;
  cycle = if hidden then 1 else 0;
  started_cycle = 0;
  queued_cycle = 0;
  in_flight = false;
  last_resume_at = none;
  calls = [];
  suspend_calls = 0;
}

unfoldable pub start : ℕ → ResumeRecovery → ResumeRecovery
start target r =
    if r.disposed || leb target r.started_cycle
    then r
    else if r.in_flight
    then record r { queued_cycle = max r.queued_cycle target }
    else record r { started_cycle = target; in_flight = true; calls = target ∷ r.calls }

-- `disposed || options.document.hidden || !options.shouldRehydrate()`
abbrev pub is_idle : Page → ResumeRecovery → Bool
is_idle page r = r.disposed || page.hidden || not page.should_rehydrate

-- The `finally` of a refresh.
unfoldable pub settle : Page → ResumeRecovery → ResumeRecovery
unfolding start
settle page r =
    let landed = record r { in_flight = false } in
    if is_idle page r
    then landed
    else if ltb r.started_cycle r.queued_cycle
    then start r.queued_cycle (record landed { queued_cycle = 0 })
    else landed

-- `options.onSuspend` is given. If it throws, the page is not marked, though its cycle has begun.
unfoldable pub mark_suspended : Page → ResumeRecovery → ResumeRecovery
mark_suspended page r = if r.suspended then r else record r {
  cycle = r.cycle + 1;
  suspend_calls = r.suspend_calls + 1;
  suspended = not page.suspend_throws;
}

-- `resumedAt - lastResumeAt < forceDedupeMs`
abbrev pub is_repeated : ℕ → ℕ → Option ℕ → Bool
is_repeated force_dedupe_ms resumed_at none = false
is_repeated force_dedupe_ms resumed_at (some last) = ltb resumed_at (last + force_dedupe_ms)

-- The end of `resume`: with the cycle that is to be refreshed.
abbrev pub resumed : ℕ → Page → ResumeRecovery → ResumeRecovery
resumed cycle page r =
    start cycle (record r { cycle = cycle; last_resume_at = some page.now; suspended = false })

unfoldable pub resume : ℕ → Bool → Page → ResumeRecovery → ResumeRecovery
unfolding start
resume force_dedupe_ms force page r =
    if is_idle page r
    then r
    else if r.suspended
    then resumed r.cycle page r
    else if force && not (is_repeated force_dedupe_ms page.now r.last_resume_at)
    then resumed (r.cycle + 1) page r
    else r

-- The listeners' events; `page_show` carries `persisted`.
pub data Signal : Type 0 where
  visibility_change freeze resume_event page_hide blur focus : Signal
  page_show : Bool → Signal

unfoldable pub handle : ℕ → Signal → Page → ResumeRecovery → ResumeRecovery
unfolding resume mark_suspended
handle force_dedupe_ms visibility_change page r =
    if page.hidden then mark_suspended page r else resume force_dedupe_ms false page r
handle force_dedupe_ms freeze page r = mark_suspended page r
handle force_dedupe_ms resume_event page r = resume force_dedupe_ms true page r
handle force_dedupe_ms page_hide page r = mark_suspended page r
handle force_dedupe_ms blur page r = mark_suspended page r
handle force_dedupe_ms focus page r = resume force_dedupe_ms false page r
handle force_dedupe_ms (page_show persisted) page r = resume force_dedupe_ms persisted page r

-- The function that `installResumeRecovery` returns. Its listeners are gone after it.
abbrev pub dispose : ResumeRecovery → ResumeRecovery
dispose r = record r { disposed = true }
