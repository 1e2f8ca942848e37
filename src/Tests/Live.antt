-- ===== src/Tests/Live.antt =====
-- The feed (web/src/liveCursor.ts, livePacing.ts, eventRecovery.ts) on small inputs.
use mc_carto_live.Prelude.{
  ℕ, ◌≡◌, refl, ap, ◌≢◌, ◌≤◌, ◌<◌, ◌⊎◌, length, true, false, Option, ◌++◌, min, max, none, some, [],
  All, arith,
}
use mc_carto_live.Prelude.Int.{pos, negsuc, JsNumber, int}
use mc_carto_live.Types.{PublicEvent, hello}
use mc_carto_live.Live.Cursor.{
  take_increasing_live_envelopes, retain_live_envelopes_after_cursor, valid_sequence,
}
use mc_carto_live.Live.Cursor.Order.{Rises, durables, take_increasing-Rises}
use mc_carto_live.Live.Cursor.Complete.{Occurs, take_increasing_complete}
use mc_carto_live.Live.Cursor.Again.{take_increasing-again}
use mc_carto_live.Live.Pacing.{
  seq_of, durable_sequence, live_envelope_display_at, take_due_live_envelopes,
  compare_live_envelopes,
}
use mc_carto_live.Live.Pacing.Queue.{take_due-perm}
use mathlib.Core.List.{Perm}
use mc_carto_live.Live.Pacing.Order.{IsDurable, compare_live_envelopes-cycle}
use mc_carto_live.Live.Pacing.Batch.{take_due-take_increasing}
use mc_carto_live.Live.Recovery.{
  PublicEventsResponse, RecoverPublicEventPagesOptions, recover_public_event_pages, out_of_fuel,
  finite_sequence,
}
use mc_carto_live.Live.Recovery.Ends.{recover_public_event_pages-settles}
use mc_carto_live.Live.Recovery.Pages.{IsSound, recover_public_event_pages-IsSound}
use mc_carto_live.Live.Resume.{
  ResumeRecovery, Page, focus, freeze, install_resume_recovery, handle, resume, settle,
}
use mc_carto_live.Live.Resume.Steps.{signal, Reachable, installed, stepped}
use mc_carto_live.Live.Resume.Cycles.{IsCycled, Reachable-IsCycled, Reachable-resume}
use mc_carto_live.Prelude.{◌∷◌}
use mc_carto_live.Tests.Data.{live_batch, queue, envelope, live_wire, stored}

take_increasing-Rises_example :
    let b = take_increasing_live_envelopes live_wire live_batch (negsuc 2) in
    Rises 0 (durables live_wire b.accepted) b.cursor
take_increasing-Rises_example = take_increasing-Rises live_wire live_batch (negsuc 2)

take_increasing_complete_example :
    let b = take_increasing_live_envelopes live_wire live_batch (pos 4) in
    All (λ s. (s ≤ 4) ⊎ Occurs s (durables live_wire b.accepted)) (durables live_wire live_batch)
unfolding take_increasing_live_envelopes
take_increasing_complete_example = take_increasing_complete live_wire live_batch (pos 4) refl

take_increasing-again_example :
    let again = take_increasing_live_envelopes live_wire queue (pos 9) in
    (durables live_wire again.accepted ≡ [])
    × (again.cursor ≡ 9)
    × (durables live_wire (retain_live_envelopes_after_cursor live_wire queue 9) ≡ [])
unfolding take_increasing_live_envelopes
take_increasing-again_example = take_increasing-again live_wire queue (pos 5)

take_due-perm_example :
    let r = take_due_live_envelopes live_wire queue 2 in
    Perm (r.due ++ r.pending) queue × (length r.due ≡ min (max 1 2) (length queue))
take_due-perm_example = take_due-perm live_wire queue 2

queue-IsDurable : All (IsDurable live_wire) queue
unfolding durable_sequence
queue-IsDurable = (omega arith, (omega arith, (omega arith, tt)))

queue-above : All (λ m. 6 < seq_of live_wire m) queue
unfolding durable_sequence
queue-above = (omega arith, (omega arith, (omega arith, tt)))

compare_live_envelopes-cycle_example :
    let late = record (envelope 8 hello) { received_at = some 100 } in
    let early = record (envelope 7 hello) { received_at = some 300 } in
    let between = record (envelope 0 hello) { received_at = some 200 } in
    (compare_live_envelopes live_wire between late ≡ false)
    × (compare_live_envelopes live_wire early between ≡ false)
    × (compare_live_envelopes live_wire late early ≡ false)
unfolding durable_sequence live_envelope_display_at
compare_live_envelopes-cycle_example =
    compare_live_envelopes-cycle live_wire (record (envelope 8 hello) { received_at = some 100 })
      (record (envelope 7 hello) { received_at = some 300 })
      (record (envelope 0 hello) { received_at = some 200 }) (omega arith) (omega arith) refl
      (omega arith) (omega arith)

take_due-take_increasing_example :
    let due = (take_due_live_envelopes live_wire queue 2).due in
    let b = take_increasing_live_envelopes live_wire due (pos 6) in
    (b.non_monotonic ≡ false)
    × (b.invalid_seen ≡ false)
    × All (λ s. (s ≤ 6) ⊎ Occurs s (durables live_wire b.accepted)) (durables live_wire due)
take_due-take_increasing_example =
    take_due-take_increasing live_wire 6 2 queue queue-IsDurable queue-above

abbrev event_number : PublicEvent → JsNumber
event_number e = int (pos e.seq)

-- The server has the three stored events and sends them whatever is asked for.
abbrev page : PublicEventsResponse PublicEvent
page = record {
  latest_seq = int (pos 7);
  reset_required = false;
  events = stored;
  next_cursor = none;
}

abbrev options : RecoverPublicEventPagesOptions PublicEvent
options = record {
  after_seq = pos 5;
  target_seq = none;
  limit = 1000;
  fetch_page = λ n after limit. some page;
  is_active = λ n. true;
}

abbrev latest_of : Option (PublicEventsResponse PublicEvent) → ℕ
latest_of none = 0
latest_of (some r) = valid_sequence r.latest_seq

page-le :
    (r : PublicEventsResponse PublicEvent) → some page ≡ some r → valid_sequence r.latest_seq ≤ 7
unfolding valid_sequence
page-le r h = let same : 7 ≡ valid_sequence r.latest_seq = ap latest_of h in omega arith

recover_public_event_pages-settles_example :
    recover_public_event_pages event_number options 3 ≢ out_of_fuel
unfolding finite_sequence
recover_public_event_pages-settles_example =
    recover_public_event_pages-settles event_number options 7 3 (λ n after limit r h. page-le r h)
      (omega arith) (omega arith) (omega arith)

recover_public_event_pages-IsSound_example :
    IsSound event_number 5 (recover_public_event_pages event_number options 3)
recover_public_event_pages-IsSound_example =
    recover_public_event_pages-IsSound event_number options 3

abbrev shown : Page
shown = record { hidden = false; should_rehydrate = true; now = 5000; suspend_throws = false }

-- The page came back, and went away again while its refresh is in flight.
abbrev away_again : ResumeRecovery
away_again = handle 1000 freeze shown (handle 1000 focus shown (install_resume_recovery true))

away_again-Reachable : Reachable 1000 away_again
unfolding install_resume_recovery handle
away_again-Reachable =
    stepped _ _
      (stepped _ _ (installed true) (signal (install_resume_recovery true) shown focus refl))
      (signal (handle 1000 focus shown (install_resume_recovery true)) shown freeze refl)

Reachable-IsCycled_example : IsCycled away_again
Reachable-IsCycled_example = Reachable-IsCycled 1000 away_again away_again-Reachable

Reachable-resume_example : (settle shown (resume 1000 false shown away_again)).calls ≡ 2 ∷ 1 ∷ []
unfolding install_resume_recovery handle
Reachable-resume_example =
    Reachable-resume 1000 away_again false shown shown away_again-Reachable refl refl refl
