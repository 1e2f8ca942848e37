-- ===== src/Live/Recovery.antt =====
-- web/src/eventRecovery.ts: recovery of missed events, page by page.
-- `fetchPage` and `isActive` are the caller's: functions of the number of pages so far. A fetch
-- that rejects is `none`. `Number(value ?? 0)` of a response's field is a `JsNumber` here.
-- The loop takes fuel; Live/Recovery/Ends.antt shows how much is enough.
pub mod Ends
pub mod Pages
use mc_carto_live.Prelude.{
  ℕ, zero, suc, ◌+◌, ◌≤◌, max, Bool, true, false, ◌&&◌, Option, none, some, List, [], ◌∷◌, ◌++◌,
  ltb, is_some, leb, ◌==◌, if◌then◌else◌, filter,
}
use mc_carto_live.Prelude.Int.{ℤ, JsNumber}
use mc_carto_live.Prelude.Sort.{sort}
use mc_carto_live.Live.Cursor.{valid_sequence, max_zero}

pub data PublicEventRecoveryStatus : Type 0 where
  caught_up empty reset_required unrecoverable_gap cancelled : PublicEventRecoveryStatus

pub record PublicEventRecoveryResult : Type 0 where
  pub status : PublicEventRecoveryStatus
  pub cursor : ℕ
  pub latest_seq : ℕ
  pub pages : ℕ

pub record PublicEventsResponse (E : Type 0) : Type 0 where
  pub latest_seq : JsNumber
  pub reset_required : Bool
  pub events : List E
  pub next_cursor : Option JsNumber

pub record RecoverPublicEventPagesOptions (E : Type 0) : Type 0 where
  pub after_seq : ℤ
  pub target_seq : Option JsNumber
  pub limit : ℕ
  pub fetch_page : ℕ → ℕ → ℕ → Option (PublicEventsResponse E)
  pub is_active : ℕ → Bool

unfoldable pub finite_sequence : Option JsNumber → ℕ
unfolding valid_sequence
finite_sequence none = 0
finite_sequence (some value) = valid_sequence value

-- What one response leads to: a result with no page applied, a page applied and a result, or a
-- page applied and the next cursor and latest sequence.
pub data PageStep (E : Type 0) : Type 0 where
  stop : PublicEventRecoveryResult → PageStep E
  stop_after : List E → PublicEventRecoveryResult → PageStep E
  next : List E → ℕ → ℕ → PageStep E

-- The promise: settled with the pages that were applied, rejected by a fetch, or not settled
-- within the fuel.
pub data Outcome (E : Type 0) : Type 0 where
  done : List (List E) → PublicEventRecoveryResult → Outcome E
  rejected : List (List E) → Outcome E
  out_of_fuel : Outcome E

abbrev pub result : PublicEventRecoveryStatus → ℕ → ℕ → ℕ → PublicEventRecoveryResult
result status cursor latest pages = record {
  status = status;
  cursor = cursor;
  latest_seq = latest;
  pages = pages;
}

abbrev pub after_page : {E : Type 0} → List E → Outcome E → Outcome E
after_page page (done pages r) = done (page ∷ pages) r
after_page page (rejected pages) = rejected (page ∷ pages)
after_page page out_of_fuel = out_of_fuel

module _ {E : Type 0} (seq : E → JsNumber) where
  abbrev pub event_seq : E → ℕ
  event_seq e = valid_sequence (seq e)

  abbrev pub event_le : E → E → Bool
  event_le left right = leb (event_seq left) (event_seq right)

  -- `finiteSequence(events[events.length - 1]?.seq)`
  abbrev pub last_seq : List E → ℕ
  last_seq [] = 0
  last_seq (e ∷ []) = event_seq e
  last_seq (e ∷ e' ∷ es) = last_seq (e' ∷ es)

  unfoldable pub fresh_events : ℕ → List E → List E
  fresh_events cursor events = sort event_le (filter (λ e. ltb cursor (event_seq e)) events)

  -- From `applyPage` to the end of the round, on a page that is not empty.
  unfoldable pub apply_page : List E → ℕ → ℕ → ℕ → Option JsNumber → PageStep E
  unfolding finite_sequence
  apply_page events cursor latest pages next_cursor =
      let to = max (last_seq events) (finite_sequence next_cursor) in
      if leb to cursor
      then stop_after events (result unrecoverable_gap cursor latest pages)
      else if leb latest to
      then stop_after events (result caught_up to latest pages)
      else next events to latest

  unfoldable pub page_of : List E → ℕ → ℕ → ℕ → Option JsNumber → PageStep E
  unfolding apply_page
  page_of [] cursor latest pages next_cursor =
      let status =
        if leb latest cursor
        then (if cursor == 0 then empty else caught_up)
        else unrecoverable_gap in
      stop (result status cursor latest pages)
  page_of (e ∷ es) cursor latest pages next_cursor =
      apply_page (e ∷ es) cursor latest pages next_cursor

  -- One round, once the response is there; `pages` counts it.
  unfoldable pub handle_response : PublicEventsResponse E → ℕ → ℕ → ℕ → PageStep E
  unfolding fresh_events page_of
  handle_response response cursor latest pages =
      let response_latest = valid_sequence response.latest_seq in
      if response.reset_required
      then stop (
          result (if response_latest == 0 && cursor == 0 then empty else reset_required) cursor
            response_latest pages)
      else page_of (fresh_events cursor response.events) cursor (max latest response_latest) pages
          response.next_cursor

  -- How a round ends, given what the next rounds make of a cursor and a latest sequence.
  unfoldable pub finish_round : PageStep E → (ℕ → ℕ → Outcome E) → Outcome E
  finish_round (stop r) rest = done [] r
  finish_round (stop_after page r) rest = done (page ∷ []) r
  finish_round (next page to latest) rest = after_page page (rest to latest)

  unfoldable pub round :
      Option (PublicEventsResponse E) → ℕ → ℕ → ℕ → (ℕ → ℕ → Outcome E) → Outcome E
  unfolding handle_response finish_round
  round none cursor latest pages rest = rejected []
  round (some response) cursor latest pages rest =
      finish_round (handle_response response cursor latest pages) rest

  module _ (options : RecoverPublicEventPagesOptions E) where
    unfoldable pub recover_loop : ℕ → ℕ → ℕ → ℕ → Outcome E
    unfolding round
    recover_loop zero cursor latest pages = out_of_fuel
    recover_loop (suc fuel) cursor latest pages =
        if options.is_active pages
        then round (options.fetch_page pages cursor options.limit) cursor latest (pages + 1)
            (λ to latest'. recover_loop fuel to latest' (pages + 1))
        else done [] (result cancelled cursor latest pages)

    unfoldable pub recover_public_event_pages : ℕ → Outcome E
    unfolding recover_loop
    recover_public_event_pages fuel =
        let cursor = max_zero options.after_seq in
        let latest = max cursor (finite_sequence options.target_seq) in
        if is_some options.target_seq && leb latest cursor
        then done [] (result (if cursor == 0 then empty else caught_up) cursor latest 0)
        else recover_loop fuel cursor latest 0
