-- ===== src/Live/Recovery/Ends.antt =====
-- Every round moves the cursor, so recovery ends; and what its status says (web/src/eventRecovery.ts).
use mc_carto_live.Prelude.{
  ℕ, zero, suc, ◌+◌, ◌-◌, ◌≤◌, ◌<◌, max, ◌≡◌, refl, ◌≢◌, inl, inr, Option, none, some, List, [],
  ◌∷◌, arith, Bool-cases, leb, is_some, ◌&&◌,
}
use mc_carto_live.Prelude.Int.{JsNumber}
use mc_carto_live.Live.Cursor.{valid_sequence, max_zero}
use mc_carto_live.Live.Recovery.{
  PublicEventsResponse, RecoverPublicEventPagesOptions, PageStep, stop, stop_after, next, Outcome,
  done, rejected, out_of_fuel, finite_sequence, fresh_events, page_of, handle_response,
  finish_round, round, recover_loop, recover_public_event_pages, after_page,
}

module _ {E : Type 0} (seq : E → JsNumber) where
  -- A round that goes on has moved the cursor, and is still below the latest sequence.
  page_of-next :
      (events : List E) (cursor latest pages : ℕ) (next_cursor : Option JsNumber) (page : List E)
      (to latest' : ℕ)
      → page_of seq events cursor latest pages next_cursor ≡ next page to latest'
      → (cursor < to) × (to < latest') × (latest' ≡ latest) × (page ≡ events)
  unfolding page_of
  page_of-next [] cursor latest pages nc page to latest' h = cc
  page_of-next (e ∷ es) cursor latest pages nc page to latest' h = ground arith

  pub handle_response-next :
      (r : PublicEventsResponse E) (cursor latest pages : ℕ) (page : List E) (to latest' : ℕ)
      → handle_response seq r cursor latest pages ≡ next page to latest'
      → (cursor < to)
        × (to < latest')
        × (latest' ≡ max latest (valid_sequence r.latest_seq))
        × (page ≡ fresh_events seq cursor r.events)
  unfolding handle_response
  handle_response-next r cursor latest pages page to latest' h = ground (
    arith,
    page_of-next (fresh_events seq cursor r.events) cursor
        (max latest (valid_sequence r.latest_seq)) pages r.next_cursor page to latest',
  )

  after_page-settles :
      (page : List E) (o : Outcome E) → o ≢ out_of_fuel → after_page page o ≢ out_of_fuel
  after_page-settles page (done pages r) h = λ e. cc
  after_page-settles page (rejected pages) h = λ e. cc
  after_page-settles page out_of_fuel h = λ e. h refl

  finish_round-settles :
      (step : PageStep E) (rest : ℕ → ℕ → Outcome E)
      → ((page : List E) (to latest : ℕ)
          → step ≡ next page to latest
          → rest to latest ≢ out_of_fuel)
      → finish_round seq step rest ≢ out_of_fuel
  unfolding finish_round
  finish_round-settles (stop r) rest h = λ e. cc
  finish_round-settles (stop_after page r) rest h = λ e. cc
  finish_round-settles (next page to latest) rest h =
      after_page-settles page (rest to latest) (h page to latest refl)

  module _ (options : RecoverPublicEventPagesOptions E) where
    -- No response of the server names a latest sequence above `top`.
    abbrev pub Within : ℕ → Type 0
    Within top =
        (n after limit : ℕ) (r : PublicEventsResponse E)
        → options.fetch_page n after limit ≡ some r
        → valid_sequence r.latest_seq ≤ top

    round-settles :
        (top cursor latest pages n after limit : ℕ) (rest : ℕ → ℕ → Outcome E)
        → Within top
        → latest ≤ top
        → ((to latest' : ℕ)
            → cursor < to
            → latest' ≤ top
            → to ≤ top
            → rest to latest' ≢ out_of_fuel)
        → (o : Option (PublicEventsResponse E)) → options.fetch_page n after limit ≡ o
        → round seq o cursor latest pages rest ≢ out_of_fuel
    unfolding round
    round-settles top cursor latest pages n after limit rest w h go none e = λ p. cc
    round-settles top cursor latest pages n after limit rest w h go (some r) e =
        finish_round-settles (handle_response seq r cursor latest pages) rest λ page to latest' q.
          let f = handle_response-next r cursor latest pages page to latest' q in
          let b = w n after limit r e in
          go to latest' f.0 (omega (arith, f.2)) (omega (arith, f.1, f.2))

    recover_loop-settles :
        (top fuel cursor latest pages : ℕ)
        → Within top
        → latest ≤ top
        → top - cursor < fuel
        → cursor ≤ top
        → recover_loop seq options fuel cursor latest pages ≢ out_of_fuel
    unfolding recover_loop
    recover_loop-settles top zero cursor latest pages w h m c = absurd (omega arith)
    recover_loop-settles top (suc fuel) cursor latest pages w h m c =
        elim (Bool-cases (options.is_active pages)) [
          | inl on ↦ rw on (
              round-settles top cursor latest (pages + 1) pages cursor options.limit _ w h
                (λ to latest' p q r.
                  recover_loop-settles top fuel to latest' (pages + 1) w q (omega arith) r)
                (options.fetch_page pages cursor options.limit) refl)
          | inr off ↦ rw off (λ e. cc)
        ]

    -- If no response names a latest sequence above `top`, and neither the start nor the target is
    -- above it, then recovery settles or is rejected within `top` minus the start, plus one, rounds.
    pub recover_public_event_pages-settles :
        (top fuel : ℕ)
        → Within top
        → max_zero options.after_seq ≤ top
        → finite_sequence options.target_seq ≤ top
        → top - max_zero options.after_seq < fuel
        → recover_public_event_pages seq options fuel ≢ out_of_fuel
    unfolding recover_public_event_pages
    recover_public_event_pages-settles top fuel w a t m =
        let cursor = max_zero options.after_seq in
        let latest = max cursor (finite_sequence options.target_seq) in
        let loop = recover_loop-settles top fuel cursor latest 0 w (omega arith) m a in
        elim (Bool-cases (is_some options.target_seq && leb latest cursor)) [
          | inl early ↦ rw early (λ e. cc)
          | inr late ↦ rw late loop
        ]
