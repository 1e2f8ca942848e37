-- ===== src/Live/Recovery/Pages.antt =====
-- Which events recovery applies, and what its result says (web/src/eventRecovery.ts).
use mc_carto_live.Prelude.{
  ℕ, zero, suc, ◌+◌, ◌≤◌, ◌<◌, max, ◌≡◌, refl, sym, ◌⊎◌, inl, inr, ◌&&◌, Option, none, some, List,
  [], ◌∷◌, arith, tests, leb→le, Bool-cases, leb, ltb, ◌==◌, is_some, All, All-mono, filter,
}
use mc_carto_live.Prelude.Int.{JsNumber}
use mc_carto_live.Prelude.Sort.{IsSorted, sort-All, sort-IsSorted}
use mc_carto_live.Live.Cursor.{valid_sequence, max_zero}
use mc_carto_live.Live.Recovery.{
  PublicEventRecoveryStatus, PublicEventRecoveryResult, PublicEventsResponse,
  RecoverPublicEventPagesOptions, caught_up, empty, reset_required, unrecoverable_gap, cancelled,
  PageStep, stop, stop_after, next, Outcome, done, rejected, out_of_fuel, finite_sequence,
  event_seq, event_le, last_seq, fresh_events, apply_page, page_of, handle_response, finish_round,
  round, recover_loop, recover_public_event_pages, after_page,
}

-- What a status claims of the cursor and the latest sequence beside it.
abbrev pub Claims : PublicEventRecoveryStatus → ℕ → ℕ → Type 0
Claims caught_up cursor latest = (latest ≤ cursor) × (0 < cursor)
Claims empty cursor latest = (cursor ≡ 0) × (latest ≡ 0)
Claims unrecoverable_gap cursor latest = cursor < latest
Claims reset_required cursor latest = (0 < cursor) ⊎ (0 < latest)
Claims cancelled cursor latest = Unit {0}

abbrev pub IsHonest : PublicEventRecoveryResult → Type 0
IsHonest r = Claims r.status r.cursor r.latest_seq

module _ {E : Type 0} (seq : E → JsNumber) where
  -- A page that is applied between the cursors `lo` and `hi`: in order, all of it above `lo`, and
  -- none of it above `hi`.
  abbrev pub IsPage : ℕ → ℕ → List E → Type 0
  IsPage lo hi page =
      (lo < hi)
      × All (λ e. lo < event_seq seq e) page
      × All (λ e. event_seq seq e ≤ hi) page
      × IsSorted (event_le seq) page

  -- Pages one after another, each above the cursor at which the one before it ended.
  abbrev pub Applies : ℕ → List (List E) → ℕ → Type 0
  Applies lo [] hi = lo ≡ hi
  Applies lo (page ∷ pages) hi = (mid : ℕ) × IsPage lo mid page × Applies mid pages hi

  All-le_last :
      (e : E) (es : List E)
      → IsSorted (event_le seq) (e ∷ es)
      → (event_seq seq e ≤ last_seq seq (e ∷ es))
        × All (λ x. event_seq seq x ≤ last_seq seq (e ∷ es)) es
  All-le_last e [] s = (omega arith, tt)
  All-le_last e (e' ∷ es) s =
      let rest = All-le_last e' es s.1 in (omega (tests, rest.0, leb→le _ _ s.0), (rest.0, rest.1))

  fresh-above :
      (cursor : ℕ) (es : List E)
      → All (λ e. cursor < event_seq seq e) (filter (λ e. ltb cursor (event_seq seq e)) es)
  fresh-above cursor [] = tt
  fresh-above cursor (e ∷ es) = ground (arith, fresh-above cursor es)

  fresh_events-above :
      (cursor : ℕ) (es : List E) → All (λ e. cursor < event_seq seq e) (fresh_events seq cursor es)
  unfolding fresh_events
  fresh_events-above cursor es =
      sort-All (event_le seq) (λ e. cursor < event_seq seq e) _ (fresh-above cursor es)

  fresh_events-IsSorted :
      (cursor : ℕ) (es : List E) → IsSorted (event_le seq) (fresh_events seq cursor es)
  unfolding fresh_events
  fresh_events-IsSorted cursor es =
      sort-IsSorted (event_le seq) (λ e. cursor < event_seq seq e) (λ a b p q h. ground arith) _
        (fresh-above cursor es)

  abbrev StepSound : ℕ → PageStep E → Type 0
  StepSound lo (stop r) = (r.cursor ≡ lo) × IsHonest r
  StepSound lo (stop_after page r) = IsPage lo r.cursor page × IsHonest r
  StepSound lo (next page to latest) = IsPage lo to page

  IsPage-wider :
      (lo hi : ℕ) (page : List E)
      → lo < hi
      → last_seq seq page ≤ hi
      → All (λ e. lo < event_seq seq e) page
      → IsSorted (event_le seq) page
      → IsPage lo hi page
  IsPage-wider lo hi [] p h a s = (p, tt, tt, tt)
  IsPage-wider lo hi (e ∷ es) p h a s =
      let below = All-le_last e es s in
      (
        p,
        a,
        All-mono (λ x. event_seq seq x ≤ last_seq seq (e ∷ es)) (λ x. event_seq seq x ≤ hi) (e ∷ es)
            (λ x q. omega arith) below,
        s,
      )

  apply_page_sound :
      (e : E) (es : List E) (cursor latest pages : ℕ) (next_cursor : Option JsNumber)
      → All (λ x. cursor < event_seq seq x) (e ∷ es)
      → IsSorted (event_le seq) (e ∷ es)
      → StepSound cursor (apply_page seq (e ∷ es) cursor latest pages next_cursor)
  unfolding apply_page
  apply_page_sound e es cursor latest pages nc a s =
      let to = max (last_seq seq (e ∷ es)) (finite_sequence nc) in
      let moved : cursor < to = omega (arith, a.0, (All-le_last e es s).0) in
      let page = IsPage-wider cursor to (e ∷ es) moved (omega arith) a s in
      elim (Bool-cases (leb to cursor)) [
        | inl stuck ↦ absurd (omega (tests, leb→le _ _ stuck))
        | inr on ↦ elim (Bool-cases (leb latest to)) [
          | inl last ↦ rw (on, last) (page, (omega (tests, leb→le _ _ last), omega arith))
          | inr more ↦ rw (on, more) page
        ]
      ]

  page_of_sound :
      (page : List E) (cursor latest pages : ℕ) (next_cursor : Option JsNumber)
      → All (λ x. cursor < event_seq seq x) page
      → IsSorted (event_le seq) page
      → StepSound cursor (page_of seq page cursor latest pages next_cursor)
  unfolding page_of
  page_of_sound [] cursor latest pages nc a s = elim (Bool-cases (leb latest cursor)) [
    | inl known ↦ elim (Bool-cases (cursor == 0)) [
      | inl start ↦ rw (known, start) (refl, ground arith)
      | inr on ↦ rw (known, on) (refl, ground arith)
    ]
    | inr gap ↦ rw gap (refl, ground arith)
  ]
  page_of_sound (e ∷ es) cursor latest pages nc a s =
      apply_page_sound e es cursor latest pages nc a s

  handle_response_sound :
      (r : PublicEventsResponse E) (cursor latest pages : ℕ)
      → StepSound cursor (handle_response seq r cursor latest pages)
  unfolding handle_response
  handle_response_sound r cursor latest pages = elim (Bool-cases r.reset_required) [
    | inl reset ↦ elim (Bool-cases (valid_sequence r.latest_seq == 0 && cursor == 0)) [
      | inl nothing ↦ rw (reset, nothing) (refl, ground arith)
      | inr some_seq ↦ rw (reset, some_seq) (refl, ground arith)
    ]
    | inr go ↦ rw go (
        page_of_sound (fresh_events seq cursor r.events) cursor _ pages r.next_cursor
          (fresh_events-above cursor r.events) (fresh_events-IsSorted cursor r.events))
  ]

  -- What is applied, and what the result says; after a rejected fetch, what was applied.
  abbrev pub IsSound : ℕ → Outcome E → Type 0
  IsSound lo (done pages r) = Applies lo pages r.cursor × IsHonest r
  IsSound lo (rejected pages) = (hi : ℕ) × Applies lo pages hi
  IsSound lo out_of_fuel = Unit {0}

  after_page-IsSound :
      (lo mid : ℕ) (page : List E) (o : Outcome E)
      → IsPage lo mid page
      → IsSound mid o
      → IsSound lo (after_page page o)
  after_page-IsSound lo mid page (done pages r) p h = ((mid, p, h.0), h.1)
  after_page-IsSound lo mid page (rejected pages) p h = (h.0, (mid, p, h.1))
  after_page-IsSound lo mid page out_of_fuel p h = tt

  finish_round-IsSound :
      (lo : ℕ) (step : PageStep E) (rest : ℕ → ℕ → Outcome E)
      → StepSound lo step
      → ((to latest : ℕ) → IsSound to (rest to latest))
      → IsSound lo (finish_round seq step rest)
  unfolding finish_round
  finish_round-IsSound lo (stop r) rest s h = (sym s.0, s.1)
  finish_round-IsSound lo (stop_after page r) rest s h = ((r.cursor, s.0, refl), s.1)
  finish_round-IsSound lo (next page to latest) rest s h =
      after_page-IsSound lo to page (rest to latest) s (h to latest)

  round-IsSound :
      (o : Option (PublicEventsResponse E)) (cursor latest pages : ℕ) (rest : ℕ → ℕ → Outcome E)
      → ((to latest' : ℕ) → IsSound to (rest to latest'))
      → IsSound cursor (round seq o cursor latest pages rest)
  unfolding round
  round-IsSound none cursor latest pages rest h = (cursor, refl)
  round-IsSound (some r) cursor latest pages rest h =
      finish_round-IsSound cursor _ rest (handle_response_sound r cursor latest pages) h

  module _ (options : RecoverPublicEventPagesOptions E) where
    recover_loop-IsSound :
        (fuel cursor latest pages : ℕ)
        → IsSound cursor (recover_loop seq options fuel cursor latest pages)
    unfolding recover_loop
    recover_loop-IsSound zero cursor latest pages = tt
    recover_loop-IsSound (suc fuel) cursor latest pages =
        elim (Bool-cases (options.is_active pages)) [
          | inl on ↦ rw on (
              round-IsSound (options.fetch_page pages cursor options.limit) cursor latest
                (pages + 1) _ (λ to latest'. recover_loop-IsSound fuel to latest' (pages + 1)))
          | inr off ↦ rw off (refl, tt)
        ]

    -- The applied pages follow one another from the start to the result's cursor: each is in order
    -- and lies strictly above the cursor where the one before it ended, so no event is applied twice
    -- in different pages; and the result is honest: caught up means that the cursor has reached the
    -- latest sequence, empty that both are 0, a gap that the cursor is below it, and a reset that
    -- one of them is not 0. A rejected fetch leaves such pages too.
    pub recover_public_event_pages-IsSound :
        (fuel : ℕ)
        → IsSound (max_zero options.after_seq) (recover_public_event_pages seq options fuel)
    unfolding recover_public_event_pages
    recover_public_event_pages-IsSound fuel =
        let cursor = max_zero options.after_seq in
        let latest = max cursor (finite_sequence options.target_seq) in
        let loop = recover_loop-IsSound fuel cursor latest 0 in
        elim (Bool-cases (is_some options.target_seq && leb latest cursor)) [
          | inl early ↦ elim (Bool-cases (cursor == 0)) [
            | inl start ↦ rw (early, start) (refl, ground arith)
            | inr on ↦ rw (early, on) (refl, ground arith)
          ]
          | inr late ↦ rw late loop
        ]
