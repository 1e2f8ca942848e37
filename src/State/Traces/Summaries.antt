-- ===== src/State/Traces/Summaries.antt =====
-- `summarizeRouteActivity` of web/src/state.ts: the trace window by route, in twelve bins.
use mc_carto_live.Prelude.{
  ℕ, zero, suc, ◌+◌, ◌-◌, ◌/◌, ◌<◌, ◌≡◌, refl, ap, min, max, none, some, List, [], ◌∷◌, arith,
  String, ◌⁇◌, if◌then◌else◌, length, filter, string_discrete, Option-cases, inl, inr, All,
  Bool-cases, if_pos, if_neg,
}
use mc_carto_live.Prelude.JsMap.{JsMap}
use mc_carto_live.Prelude.JsMap
use mc_carto_live.State.Model.{RouteTraceHit}
use mc_carto_live.State.Traces.{route_trace_window_ms, route_trace_bin_count, is_within}

pub record RouteActivitySummary : Type 0 where
  pub route_id : String
  pub total : ℕ
  pub latest_heard : ℕ
  pub bins : List ℕ

-- `ROUTE_TRACE_WINDOW_MS / ROUTE_TRACE_BIN_COUNT`
abbrev pub bin_size : ℕ
bin_size = route_trace_window_ms / route_trace_bin_count

-- For a trace within the window: `heardAt - cutoff` is `heardAt + WINDOW - now`.
unfoldable pub bin_of : ℕ → ℕ → ℕ
bin_of now heard_at =
    max 0 (min (route_trace_bin_count - 1) ((heard_at + route_trace_window_ms - now) / bin_size))

-- `bins[bin] += 1`
unfoldable pub bump : ℕ → List ℕ → List ℕ
bump i [] = []
bump zero (b ∷ bs) = (b + 1) ∷ bs
bump (suc i) (b ∷ bs) = b ∷ bump i bs

abbrev pub empty_bins : List ℕ
empty_bins = 0 ∷ 0 ∷ 0 ∷ 0 ∷ 0 ∷ 0 ∷ 0 ∷ 0 ∷ 0 ∷ 0 ∷ 0 ∷ 0 ∷ []

abbrev pub new_summary : String → RouteActivitySummary
new_summary id = record { route_id = id; total = 0; latest_heard = 0; bins = empty_bins }

unfoldable pub add_trace : ℕ → RouteTraceHit → RouteActivitySummary → RouteActivitySummary
unfolding bin_of bump
add_trace now t s = record s {
  total = s.total + 1;
  latest_heard = max s.latest_heard t.heard_at;
  bins = bump (bin_of now t.heard_at) s.bins;
}

-- The summary is changed where it stands in the map; a new one is put into it.
unfoldable pub summarize_one :
    ℕ → RouteTraceHit → JsMap RouteActivitySummary → JsMap RouteActivitySummary
unfolding add_trace
summarize_one now t m =
    JsMap.set t.route_id (add_trace now t (JsMap.get t.route_id m ⁇ new_summary t.route_id)) m

unfoldable pub summarize_loop :
    List RouteTraceHit → ℕ → JsMap RouteActivitySummary → JsMap RouteActivitySummary
unfolding summarize_one
summarize_loop [] now m = m
summarize_loop (t ∷ ts) now m =
    summarize_loop ts now
      (if is_within route_trace_window_ms now t.heard_at then summarize_one now t m else m)

unfoldable pub summarize_route_activity : List RouteTraceHit → ℕ → JsMap RouteActivitySummary
unfolding summarize_loop
summarize_route_activity traces now = summarize_loop traces now []

pub sum : List ℕ → ℕ
sum [] = 0
sum (n ∷ ns) = n + sum ns

-- The traces that all the summaries count.
abbrev pub grand_total : JsMap RouteActivitySummary → ℕ
grand_total [] = 0
grand_total ((k, s) ∷ m) = s.total + grand_total m

sum-bump : (i : ℕ) (bs : List ℕ) → i < length bs → sum (bump i bs) ≡ sum bs + 1
unfolding sum bump
sum-bump i [] h = absurd (omega arith)
sum-bump zero (b ∷ bs) h = omega arith
sum-bump (suc i) (b ∷ bs) h = omega (arith, sum-bump i bs (omega arith))

length-bump : (i : ℕ) (bs : List ℕ) → length (bump i bs) ≡ length bs
unfolding bump
length-bump i [] = refl
length-bump zero (b ∷ bs) = refl
length-bump (suc i) (b ∷ bs) = ap suc (length-bump i bs)

-- Twelve bins, which add up to the total.
pub record IsSummary (s : RouteActivitySummary) : Type 0 where
  pub twelve : length s.bins ≡ 12
  pub counted : sum s.bins ≡ s.total

new_summary-IsSummary : (id : String) → IsSummary (new_summary id)
unfolding sum
new_summary-IsSummary id = record { twelve = refl; counted = refl }

add_trace-IsSummary :
    (now : ℕ) (t : RouteTraceHit) (s : RouteActivitySummary)
    → IsSummary s
    → IsSummary (add_trace now t s)
unfolding add_trace
add_trace-IsSummary now t s h = record {
  twelve = omega (arith, length-bump (bin_of now t.heard_at) s.bins, h.twelve);
  counted =
      omega (arith, sum-bump (bin_of now t.heard_at) s.bins (omega (arith, h.twelve)), h.counted);
}

total_at : String → JsMap RouteActivitySummary → ℕ
total_at k m = elim (JsMap.get k m) [ none ↦ 0 | some s ↦ s.total ]

grand_total-set :
    (k : String) (s : RouteActivitySummary) (m : JsMap RouteActivitySummary)
    → grand_total (JsMap.set k s m) + total_at k m ≡ grand_total m + s.total
unfolding JsMap.set JsMap.get total_at
grand_total-set k s [] = omega arith
grand_total-set k s ((j, w) ∷ m) = ground (arith, grand_total-set k s m)

abbrev pub AllSummaries : JsMap RouteActivitySummary → Type 0
AllSummaries m = All (λ (e : String × RouteActivitySummary). IsSummary e.1) m

AllSummaries-set :
    (k : String) (s : RouteActivitySummary) (m : JsMap RouteActivitySummary)
    → IsSummary s
    → AllSummaries m
    → AllSummaries (JsMap.set k s m)
unfolding JsMap.set
AllSummaries-set k s [] h a = (h, tt)
AllSummaries-set k s ((j, w) ∷ m) h a = elim (string_discrete j k) [
  | yes e ↦ rw (if_pos _ e) (h, a.1)
  | no n ↦ rw (if_neg _ n) (a.0, AllSummaries-set k s m h a.1)
]

AllSummaries-get :
    (k : String) (m : JsMap RouteActivitySummary) (d : RouteActivitySummary)
    → IsSummary d
    → AllSummaries m
    → IsSummary (JsMap.get k m ⁇ d)
unfolding JsMap.get
AllSummaries-get k [] d h a = h
AllSummaries-get k ((j, w) ∷ m) d h a = elim (string_discrete j k) [
  | yes e ↦ rw (if_pos _ e) a.0
  | no n ↦ rw (if_neg _ n) (AllSummaries-get k m d h a.1)
]

summarize_one-total :
    (now : ℕ) (t : RouteTraceHit) (m : JsMap RouteActivitySummary)
    → grand_total (summarize_one now t m) ≡ grand_total m + 1
unfolding summarize_one add_trace total_at
summarize_one-total now t m = elim (Option-cases (JsMap.get t.route_id m)) [
  | inl e ↦
      ground (arith, e, grand_total-set t.route_id (add_trace now t (new_summary t.route_id)) m)
  | inr (s, e) ↦ ground (arith, e, grand_total-set t.route_id (add_trace now t s) m)
]

summarize_one-AllSummaries :
    (now : ℕ) (t : RouteTraceHit) (m : JsMap RouteActivitySummary)
    → AllSummaries m
    → AllSummaries (summarize_one now t m)
unfolding summarize_one
summarize_one-AllSummaries now t m a =
    AllSummaries-set t.route_id _ m
      (add_trace-IsSummary now t _
        (AllSummaries-get t.route_id m _ (new_summary-IsSummary t.route_id) a))
      a

-- The traces that are within the window.
abbrev pub in_window : List RouteTraceHit → ℕ → List RouteTraceHit
in_window traces now = filter (λ t. is_within route_trace_window_ms now t.heard_at) traces

summarize_loop-counts :
    (ts : List RouteTraceHit) (now : ℕ) (m : JsMap RouteActivitySummary)
    → AllSummaries m
    → AllSummaries (summarize_loop ts now m)
      × (grand_total (summarize_loop ts now m) ≡ grand_total m + length (in_window ts now))
unfolding summarize_loop
summarize_loop-counts [] now m a = (a, omega arith)
summarize_loop-counts (t ∷ ts) now m a =
    elim (Bool-cases (is_within route_trace_window_ms now t.heard_at)) [
      | inl fresh ↦
          let rest =
            summarize_loop-counts ts now (summarize_one now t m)
              (summarize_one-AllSummaries now t m a) in
          rw fresh (rest.0, omega (arith, rest.1, summarize_one-total now t m))
      | inr old ↦ rw old (summarize_loop-counts ts now m a)
    ]

-- Each summary has twelve bins that add up to its total, and all the totals add up to the number of
-- traces that are within the window: every such trace is counted once, in one bin of one route.
pub summarize_route_activity-counts :
    (traces : List RouteTraceHit) (now : ℕ)
    → AllSummaries (summarize_route_activity traces now)
      × (grand_total (summarize_route_activity traces now) ≡ length (in_window traces now))
unfolding summarize_route_activity
summarize_route_activity-counts traces now =
    let counts = summarize_loop-counts traces now [] tt in (counts.0, omega (arith, counts.1))
