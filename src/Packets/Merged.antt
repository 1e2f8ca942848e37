-- ===== src/Packets/Merged.antt =====
-- `livePacketsFromActivity` (web/src/packets.ts) against what it is to show: the pulses that have segments,
-- and the activity that none of them tells.
use mathlib.Core.List.{Perm, append_assoc, append-nil}
use mc_carto_live.Prelude.{
  ℕ, String, Bool, true, false, not, ◌&&◌, ◌||◌, ◌≡◌, refl, sym, ap, ◌∙◌, subst, Bool-cases, inl,
  inr, List, [], ◌∷◌, ◌++◌, map, filter, All, arith,
}
use mc_carto_live.Prelude.JsSet.{has, add, add_all, has-add}
use mc_carto_live.Prelude.Sort.{sort, sort-perm, sort-IsSorted, IsSorted}
use mc_carto_live.Types.{PublicActivity, PublicRoutePulse}
use mc_carto_live.Packets.{
  PublicPacketPath, is_shown_kind, pulse_key, packet_of_pulse, activity_key, packet_of_activity,
  pulses_loop, activity_loop, latest_first, live_packets_from_activity,
}

-- The pulses that have segments.
abbrev pub drawn : List PublicRoutePulse → List PublicRoutePulse
drawn [] = []
drawn (pulse ∷ pulses) = elim pulse.segments [
  | [] ↦ drawn pulses
  | segment ∷ segments ↦ pulse ∷ drawn pulses
]

has-add_all : (k : String) (xs s : List String) → has k (add_all xs s) ≡ has k s || has k xs
unfolding add_all has
has-add_all k [] s = ground arith
has-add_all k (x ∷ xs) s = ground (arith, has-add_all k xs (add x s), has-add x k s)

module _ (show : ℕ → String) where
  pulses_loop_lem :
      (pulses : List PublicRoutePulse) (keys : List String) (output : List PublicPacketPath)
      → pulses_loop show pulses keys output ≡ (
        add_all (map (pulse_key show) (drawn pulses)) keys,
        output ++ map (packet_of_pulse show) (drawn pulses),
      )
  unfolding pulses_loop add_all
  pulses_loop_lem [] keys output = ap (λ o. (keys, o)) (sym (append-nil output))
  pulses_loop_lem (pulse ∷ pulses) keys output =
      elim pulse.segments
        as (λ segments.
          elim segments [
            | [] ↦ pulses_loop show pulses keys output
            | s ∷ ss ↦
                pulses_loop show pulses (add (pulse_key show pulse) keys)
                  (output ++ packet_of_pulse show pulse ∷ [])
          ]
          ≡ (
            add_all
                (map (pulse_key show)
                  (elim segments [ [] ↦ drawn pulses | s ∷ ss ↦ pulse ∷ drawn pulses ]))
                keys,
            output
                ++ map (packet_of_pulse show)
                    (elim segments [ [] ↦ drawn pulses | s ∷ ss ↦ pulse ∷ drawn pulses ]),
          )) [
            | [] ↦ pulses_loop_lem pulses keys output
            | s ∷ ss ↦
                pulses_loop_lem pulses (add (pulse_key show pulse) keys)
                  (output ++ packet_of_pulse show pulse ∷ [])
                ∙ ap
                    (λ o. (
                      add_all (map (pulse_key show) (drawn pulses))
                          (add (pulse_key show pulse) keys),
                      o,
                    ))
                    (append_assoc output (packet_of_pulse show pulse ∷ [])
                      (map (packet_of_pulse show) (drawn pulses)))
          ]

  -- An item of a kind that is shown, with none of the keys.
  abbrev is_untold : List String → PublicActivity → Bool
  is_untold keys item = is_shown_kind item.kind && not (has (activity_key show item) keys)

  activity_loop_lem :
      (activity : List PublicActivity) (keys : List String) (output : List PublicPacketPath)
      → activity_loop show activity keys output
        ≡ output ++ map (packet_of_activity show) (filter (is_untold keys) activity)
  unfolding activity_loop
  activity_loop_lem [] keys output = sym (append-nil output)
  activity_loop_lem (item ∷ activity) keys output =
      elim (Bool-cases (not (is_shown_kind item.kind) || has (activity_key show item) keys)) [
        | inl e ↦
            let f : is_untold keys item ≡ false = ground (arith, e) in
            rw (e, f) (activity_loop_lem activity keys output)
        | inr e ↦
            let f : is_untold keys item ≡ true = ground (arith, e) in
            rw (e, f)
              (activity_loop_lem activity keys (output ++ packet_of_activity show item ∷ [])
                ∙ append_assoc output (packet_of_activity show item ∷ [])
                    (map (packet_of_activity show) (filter (is_untold keys) activity)))
      ]

  -- An item that is a packet or a route, and whose key is that of no drawn pulse.
  abbrev pub is_alone : List PublicRoutePulse → PublicActivity → Bool
  is_alone pulses item =
      is_shown_kind item.kind
      && not (has (activity_key show item) (map (pulse_key show) (drawn pulses)))

  alone_filter :
      (pulses : List PublicRoutePulse) (activity : List PublicActivity)
      → filter (is_untold (add_all (map (pulse_key show) (drawn pulses)) [])) activity
        ≡ filter (is_alone pulses) activity
  unfolding has
  alone_filter pulses [] = refl
  alone_filter pulses (item ∷ activity) = ground (
    arith,
    has-add_all (activity_key show item) (map (pulse_key show) (drawn pulses)) [],
    alone_filter pulses activity,
  )

  latest_total :
      (a b : PublicPacketPath)
      → Unit {0}
      → Unit {0}
      → latest_first show a b ≡ false
      → latest_first show b a ≡ true
  latest_total a b u v h = ground arith

  -- The packets of the live view come latest first, and are, in another order, those of the pulses that have
  -- segments and those of the activity items that are a packet or a route and that none of these pulses
  -- tells, by its time, its type and its routes.
  pub live_packets_from_activity_lem :
      (activity : List PublicActivity) (pulses : List PublicRoutePulse)
      → Perm (live_packets_from_activity show activity pulses) (
          map (packet_of_pulse show) (drawn pulses)
          ++ map (packet_of_activity show) (filter (is_alone pulses) activity))
        × IsSorted (latest_first show) (live_packets_from_activity show activity pulses)
  unfolding live_packets_from_activity
  live_packets_from_activity_lem activity pulses =
      let merged : List PublicPacketPath =
        map (packet_of_pulse show) (drawn pulses)
        ++ map (packet_of_activity show) (filter (is_alone pulses) activity) in
      let loops =
        ap (λ p. activity_loop show activity p.0 p.1) (pulses_loop_lem pulses [] [])
        ∙ activity_loop_lem activity (add_all (map (pulse_key show) (drawn pulses)) [])
            (map (packet_of_pulse show) (drawn pulses))
        ∙ ap
            (λ items.
              map (packet_of_pulse show) (drawn pulses) ++ map (packet_of_activity show) items)
            (alone_filter pulses activity) in
      subst
        (λ output.
          Perm (sort (latest_first show) output) merged
          × IsSorted (latest_first show) (sort (latest_first show) output))
        (sym loops)
        (
          sort-perm (latest_first show) merged,
          sort-IsSorted (latest_first show) (λ x. Unit {0}) latest_total merged (all_of merged),
        )
    where
      all_of : (xs : List PublicPacketPath) → All (λ x. Unit {0}) xs
      all_of [] = tt
      all_of (x ∷ xs) = (tt, all_of xs)
