-- ===== src/Tests/Packets.antt =====
-- The packets of the live view (web/src/packets.ts) on two pulses and three activity items. A number is
-- written as a mark here.
use mathlib.Core.List.{Perm}
use mc_carto_live.Prelude.{
  ℕ, String, string_discrete, ltb, if◌then◌else◌, ◌≡◌, refl, some, List, [], ◌∷◌, ◌++◌, map, filter,
}
use mc_carto_live.Prelude.JsSet.{has, add}
use mc_carto_live.Prelude.Sort.{IsSorted}
use mc_carto_live.Types.{PublicActivity, PublicRoutePulse}
use mc_carto_live.Packets.{
  PublicPacketPath, live_packets_from_activity, packet_of_pulse, packet_of_activity, latest_first,
  live_packet_key,
}
use mc_carto_live.Packets.Merged.{drawn, is_alone, live_packets_from_activity_lem}
use mc_carto_live.Tests.Data.{segment_ab, pulse, packet}

abbrev written : ℕ → String
written n = if ltb n 10 then "early" else "late"

abbrev pulses : List PublicRoutePulse
pulses = pulse "p" 3 (segment_ab ∷ []) ∷ pulse "q" 4 [] ∷ []

abbrev activity : List PublicActivity
activity =
    record (packet "told" 3) { route_ids = some ("ab" ∷ []) }
    ∷ packet "x" 20
    ∷ record (packet "other" 30) { kind = "hello" }
    ∷ []

-- The item that the pulse tells and the one of another kind are left out.
live_packets_run :
    map (λ (p : PublicPacketPath). p.id) (live_packets_from_activity written activity pulses)
    ≡ "live-activity:x" ∷ "live-pulse:p" ∷ []
unfolding live_packets_from_activity string_discrete has add live_packet_key
live_packets_run = refl

live_packets_from_activity_lem_example :
    Perm (live_packets_from_activity written activity pulses) (
      map (packet_of_pulse written) (drawn pulses)
      ++ map (packet_of_activity written) (filter (is_alone written pulses) activity))
    × IsSorted (latest_first written) (live_packets_from_activity written activity pulses)
live_packets_from_activity_lem_example = live_packets_from_activity_lem written activity pulses
