-- ===== src/Tests/Skipping.antt =====
-- src/systems/real_time_system.cpp with src/senders/tcp_sender.cpp: a round of skip mode that
-- skips.
use real_time_data_transfer.Base.{◌≡◌, refl, [], ◌∷◌}
use real_time_data_transfer.Packets.{Packets}
use real_time_data_transfer.Sender.Steps.{assigned as replaced}
use real_time_data_transfer.System.{World}
use real_time_data_transfer.System.Run.{next_round, skip_round, again}
use real_time_data_transfer.System.Run.Concrete.{IsTcp}
use real_time_data_transfer.System.Run.Skipped.{skip_round-overwrites}
use real_time_data_transfer.Tests.Sending.{bytes, packet}
use real_time_data_transfer.Tests.Worlds.{parts, slow_system}
use real_time_data_transfer.Tests.Machines.{Phase, Memory, view, handed_over}
use real_time_data_transfer.Tests.Wholes.{
  whole, whole-IsTcp, handed_first, after_assigning, numbered,
}

abbrev other_packets : Packets
other_packets = packet ∷ packet ∷ []

-- The same, but the user's function gives other packets.
abbrev skipping : World
skipping = record whole { user_function = λ f i x. (i, other_packets, x) }

skipping-IsTcp : IsTcp skipping parts bytes 0 view
skipping-IsTcp = record {
  polls = whole-IsTcp.polls;
  naps = whole-IsTcp.naps;
  ticks = whole-IsTcp.ticks;
  asks = whole-IsTcp.asks;
  assigns = whole-IsTcp.assigns;
  sends = whole-IsTcp.sends;
}

abbrev overwritten : Phase × Memory
overwritten =
    (handed_over, record handed_first { lists_of = replaced 0 other_packets (after_assigning 1) })

-- A list of one packet has been handed over, and the list of two packets is skipped.
skipped :
    skip_round skipping parts slow_system (numbered 1) 2 (handed_over, handed_first)
    ≡ again (record { sequence_number = 1; skipped_count = 1 }, overwritten)
unfolding skip_round next_round
skipped = refl

skip_round-overwrites_example :
    ((view overwritten).lists 0 ≡ other_packets) × ((view overwritten).handed ≡ (packet ∷ []) ∷ [])
skip_round-overwrites_example =
    skip_round-overwrites skipping parts bytes 0 view skipping-IsTcp slow_system (numbered 1) 2
      (handed_over, handed_first) skipped
