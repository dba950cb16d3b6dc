-- ===== src/Tests/Promised.antt =====
-- src/systems/real_time_system.cpp with includes/sender.h: the two rounds of the system, whose
-- sender is an object of the class TCPSender.
use real_time_data_transfer.Base.{false_not_true, ℕ, ◌≡◌, refl, true, false, List, [], ◌∷◌, ◌++◌}
use real_time_data_transfer.Packets.{Packets}
use real_time_data_transfer.Sender.{payloads}
use real_time_data_transfer.Sender.Lifetimes.{constructed}
use real_time_data_transfer.Sender.Objects.{Object, Runs, live, works, writes, tcp_sender_class}
use real_time_data_transfer.Sender.Objects
use real_time_data_transfer.Sender.Used.{IsUsed, working, transfer}
use real_time_data_transfer.Sender.Classes.{senders-IsSender}
use real_time_data_transfer.Sender.Used.{blind-IsHost}
use real_time_data_transfer.Sender.Descriptors.{Closed}
use real_time_data_transfer.Sender.Released.{HasOpen}
use real_time_data_transfer.System.Run.Served.{packets_given}
use real_time_data_transfer.System.Run.Promised.{IsOfClass, run-promised}
use real_time_data_transfer.Tests.Sending.{packet, bytes, asleep-Reachable}
use real_time_data_transfer.Tests.Worlds.{parts}
use real_time_data_transfer.Tests.Machines.{Phase, Memory, view, resting, handed_over, stuck}
use real_time_data_transfer.Tests.Wholes.{
  whole, whole-IsTcp, assigned_to, sending_system, two_rounds, two_rounds-Goes,
}
use real_time_data_transfer.Tests.Restarts.{plain_host, first_start, starts_first}

abbrev object : Phase × Memory → Object
object x = live first_start (view x)

assigns_object :
    (l : Packets) (x : Phase × Memory)
    → (view x).shared.is_done ≡ true
    → Runs plain_host bytes (object x) (object (assigned_to l x))
      × ((view (assigned_to l x)).lists 0 ≡ l)
assigns_object l (resting, q) d = (writes (view (resting, q)) 0 l refl, refl)
assigns_object l (handed_over, q) d = absurd (false_not_true d)
assigns_object l (stuck rest, q) d = absurd (false_not_true d)

whole-IsOfClass :
    IsOfClass whole parts (tcp_sender_class plain_host (λ p offset. offset)) transfer 0 object
whole-IsOfClass = record {
  polls = λ x.
      let (m, to_m, d, from_m) = whole-IsTcp.polls x in
      (live first_start m, works to_m, d, works from_m);
  naps = λ n x. works (whole-IsTcp.naps n x);
  ticks = λ x. works (whole-IsTcp.ticks x);
  asks = λ i x. works (whole-IsTcp.asks i x);
  assigns = assigns_object;
  sends = λ x. let (call, told) = whole-IsTcp.sends x in Objects.calls call told;
}

run-promised_example :
    ((packet ∷ []) ∷ (packet ∷ []) ∷ [] ≡ packets_given two_rounds)
    × ((missing : List ℕ) × ((5 ∷ 6 ∷ 7 ∷ []) ++ missing
          ≡ payloads bytes (packets_given two_rounds)))
    × (false ≡ true → 5 ∷ 6 ∷ 7 ∷ [] ≡ payloads bytes (packets_given two_rounds))
run-promised_example =
    run-promised whole parts (tcp_sender_class plain_host (λ p offset. offset)) (payloads bytes)
      (IsUsed plain_host bytes) transfer (HasOpen plain_host bytes (λ x f. ⊥))
      (Closed plain_host (λ x f. ⊥))
      (senders-IsSender plain_host (λ x f. ⊥) (λ p offset. offset) (blind-IsHost plain_host)).0 0
      object whole-IsOfClass [] sending_system refl
      (working 1 tt tt (constructed 4000) starts_first (asleep-Reachable bytes) refl) refl
      two_rounds-Goes
