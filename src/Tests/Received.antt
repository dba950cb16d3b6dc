-- ===== src/Tests/Received.antt =====
-- src/systems/real_time_system.cpp, src/senders/tcp_sender.cpp and others/receiver_example.c: two
-- rounds of the system, and a receiver that has read two of the three bytes sent.
use real_time_data_transfer.Base.{length, ℕ, ◌≡◌, refl, List, [], ◌∷◌, ◌++◌}
use real_time_data_transfer.Sender.{payloads}
use real_time_data_transfer.System.Run.Served.{packets_given}
use real_time_data_transfer.System.Run.Received.{run-received}
use real_time_data_transfer.Receiver.{first_tally, receive_rounds}
use real_time_data_transfer.Receiver.Counted.{counted_bytes}
use real_time_data_transfer.Tests.Sending.{lists, bytes, asleep-Reachable}
use real_time_data_transfer.Tests.Worlds.{parts}
use real_time_data_transfer.Tests.Machines.{view}
use real_time_data_transfer.Tests.Wholes.{
  whole, whole-IsTcp, sending_system, two_rounds, two_rounds-Goes,
}
use real_time_data_transfer.Tests.Receiving.{remote, quiet, read_of, remote-IsConnection}

run-received_example :
    let (t', y') = receive_rounds remote 2 4 (first_tally 0) quiet in
    ((missing : List ℕ) × (read_of y'.given ++ missing ≡ payloads bytes (packets_given two_rounds)))
    × (counted_bytes t' ≡ length (read_of y'.given))
run-received_example =
    run-received whole parts bytes 0 view whole-IsTcp lists [] sending_system refl remote 4
      (λ x. 5 ∷ 6 ∷ 7 ∷ []) (λ x. read_of x.given) remote-IsConnection 2 0 quiet
      (asleep-Reachable bytes) refl refl two_rounds-Goes refl refl
