-- ===== src/System/Run/Received.antt =====
-- src/systems/real_time_system.cpp, src/senders/tcp_sender.cpp and tcp_sender_zc.cpp, and
-- others/receiver_example.c: from the user's function to the receiver's lines.
use real_time_data_transfer.Base.{length, ℕ, ◌≡◌, false, List, [], ◌++◌}
use real_time_data_transfer.Packets.{Packets}
use real_time_data_transfer.Sender.{Transport, State as SenderState, idle, payloads}
use real_time_data_transfer.Sender.Steps.{Reachable}
use real_time_data_transfer.Sender.Account.{Untaken}
use real_time_data_transfer.System.{RealTimeSystem, World}
use real_time_data_transfer.System.Run.{Counters, Parts, Goes}
use real_time_data_transfer.System.Run.Log.{Call, logged}
use real_time_data_transfer.System.Run.Concrete.{IsTcp}
use real_time_data_transfer.System.Run.Served.{packets_given}
use real_time_data_transfer.System.Run.Delivers.{run-delivers}
use real_time_data_transfer.Receiver.{Peer, first_tally, receive_rounds}
use real_time_data_transfer.Receiver.Counted.{counted_bytes}
use real_time_data_transfer.Receiver.Stream.{IsConnection, counted-read, read-IsPrefix}

module _ (w : World) (parts : Parts) (tr : Transport) (list : ℕ) (view : w.State → SenderState)
    (k : IsTcp w parts tr list view) (lists : ℕ → Packets) (before : List Packets)
    (s : RealTimeSystem) (no_skip : s.allow_skip_mode ≡ false) (h : Peer) (sockfd : ℕ)
    (wire read : h.World → List ℕ) (line : IsConnection h sockfd wire read) where
  -- The whole program and the receiver. A system without skip mode runs with a TCPSender or a
  -- TCPSenderZC, from a reachable state between two calls, and a receiver has the other end of the
  -- connection. When the system has made any number of rounds and the receiver any number of its
  -- own, at a moment when the connection has what the sender's socket was given: what the receiver
  -- has read is a beginning of the bytes of the packets that the user's function has returned, in
  -- their order, after those of the lists from before run; and the bytes of its lines, with those
  -- counted since the last, are as many.
  pub run-received :
      {n : ℕ} {c c' : Counters} {x x' : w.State} {l : List Call} (rounds now : ℕ) (y : h.World)
      → Reachable tr Untaken lists (view x)
      → (view x).caller ≡ idle
      → (view x).handed ≡ before
      → Goes (logged w) parts s n (c, (x, [])) (c', (x', l))
      → read y ≡ []
      → wire (receive_rounds h rounds sockfd (first_tally now) y).1 ≡ (view x').wire
      → let (t', y') = receive_rounds h rounds sockfd (first_tally now) y in
        ((missing : List ℕ) × (read y' ++ missing ≡ payloads tr (before ++ packets_given l)))
        × (counted_bytes t' ≡ length (read y'))
  run-received rounds now y r i e g empty same =
      let y' = (receive_rounds h rounds sockfd (first_tally now) y).1 in
      let (handed, given, all) =
        run-delivers w parts tr list view k lists before s no_skip r i e g in
      (
        read-IsPrefix h sockfd wire read line y' same given,
        counted-read h sockfd wire read line rounds now y empty,
      )
