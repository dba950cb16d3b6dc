-- ===== src/Receiver/Stream.antt =====
-- others/receiver_example.c with src/senders/tcp_sender.cpp and tcp_sender_zc.cpp: a receiver at
-- the other end of a sender's connection.
use real_time_data_transfer.Base.{
  zero_plus, length, ℕ, zero, suc, ◌≡◌, refl, sym, ap, ◌∙◌, List, [], ◌++◌, append-nil,
  append_assoc,
}
use real_time_data_transfer.Packets.{Packets}
use real_time_data_transfer.Sender.{Transport, State as SenderState, payloads}
use real_time_data_transfer.Sender.Steps.{Reachable}
use real_time_data_transfer.Sender.Account.{Untaken}
use real_time_data_transfer.Sender.Delivery.{wire-IsPrefix}
use real_time_data_transfer.Receiver.{Peer, Tally, first_tally, bytes_of, receive, receive_rounds}
use real_time_data_transfer.Receiver.Counted.{counted_bytes, arrivals, receive-counts}

-- What TCP promises of a connection: `wire` is what the other end has given to its socket, which
-- only grows, and `read` is not in the code, what recv has given so far: always a beginning of it.
pub record IsConnection (h : Peer) (sockfd : ℕ) (wire read : h.World → List ℕ) : Type 0 where
  pub receives_next :
      (x : h.World) → read (h.recv sockfd x).1 ≡ read x ++ bytes_of (h.recv sockfd x).0
  pub receives_sent : (x : h.World) → (missing : List ℕ) × (read x ++ missing ≡ wire x)
  pub time_keeps : (x : h.World) → read (h.time x).1 ≡ read x

module _ (h : Peer) (sockfd : ℕ) (wire read : h.World → List ℕ)
    (k : IsConnection h sockfd wire read) where
  -- After some rounds, all that has arrived has been read.
  read-arrivals :
      (n : ℕ) (t : Tally) (x : h.World)
      → read (receive_rounds h n sockfd t x).1 ≡ read x ++ arrivals h n sockfd t x
  unfolding receive_rounds arrivals receive
  read-arrivals zero t x = sym (append-nil (read x))
  read-arrivals (suc n) t x =
      let (got, x1) = h.recv sockfd x in
      let x2 = (h.time x1).1 in
      let t' = (receive h sockfd t x).0 in
      read-arrivals n t' x2
      ∙ ap (λ l. l ++ arrivals h n sockfd t' x2) (k.time_keeps x1 ∙ k.receives_next x)
      ∙ append_assoc (read x) (bytes_of got) (arrivals h n sockfd t' x2)

  -- From its start on, the loop has counted what it has read.
  pub counted-read :
      (n now : ℕ) (x : h.World)
      → read x ≡ []
      → let (t', x') = receive_rounds h n sockfd (first_tally now) x in
        counted_bytes t' ≡ length (read x')
  counted-read n now x e =
      let all = read-arrivals n (first_tally now) x in
      let total = (receive-counts h n sockfd (first_tally now) x refl).0 in
      total
      ∙ zero_plus (length (arrivals h n sockfd (first_tally now) x))
      ∙ ap length (sym (all ∙ ap (λ l. l ++ arrivals h n sockfd (first_tally now) x) e))

  -- What has been read is a beginning of what the other end's bytes are a beginning of.
  pub read-IsPrefix :
      (x : h.World) {sent bytes : List ℕ}
      → wire x ≡ sent
      → (missing : List ℕ) × (sent ++ missing ≡ bytes)
      → (missing : List ℕ) × (read x ++ missing ≡ bytes)
  read-IsPrefix x w (unsent, v) =
      let (unread, u) = k.receives_sent x in
      (
        unread ++ unsent,
        sym (append_assoc (read x) unread unsent) ∙ ap (λ l. l ++ unsent) (u ∙ w) ∙ v,
      )

  module _ (tr : Transport) (lists : ℕ → Packets) (view : h.World → SenderState)
      (sender : (x : h.World)
        → Reachable tr Untaken lists (view x) × ((view x).wire ≡ wire x)) where
    -- From the lists handed to send to the lines of the receiver. On a connection whose other end
    -- is a TCPSender or a TCPSenderZC in any interleaving: after any number of rounds from the
    -- start, what the receiver has read is a beginning of the bytes of the lists handed to send, in
    -- their order, and the bytes of its printed lines, with those counted since the last, are as
    -- many.
    pub receives-payloads :
        (n now : ℕ) (x : h.World)
        → read x ≡ []
        → let (t', x') = receive_rounds h n sockfd (first_tally now) x in
          ((missing : List ℕ) × (read x' ++ missing ≡ payloads tr (view x').handed))
          × (counted_bytes t' ≡ length (read x'))
    receives-payloads n now x e =
        let x' = (receive_rounds h n sockfd (first_tally now) x).1 in
        let (r, w) = sender x' in
        (read-IsPrefix x' (sym w) (wire-IsPrefix tr r), counted-read n now x e)
