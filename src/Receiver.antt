-- ===== src/Receiver.antt =====
-- others/receiver_example.c: the client that connects to a sender, reads all that arrives and
-- prints how much it was in each second. The lines that its loop prints are kept as data: the total
-- of a report is the number of bytes, which `printf` shows as (total / 10^6) * 8; a `double` holds
-- it exactly up to 2^53, and an `int` the number of the line up to 2^31. Other messages are left
-- out.
pub mod Connected
pub mod Counted
pub mod Outcomes
pub mod Seconds
pub mod Stream
use real_time_data_transfer.Base.{
  ◌==◌, if◌then◌else◌, length, ℕ, zero, suc, ◌+◌, String, ◌⊎◌, inl, inr, Bool, true, false, not,
  Option, none, some, List, [], ◌∷◌,
}

-- The operating system. A descriptor of -1 is `none`, a Boolean says whether a call succeeds. recv
-- does not wait; it gives `none` for -1, and otherwise the bytes that it has put into the buffer.
pub record Peer : Type 1 where
  pub World : Type 0
  pub Address : Type 0
  pub getaddrinfo : World → (String ⊎ List Address) × World
  pub freeaddrinfo : World → World
  pub socket : Address → World → Option ℕ × World
  pub connect : ℕ → Address → World → Bool × World
  pub close : ℕ → World → World
  pub set_receive_buffer : ℕ → World → Bool × World
  pub recv : ℕ → World → Option (List ℕ) × World
  pub time : World → ℕ × World

-- A line that the loop prints.
pub record Report : Type 0 where
  pub total : ℕ
  pub number : ℕ

-- The local variables of the loop, and the lines printed, the latest first.
pub record Tally : Type 0 where
  pub last_second : ℕ
  pub total_bytes_recvd : ℕ
  pub count : ℕ
  pub printed : List Report

-- The variables before the loop.
abbrev pub first_tally : ℕ → Tally
first_tally last_second = record {
  last_second = last_second;
  total_bytes_recvd = 0;
  count = 0;
  printed = [];
}

-- How main ends or where it stands: with an exit code, or in its loop, which has no end.
pub data Outcome (W : Type 0) : Type 0 where
  exits : ℕ → W → Outcome W
  receives : ℕ → Tally → W → Outcome W

-- The bytes that recv gives, none when it gives -1; their number is `numbytes`.
abbrev pub bytes_of : Option (List ℕ) → List ℕ
bytes_of none = []
bytes_of (some bytes) = bytes

-- The report of a second that is over.
abbrev pub reported : Bool → ℕ → Tally → Tally
reported true current_second t = record {
  last_second = current_second;
  total_bytes_recvd = 0;
  count = t.count + 1;
  printed = record { total = t.total_bytes_recvd; number = t.count } ∷ t.printed;
}
reported false current_second t = t

module _ (h : Peer) where
  open h use {World, Address, getaddrinfo, freeaddrinfo, socket, connect, recv, time}

  -- `for(p = servinfo; p != NULL; p = p->ai_next)`; `none` when p is NULL at its end.
  unfoldable pub connect_first : List Address → World → Option ℕ × World
  connect_first [] x = (none, x)
  connect_first (p ∷ rest) x =
      let (fd, x1) = socket p x in
      elim fd [
        | none ↦ connect_first rest x1
        | some sockfd ↦
            let (connected, x2) = connect sockfd p x1 in
            let next = connect_first rest (h.close sockfd x2) in
            if connected then (some sockfd, x2) else next
      ]

  -- One round of `while(1)`.
  unfoldable pub receive : ℕ → Tally → World → Tally × World
  receive sockfd t x =
      let (got, x1) = recv sockfd x in
      let (current_second, x2) = time x1 in
      let t1 = reported (not (current_second == t.last_second)) current_second t in
      (record t1 { total_bytes_recvd = t1.total_bytes_recvd + length (bytes_of got) }, x2)

  unfoldable pub receive_rounds : ℕ → ℕ → Tally → World → Tally × World
  receive_rounds zero sockfd t x = (t, x)
  receive_rounds (suc n) sockfd t x =
      let (t', x') = receive sockfd t x in receive_rounds n sockfd t' x'

  -- main from the addresses on, with `rounds` rounds of its loop. time is called twice, and the
  -- second result is `last_second`.
  unfoldable pub serve : ℕ → List Address → World → Outcome World
  unfolding connect_first receive_rounds receive
  serve rounds servinfo x =
      let (p, x1) = connect_first servinfo x in
      elim p [
        | none ↦ exits 2 x1
        | some sockfd ↦
            let x2 = (time (freeaddrinfo x1)).1 in
            let (last_second, x3) = time x2 in
            let (set, x4) = h.set_receive_buffer sockfd x3 in
            let (t, x5) = receive_rounds rounds sockfd (first_tally last_second) x4 in
            if set then receives sockfd t x5 else exits 1 x4
      ]

  -- main, called with `argc` arguments.
  unfoldable pub main : ℕ → ℕ → World → Outcome World
  unfolding serve
  main rounds argc x =
      let (found, x1) = getaddrinfo x in
      if not (argc == 3)
      then exits 1 x
      else elim found [ inl msg ↦ exits 1 x1 | inr servinfo ↦ serve rounds servinfo x1 ]
