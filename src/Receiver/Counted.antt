-- ===== src/Receiver/Counted.antt =====
-- others/receiver_example.c: the totals that the loop prints.
use real_time_data_transfer.Base.{
  ◌==◌, length, length-append, ℕ, zero, suc, ◌+◌, ◌≡◌, refl, Bool, true, false, not, List, [], ◌∷◌,
  ◌++◌, arith,
}
use real_time_data_transfer.Receiver.{
  Peer, Report, Tally, bytes_of, reported, receive, receive_rounds,
}

-- The bytes of the printed lines.
abbrev pub in_reports : List Report → ℕ
in_reports [] = 0
in_reports (r ∷ rest) = r.total + in_reports rest

-- The lines are numbered from 0 on, without a gap.
abbrev pub IsNumbered : ℕ → List Report → Type 0
IsNumbered n [] = n ≡ 0
IsNumbered n (r ∷ rest) = (n ≡ suc r.number) × IsNumbered r.number rest

-- All bytes that were received, in the lines and since the last.
abbrev pub counted_bytes : Tally → ℕ
counted_bytes t = in_reports t.printed + t.total_bytes_recvd

reported-counted :
    (b : Bool) (now : ℕ) (t : Tally) → counted_bytes (reported b now t) ≡ counted_bytes t
reported-counted true now t = omega arith
reported-counted false now t = refl

reported-IsNumbered :
    (b : Bool) (now : ℕ) (t : Tally)
    → IsNumbered t.count t.printed
    → IsNumbered (reported b now t).count (reported b now t).printed
reported-IsNumbered true now t h = (omega arith, h)
reported-IsNumbered false now t h = h

module _ (h : Peer) where
  -- What recv gives in a run of the loop, in order.
  unfoldable pub arrivals : ℕ → ℕ → Tally → h.World → List ℕ
  arrivals zero sockfd t x = []
  arrivals (suc n) sockfd t x =
      let (t', x') = receive h sockfd t x in bytes_of (h.recv sockfd x).0 ++ arrivals n sockfd t' x'

  -- The lines of the receiver account for every byte. After any number of rounds on any host the
  -- bytes of the printed lines and those counted since are those counted before and all that recv
  -- has given, each once; and the lines are numbered without a gap.
  pub receive-counts :
      (n sockfd : ℕ) (t : Tally) (x : h.World)
      → IsNumbered t.count t.printed
      → (counted_bytes (receive_rounds h n sockfd t x).0
          ≡ counted_bytes t + length (arrivals n sockfd t x))
        × IsNumbered
            (receive_rounds h n sockfd t x).0.count
            (receive_rounds h n sockfd t x).0.printed
  unfolding receive_rounds arrivals receive
  receive-counts zero sockfd t x k = (omega arith, k)
  receive-counts (suc n) sockfd t x k =
      let (got, x1) = h.recv sockfd x in
      let (now, x2) = h.time x1 in
      let b = not (now == t.last_second) in
      let (t', x') = receive h sockfd t x in
      let (e, k') = receive-counts n sockfd t' x' (reported-IsNumbered b now t k) in
      let one = reported-counted b now t in
      let size = length-append (bytes_of got) (arrivals n sockfd t' x') in (omega arith, k')
