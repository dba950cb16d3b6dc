-- ===== src/Receiver/Outcomes.antt =====
-- others/receiver_example.c: how main ends, or where it stands in its loop.
use real_time_data_transfer.Base.{
  ◌==◌, Option-cases, Sum-cases, if_elim, zero_plus, length, ℕ, String, ◌≡◌, refl, subst, ◌∙◌, ◌≢◌,
  inl, inr, true, false, not, none, some, List, arith,
}
use real_time_data_transfer.Receiver.{
  Peer, Tally, first_tally, Outcome, connect_first, receive_rounds, serve, main, exits, receives,
}
use real_time_data_transfer.Receiver.Counted.{IsNumbered, counted_bytes, arrivals, receive-counts}
use real_time_data_transfer.Receiver.Connected.{IsPeer, IsConnected, connect_first-IsConnected}

module _ (h : Peer) (Open : h.World → ℕ → Type 0) (k : IsPeer h Open) where
  -- The tally of a loop of `n` rounds that begins on `y`: every byte is counted.
  pub record Counts (n sockfd : ℕ) (y : h.World) (t : Tally) : Type 0 where
    pub first_second : ℕ
    pub total_bytes : counted_bytes t ≡ length (arrivals h n sockfd (first_tally first_second) y)
    pub numbered : IsNumbered t.count t.printed

  -- The outcomes of serve: with the addresses `l`, from `x` on.
  pub data IsServed (n : ℕ) (l : List h.Address) (x : h.World) : Outcome h.World → Type 0 where
    unreachable : {y : h.World} → IsConnected h Open l x (none, y) → IsServed n l x (exits 2 y)
    unbuffered :
        {z : h.World} (fd : ℕ) (y : h.World)
        → IsConnected h Open l x (some fd, z)
        → (h.set_receive_buffer fd y).0 ≡ false
        → IsServed n l x (exits 1 (h.set_receive_buffer fd y).1)
    loops :
        {z : h.World} (fd : ℕ) (y y' : h.World) (t : Tally)
        → IsConnected h Open l x (some fd, z)
        → (h.set_receive_buffer fd y).0 ≡ true
        → Counts n fd (h.set_receive_buffer fd y).1 t
        → IsServed n l x (receives fd t y')

  -- The outcomes of main.
  pub data IsOutcome (n argc : ℕ) (x : h.World) : Outcome h.World → Type 0 where
    misused : argc ≢ 3 → IsOutcome n argc x (exits 1 x)
    unresolved :
        (msg : String)
        → (h.getaddrinfo x).0 ≡ inl msg
        → IsOutcome n argc x (exits 1 (h.getaddrinfo x).1)
    served :
        (l : List h.Address) {r : Outcome h.World}
        → argc ≡ 3
        → (h.getaddrinfo x).0 ≡ inr l
        → IsServed n l (h.getaddrinfo x).1 r
        → IsOutcome n argc x r

  serve-IsServed : (n : ℕ) (l : List h.Address) (x : h.World) → IsServed n l x (serve h n l x)
  unfolding serve
  serve-IsServed n l x =
      let x1 = (connect_first h l x).1 in
      let met = connect_first-IsConnected h Open k l x in
      elim (Option-cases (connect_first h l x).0) [
        | inl e ↦ rw (e, serve) (unreachable (subst (λ q. IsConnected h Open l x (q, x1)) e met))
        | inr (fd, e) ↦
            let met' = subst (λ q. IsConnected h Open l x (q, x1)) e met in
            let (now, y) = h.time (h.time (h.freeaddrinfo x1)).1 in
            let z = (h.set_receive_buffer fd y).1 in
            let start = first_tally now in
            let (t, y') = receive_rounds h n fd start z in
            let (total, numbered) = receive-counts h n fd start z refl in
            let counts : Counts n fd z t = record {
              first_second = now;
              total_bytes = total ∙ zero_plus (length (arrivals h n fd start z));
              numbered = numbered;
            } in
            rw (e, serve)
              (if_elim (IsServed n l x) (h.set_receive_buffer fd y).0
                (λ set. loops fd y y' t met' set counts) (λ set. unbuffered fd y met' set))
      ]

  -- How a run of the receiver ends, for a host whose calls open and close the descriptors that
  -- their manual pages say. With other than two arguments it exits at once with 1; so it does when
  -- the host name has no address. When no address accepts, it exits with 2, and no descriptor is
  -- open that was not before. Otherwise it is connected to an address that accepted, with that
  -- descriptor as the only new one after connect; it exits with 1 when the buffer is refused, and
  -- else is in its loop, in which each byte that recv gave since the loop began is counted once, in
  -- the lines or since the last, and the lines are numbered from 0 without a gap.
  pub main-IsOutcome : (n argc : ℕ) (x : h.World) → IsOutcome n argc x (main h n argc x)
  unfolding main
  main-IsOutcome n argc x =
      if_elim (IsOutcome n argc x) (not (argc == 3)) (λ m. misused (ground (arith, m)))
        (λ u. elim (Sum-cases (h.getaddrinfo x).0) [
          | inl (msg, e) ↦ rw e (unresolved msg e)
          | inr (l, e) ↦
              rw e (served l (ground (arith, u)) e (serve-IsServed n l (h.getaddrinfo x).1))
        ])
