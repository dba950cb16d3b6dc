-- ===== src/Tests/Receiving.antt =====
-- others/receiver_example.c: the theorems on the receiver, at a host of two addresses whose second
-- one accepts and then sends three bytes, one in each second.
use real_time_data_transfer.Base.{
  ◌==◌, some_not_none, ℕ, zero, suc, ◌≡◌, refl, sym, inr, true, Option, none, some, List, [], ◌∷◌,
  ◌++◌,
}
use real_time_data_transfer.Receiver.{
  Peer, first_tally, bytes_of, connect_first, receive, receive_rounds, serve, main, exits, receives,
}
use real_time_data_transfer.Receiver.Outcomes.{IsOutcome, main-IsOutcome}
use real_time_data_transfer.Receiver.Connected.{IsPeer}
use real_time_data_transfer.Receiver.Seconds.{run_totals, samples, printed-run_totals}
use real_time_data_transfer.Receiver.Stream.{IsConnection}

pub record Remote : Type 0 where
  pub given : ℕ
  pub open_fd : Option ℕ

abbrev pub read_of : ℕ → List ℕ
read_of zero = []
read_of (suc zero) = 5 ∷ []
read_of (suc (suc zero)) = 5 ∷ 6 ∷ []
read_of (suc (suc (suc n))) = 5 ∷ 6 ∷ 7 ∷ []

abbrev unread_of : ℕ → List ℕ
unread_of zero = 5 ∷ 6 ∷ 7 ∷ []
unread_of (suc zero) = 6 ∷ 7 ∷ []
unread_of (suc (suc zero)) = 7 ∷ []
unread_of (suc (suc (suc n))) = []

abbrev pub next_of : ℕ → Option (List ℕ)
next_of zero = some (5 ∷ [])
next_of (suc zero) = some (6 ∷ [])
next_of (suc (suc zero)) = some (7 ∷ [])
next_of (suc (suc (suc n))) = none

abbrev pub remote : Peer
remote = record {
  World = Remote;
  Address = ℕ;
  getaddrinfo = λ x. (inr (1 ∷ 2 ∷ []), x);
  freeaddrinfo = λ x. x;
  socket = λ a x. (some 4, record x { open_fd = some 4 });
  connect = λ fd a x. (a == 2, x);
  close = λ fd x. record x { open_fd = none };
  set_receive_buffer = λ fd x. (true, x);
  recv = λ fd x. (next_of x.given, record x { given = suc x.given });
  time = λ x. (x.given, x);
}

abbrev pub quiet : Remote
quiet = record { given = 0; open_fd = none }

-- Four rounds: the byte of a second is counted in the line of the next.
main_run :
    main remote 4 3 quiet
    ≡ receives 4
        (record {
          last_second = 4;
          total_bytes_recvd = 0;
          count = 4;
          printed =
              record { total = 1; number = 3 }
              ∷ record { total = 1; number = 2 }
              ∷ record { total = 1; number = 1 }
              ∷ record { total = 0; number = 0 }
              ∷ [];
        })
        (record { given = 4; open_fd = some 4 })
unfolding main serve connect_first receive_rounds receive
main_run = refl

-- Without the two arguments.
main_usage : main remote 4 1 quiet ≡ exits 1 quiet
unfolding main
main_usage = refl

-- The descriptor that the host has open.
abbrev Opened : Remote → ℕ → Type 0
Opened x f = x.open_fd ≡ some f

remote-IsPeer : IsPeer remote Opened
remote-IsPeer = record {
  socket_opens = λ a x f o. inr o;
  connect_keeps = λ s a x f o. o;
  close_closes = λ g x f o. absurd (some_not_none (sym o));
}

main-IsOutcome_example : IsOutcome remote Opened remote-IsPeer 4 3 quiet (main remote 4 3 quiet)
main-IsOutcome_example = main-IsOutcome remote Opened remote-IsPeer 4 3 quiet

read_next : (n : ℕ) → read_of (suc n) ≡ read_of n ++ bytes_of (next_of n)
read_next zero = refl
read_next (suc zero) = refl
read_next (suc (suc zero)) = refl
read_next (suc (suc (suc n))) = refl

read_unread : (n : ℕ) → read_of n ++ unread_of n ≡ 5 ∷ 6 ∷ 7 ∷ []
read_unread zero = refl
read_unread (suc zero) = refl
read_unread (suc (suc zero)) = refl
read_unread (suc (suc (suc n))) = refl

pub remote-IsConnection : IsConnection remote 4 (λ x. 5 ∷ 6 ∷ 7 ∷ []) (λ x. read_of x.given)
remote-IsConnection = record {
  receives_next = λ x. read_next x.given;
  receives_sent = λ x. (unread_of x.given, read_unread x.given);
  time_keeps = λ x. refl;
}

-- The bytes of seconds 0 to 4.
printed-run_totals_example :
    0 ∷ 1 ∷ 1 ∷ 1 ∷ 0 ∷ [] ≡ run_totals 0 (samples remote 4 4 (first_tally 0) quiet)
unfolding receive_rounds receive
printed-run_totals_example = printed-run_totals remote 4 4 0 quiet
