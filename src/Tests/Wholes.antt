-- ===== src/Tests/Wholes.antt =====
-- src/systems/real_time_system.cpp with src/senders/tcp_sender.cpp: two rounds of a system whose
-- sender is a TCPSender.
use real_time_data_transfer.Base.{
  ℕ, zero, suc, ◌≡◌, refl, subst, Bool, true, false, none, some, List, [], ◌∷◌, ◌++◌,
}
use real_time_data_transfer.Errors.{new_error, set_error}
use real_time_data_transfer.Packets.{Packets}
use real_time_data_transfer.Sender.{
  SenderWorkerData, WorkerPc, State, segment, payloads, caller_thread, waiting, woken, next_packet,
  idle, sending, checking_done, send_locking, filling, filled, send_signalling, send_unlocking,
}
use real_time_data_transfer.Sender.Caller.{
  finds_thread, send_declined, send_accepted, send_locks, fills, send_lowers, send_signals,
  send_unlocks,
}
use real_time_data_transfer.Sender.Steps.{assigned as replaced}
use real_time_data_transfer.Sender.Ending.{rests}
use real_time_data_transfer.Sender.Calls.{Works, SendCall, enters, returns, goes, calls}
use real_time_data_transfer.System.{RealTimeSystem, World}
use real_time_data_transfer.System.Info.{real_time_info}
use real_time_data_transfer.System.Run.{
  Counters, use_tolerance, round, Goes, first_counters, again, stands, goes_round,
}
use real_time_data_transfer.System.Run.Concrete.{IsTcp}
use real_time_data_transfer.System.Run.Served.{packets_given}
use real_time_data_transfer.System.Run.Delivers.{run-delivers}
use real_time_data_transfer.System.Run.Log.{Call, logged, polled, asked, assigned, sent, ticked}
use real_time_data_transfer.Tests.Sending.{lists, bytes, working, packet, asleep-Reachable}
use real_time_data_transfer.Tests.Worlds.{parts, slow_system}
use real_time_data_transfer.Tests.Machines.{
  Phase, Memory, state, view, polled_to, polls_to, resting, handed_over, stuck,
}

abbrev pub declined : Memory → Memory
declined q = record q {
  error = set_error "system called send(DataPacketsList*) while on going send operation." q.error;
  last_result = false;
}

abbrev pub sent_to : Phase × Memory → Bool × (Phase × Memory)
sent_to (resting, q) =
    (true, (handed_over, record q { last_result = true; given = q.given ++ q.lists_of 0 ∷ [] }))
sent_to (handed_over, q) = (false, (handed_over, declined q))
sent_to (stuck rest, q) = (false, (stuck rest, declined q))

abbrev pub assigned_to : Packets → Phase × Memory → (Phase × Memory)
assigned_to l (ph, q) = (ph, record q { lists_of = replaced 0 l q.lists_of })

-- The user's function gives one packet at each tick.
abbrev pub whole : World
whole = record {
  State = Phase × Memory;
  mlockall = λ x. (true, x);
  sched_setscheduler = λ x. (true, x);
  sched_setaffinity = λ x. (true, x);
  timer_initialize = λ t x. (true, x);
  timer_set_frequency = λ t f x. (true, x);
  timer_start = λ t x. (true, x);
  timer_sleep_to_next_tick = λ t x. (true, x);
  timer_get_error = λ t x. ("", x);
  sender_initialize = λ s x. (true, x);
  sender_send = λ s x. sent_to x;
  sender_is_send_done = λ s x. polled_to x;
  sender_end = λ s x. x;
  sender_get_error = λ s x. ("refused", x);
  assign_packets = assigned_to;
  user_function = λ f i x. (i, packet ∷ [], x);
  milliseconds_sleep = λ n x. x;
  microseconds_sleep = λ n x. x;
}

still : (s : State) → Works bytes s s
still s = (0, rests)

declines :
    (d : SenderWorkerData) (pc : WorkerPc) (q : Memory)
    → d.is_terminated_thread ≡ false
    → d.is_done ≡ false
    → SendCall bytes 0 (state d pc idle q) (state d pc idle (declined q))
declines d pc q r n = calls (still (state d pc idle q)) (enters (state d pc idle q) refl) (
    goes (λ h. cc) (finds_thread (state d pc (sending 0) q) 0 r)
      (goes (λ h. cc) (send_declined (state d pc (checking_done 0) q) 0 n) (returns refl)))

accepts : (q : Memory) → SendCall bytes 0 (view (resting, q)) (view (sent_to (resting, q)).1)
accepts q =
    let done = working none true false none in
    let locked = working none true false (some caller_thread) in
    let filled_data = working (some 0) true false (some caller_thread) in
    let lowered = working (some 0) false false (some caller_thread) in
    let q' : Memory = record q { given = q.given ++ q.lists_of 0 ∷ [] } in
    calls (still (view (resting, q))) (enters (state done waiting idle q) refl) (
      goes (λ h. cc) (finds_thread (state done waiting (sending 0) q) 0 refl)
        (goes (λ h. cc) (send_accepted (state done waiting (checking_done 0) q) 0 refl)
          (goes (λ h. cc) (send_locks (state done waiting (send_locking 0) q) 0 refl)
            (goes (λ h. cc) (fills (state locked waiting (filling 0) q) 0)
              (goes (λ h. cc) (send_lowers (state filled_data waiting filled q'))
                (goes (λ h. cc) (send_signals (state lowered waiting send_signalling q'))
                  (goes (λ h. cc) (send_unlocks (state lowered woken send_unlocking q'))
                    (returns refl))))))))

sends_to :
    (x : Phase × Memory)
    → SendCall bytes 0 (view x) (view (sent_to x).1) × ((view (sent_to x).1).result ≡ (sent_to x).0)
sends_to (resting, q) = (accepts q, refl)
sends_to (handed_over, q) = (declines (working (some 0) false false none) woken q refl refl, refl)
sends_to (stuck rest, q) =
    (declines (working none false false none) (next_packet rest) q refl refl, refl)

pub assigns_to :
    (l : Packets) (x : Phase × Memory)
    → record (view x) { lists = replaced 0 l (view x).lists } ≡ view (assigned_to l x)
assigns_to l (resting, q) = refl
assigns_to l (handed_over, q) = refl
assigns_to l (stuck rest, q) = refl

pub whole-IsTcp : IsTcp whole parts bytes 0 view
whole-IsTcp = record {
  polls =
      λ x. let (z, d) = polls_to x in (view (polled_to x).1, z, d, still (view (polled_to x).1));
  naps = λ n x. still (view x);
  ticks = λ x. still (view x);
  asks = λ i x. still (view x);
  assigns = λ l x. (
    view x,
    still (view x),
    subst (λ t. Works bytes (record (view x) { lists = replaced 0 l (view x).lists }) t)
        (assigns_to l x) (still (record (view x) { lists = replaced 0 l (view x).lists })),
  );
  sends = sends_to;
}

abbrev pub sending_system : RealTimeSystem
sending_system = record slow_system { allow_skip_mode = false }

abbrev pub fresh_memory : Memory
fresh_memory = record {
  lists_of = lists;
  error = new_error "TCPSender";
  last_result = true;
  bytes_sent = [];
  given = [];
  copied = [];
}

-- The lists of the memory, when the application has assigned its list `n` times.
abbrev pub after_assigning : ℕ → ℕ → Packets
after_assigning zero = lists
after_assigning (suc n) = replaced 0 (packet ∷ []) (after_assigning n)

abbrev pub handed_first : Memory
handed_first = record fresh_memory { lists_of = after_assigning 1; given = (packet ∷ []) ∷ [] }

abbrev pub handed_second : Memory
handed_second = record fresh_memory {
  lists_of = after_assigning 2;
  bytes_sent = 5 ∷ 6 ∷ 7 ∷ [];
  given = (packet ∷ []) ∷ (packet ∷ []) ∷ [];
  copied = (packet ∷ []) ∷ [];
}

-- The calls of a round that sends at once, before those in `l`.
abbrev pub round_log : ℕ → List Call → List Call
round_log seq l =
    ticked true
    ∷ sent true
    ∷ assigned (packet ∷ [])
    ∷ asked (real_time_info seq false 0 false) false (packet ∷ [])
    ∷ polled true
    ∷ polled true
    ∷ polled true
    ∷ l

abbrev pub numbered : ℕ → Counters
numbered n = record { sequence_number = n; skipped_count = 0 }

abbrev pub two_rounds : List Call
two_rounds = round_log 1 (round_log 0 [])

first_round :
    round
      (logged whole)
      parts
      sending_system
      (first_counters whole parts)
      ((resting, fresh_memory), [])
    ≡ again (numbered 0, ((handed_over, handed_first), round_log 0 []))
unfolding round use_tolerance
first_round = refl

second_round :
    round
      (logged whole)
      parts
      sending_system
      (numbered 0)
      ((handed_over, handed_first), round_log 0 [])
    ≡ again (numbered 1, ((handed_over, handed_second), two_rounds))
unfolding round use_tolerance segment
second_round = refl

pub two_rounds-Goes :
    Goes
      (logged whole)
      parts
      sending_system
      2
      (first_counters whole parts, ((resting, fresh_memory), []))
      (numbered 1, ((handed_over, handed_second), two_rounds))
two_rounds-Goes = goes_round first_round (goes_round second_round stands)

-- After the second round the worker has the second list to send.
run-delivers_example :
    ((packet ∷ []) ∷ (packet ∷ []) ∷ [] ≡ packets_given two_rounds)
    × ((missing : List ℕ) × ((5 ∷ 6 ∷ 7 ∷ []) ++ missing
          ≡ payloads bytes (packets_given two_rounds)))
    × (false ≡ true → 5 ∷ 6 ∷ 7 ∷ [] ≡ payloads bytes (packets_given two_rounds))
run-delivers_example =
    run-delivers whole parts bytes 0 view whole-IsTcp lists [] sending_system refl
      (asleep-Reachable bytes) refl refl two_rounds-Goes
