-- ===== src/Tests/Sending.antt =====
-- src/senders/tcp_sender.cpp: a run of a sender and its worker, up to a list that the worker finds.
use real_time_data_transfer.Base.{ℕ, refl, Bool, true, false, Option, none, some, List, [], ◌∷◌}
use real_time_data_transfer.Errors.{new_error}
use real_time_data_transfer.Packets.{DataPacket, Packets, memory_location}
use real_time_data_transfer.Sender.{
  Thread, SenderWorkerData, WorkerPc, CallerPc, State, Transport, cant_cpu_affinity, worker_thread,
  caller_thread, starting, announcing, setting_affinity, setting_timeout, setting_send_buffer,
  setting_receive_buffer, checking, locking, looking, waiting, woken, taking, initializing, idle,
  sending, checking_done, send_locking, filling, filled, send_signalling, send_unlocking,
}
use real_time_data_transfer.Sender.Worker.{
  starts, announces, affinity_set, timeout_set, send_buffer_set, receive_buffer_set, goes_on, locks,
  finds_list, waits, locks_again,
}
use real_time_data_transfer.Sender.Caller.{
  initialized, calls_send, finds_thread, send_accepted, send_locks, fills, send_lowers,
  send_signals, send_unlocks,
}
use real_time_data_transfer.Sender.Steps.{
  fresh, Reachable, worker_moves, caller_moves, begins, then_step,
}
use real_time_data_transfer.Sender.Account.{Untaken}

abbrev pub packet : DataPacket
packet = record { data_ptr_type = memory_location; data_ptr = 1; data_size = 3; data_offset = 5 }

abbrev pub lists : ℕ → Packets
lists a = packet ∷ []

-- The byte at an offset is the offset.
abbrev pub bytes : Transport
bytes = record { zero_copy = false; byte_at = λ p offset. offset }

abbrev pub one : List Packets
one = (packet ∷ []) ∷ []

-- The shared data while the worker runs.
abbrev pub working : Option ℕ → Bool → Bool → Option Thread → SenderWorkerData
working list done terminate mutex = record {
  packets_list = list;
  is_done = done;
  is_error = false;
  sock_fd = some 4;
  terminate_thread = terminate;
  thread_initialized = true;
  is_terminated_thread = false;
  error_code = cant_cpu_affinity;
  packets_mutex = mutex;
}

abbrev pub at :
    SenderWorkerData
    → WorkerPc
    → CallerPc
    → Bool
    → Bool
    → List ℕ
    → List Packets
    → List Packets
    → State
at shared worker caller initialised result wire handed taken = record {
  shared = shared;
  worker = worker;
  caller = caller;
  initialized = initialised;
  error_handler = new_error "TCPSender";
  result = result;
  lists = lists;
  wire = wire;
  sending_counter = 0;
  last_sending_counter = 0;
  handed = handed;
  taken = taken;
}

-- initialize has returned, and the worker waits.

abbrev begun : State
begun = at (working none true false none) setting_affinity idle true true [] [] []

begun-Reachable : (tr : Transport) → Reachable tr Untaken lists begun
begun-Reachable tr =
    then_step
      (then_step
        (then_step (begins 4 (new_error "TCPSender"))
          (worker_moves (starts (at (fresh (some 4)) starting initializing false false [] [] []))))
        (worker_moves (
          announces (
            at (record (fresh (some 4)) { is_terminated_thread = false }) announcing initializing
              false false [] [] []))))
      (caller_moves (
        initialized
          (at (working none true false none) setting_affinity initializing false false [] [] [])
          refl))

abbrev prepared : State
prepared = at (working none true false none) checking idle true true [] [] []

prepared-Reachable : (tr : Transport) → Reachable tr Untaken lists prepared
prepared-Reachable tr =
    then_step
      (then_step
        (then_step
          (then_step (begun-Reachable tr) (
            worker_moves (
              affinity_set
                (at (working none true false none) setting_affinity idle true true [] [] []))))
          (worker_moves (
            timeout_set
              (at (working none true false none) setting_timeout idle true true [] [] []))))
        (worker_moves (
          send_buffer_set
            (at (working none true false none) setting_send_buffer idle true true [] [] []))))
      (worker_moves (
        receive_buffer_set
          (at (working none true false none) setting_receive_buffer idle true true [] [] [])))

abbrev pub asleep : State
asleep = at (working none true false none) waiting idle true true [] [] []

pub asleep-Reachable : (tr : Transport) → Reachable tr Untaken lists asleep
asleep-Reachable tr =
    then_step
      (then_step
        (then_step (prepared-Reachable tr) (
          worker_moves
            (goes_on (at (working none true false none) checking idle true true [] [] []) refl)))
        (worker_moves
          (locks (at (working none true false none) locking idle true true [] [] []) refl)))
      (worker_moves (
        waits (at (working none true false (some worker_thread)) looking idle true true [] [] [])
          refl refl))

-- send has handed over a list, which the worker has found.

abbrev chosen : State
chosen = at (working none true false (some caller_thread)) waiting (filling 0) true true [] [] []

chosen-Reachable : (tr : Transport) → Reachable tr Untaken lists chosen
chosen-Reachable tr =
    then_step
      (then_step
        (then_step
          (then_step (asleep-Reachable tr) (
            caller_moves (
              calls_send (at (working none true false none) waiting idle true true [] [] []) 0
                refl)))
          (caller_moves (
            finds_thread (at (working none true false none) waiting (sending 0) true true [] [] [])
              0 refl)))
        (caller_moves (
          send_accepted
            (at (working none true false none) waiting (checking_done 0) true true [] [] []) 0
            refl)))
      (caller_moves (
        send_locks (at (working none true false none) waiting (send_locking 0) true true [] [] []) 0
          refl))

abbrev given : State
given = at (working (some 0) false false none) woken idle true true [] one []

given-Reachable : (tr : Transport) → Reachable tr Untaken lists given
given-Reachable tr =
    then_step
      (then_step
        (then_step
          (then_step (chosen-Reachable tr) (
            caller_moves (
              fills
                (at (working none true false (some caller_thread)) waiting (filling 0) true true []
                  [] [])
                0)))
          (caller_moves (
            send_lowers (
              at (working (some 0) true false (some caller_thread)) waiting filled true true [] one
                []))))
        (caller_moves (
          send_signals (
            at (working (some 0) false false (some caller_thread)) waiting send_signalling true true
              [] one []))))
      (caller_moves (
        send_unlocks (
          at (working (some 0) false false (some caller_thread)) woken send_unlocking true true []
            one [])))

abbrev pub found : State
found = at (working (some 0) false false (some worker_thread)) taking idle true true [] one []

pub found-Reachable : (tr : Transport) → Reachable tr Untaken lists found
found-Reachable tr =
    then_step
      (then_step (given-Reachable tr) (
        worker_moves (
          locks_again (at (working (some 0) false false none) woken idle true true [] one [])
            refl)))
      (worker_moves (
        finds_list
          (at (working (some 0) false false (some worker_thread)) looking idle true true [] one [])
          0 refl))
