-- ===== src/Tests/Stopping.antt =====
-- src/senders/tcp_sender.cpp: the run goes on with the transmission and the end of the worker.
use real_time_data_transfer.Base.{refl, true, false, none, some, [], ◌∷◌, arith}
use real_time_data_transfer.Sender.{
  State, segment, no_error, worker_thread, caller_thread, checking, taking, unlocking, next_packet,
  transmitting, transmitted, marking, failing, coding, releasing, flagging, ended, idle, ending,
  end_locking, clearing, cleared, end_signalling, end_unlocking, polling, closing,
}
use real_time_data_transfer.Sender.Worker.{
  stops, finds_end, takes, unlocks, picks, transmits, resumes, packet_sent, all_sent, marks,
  flags_error, stores_code, releases_nothing, flags_end,
}
use real_time_data_transfer.Sender.Caller.{
  calls_end, terminates, end_locks, clears, end_lowers, end_signals, end_unlocks, finds_end,
}
use real_time_data_transfer.Sender.Steps.{Reachable, worker_moves, caller_moves, then_step}
use real_time_data_transfer.Sender.Account.{Untaken}
use real_time_data_transfer.Tests.Sending.{packet, lists, bytes, one, working, at, found-Reachable}

-- The worker has sent the list, in two pieces.

abbrev partly_sent : State
partly_sent =
    at (working none false false none) (transmitted packet 5 3 2 []) idle true true (5 ∷ 6 ∷ []) one
      one

partly_sent-Reachable : Reachable bytes Untaken lists partly_sent
unfolding segment
partly_sent-Reachable =
    then_step
      (then_step
        (then_step
          (then_step (found-Reachable bytes) (
            worker_moves (
              takes
                (at (working (some 0) false false (some worker_thread)) taking idle true true [] one
                  [])
                0 refl)))
          (worker_moves (
            unlocks
              (at (working none false false (some worker_thread)) (unlocking (packet ∷ [])) idle
                true true [] one one)
              (packet ∷ []))))
        (worker_moves (
          picks
            (at (working none false false none) (next_packet (packet ∷ [])) idle true true [] one
              one)
            packet [] (λ h. cc))))
      (worker_moves (
        transmits
          (at (working none false false none) (transmitting packet 5 3 []) idle true true [] one
            one)
          packet 5 3 2 [] (λ h. absurd (omega arith)) (omega arith)))

abbrev accepted : State
accepted =
    at (working none false false none) (transmitting packet 8 0 []) idle true true (5 ∷ 6 ∷ 7 ∷ [])
      one one

accepted-Reachable : Reachable bytes Untaken lists accepted
unfolding segment
accepted-Reachable =
    then_step
      (then_step
        (then_step (partly_sent-Reachable) (
          worker_moves (
            resumes
              (at (working none false false none) (transmitted packet 5 3 2 []) idle true true
                (5 ∷ 6 ∷ []) one one)
              packet 5 3 2 [] refl)))
        (worker_moves (
          transmits
            (at (working none false false none) (transmitting packet 7 1 []) idle true true
              (5 ∷ 6 ∷ []) one one)
            packet 7 1 1 [] (λ h. absurd (omega arith)) (omega arith))))
      (worker_moves (
        resumes
          (at (working none false false none) (transmitted packet 7 1 1 []) idle true true
            (5 ∷ 6 ∷ 7 ∷ []) one one)
          packet 7 1 1 [] refl))

abbrev pub delivered : State
delivered = at (working none true false none) checking idle true true (5 ∷ 6 ∷ 7 ∷ []) one one

pub delivered-Reachable : Reachable bytes Untaken lists delivered
delivered-Reachable =
    then_step
      (then_step
        (then_step (accepted-Reachable) (
          worker_moves (
            packet_sent
              (at (working none false false none) (transmitting packet 8 0 []) idle true true
                (5 ∷ 6 ∷ 7 ∷ []) one one)
              packet 8 [])))
        (worker_moves (
          all_sent
            (at (working none false false none) (next_packet []) idle true true (5 ∷ 6 ∷ 7 ∷ []) one
              one)
            refl)))
      (worker_moves (
        marks (at (working none false false none) marking idle true true (5 ∷ 6 ∷ 7 ∷ []) one one)))

-- end_sender has asked the worker to end.

abbrev emptied : State
emptied =
    at (working none true true (some caller_thread)) checking cleared false true (5 ∷ 6 ∷ 7 ∷ [])
      one one

emptied-Reachable : Reachable bytes Untaken lists emptied
emptied-Reachable =
    then_step
      (then_step
        (then_step
          (then_step (delivered-Reachable) (
            caller_moves (
              calls_end (
                at (working none true false none) checking idle true true (5 ∷ 6 ∷ 7 ∷ []) one
                  one))))
          (caller_moves (
            terminates
              (at (working none true false none) checking ending false true (5 ∷ 6 ∷ 7 ∷ []) one
                one)
              refl)))
        (caller_moves (
          end_locks
            (at (working none true true none) checking end_locking false true (5 ∷ 6 ∷ 7 ∷ []) one
              one)
            refl)))
      (caller_moves (
        clears (
          at (working none true true (some caller_thread)) checking clearing false true
            (5 ∷ 6 ∷ 7 ∷ []) one one)))

abbrev pub stopping : State
stopping = at (working none false true none) checking polling false true (5 ∷ 6 ∷ 7 ∷ []) one one

pub stopping-Reachable : Reachable bytes Untaken lists stopping
stopping-Reachable =
    then_step
      (then_step
        (then_step (emptied-Reachable) (
          caller_moves (
            end_lowers (
              at (working none true true (some caller_thread)) checking cleared false true
                (5 ∷ 6 ∷ 7 ∷ []) one one))))
        (caller_moves (
          end_signals (
            at (working none false true (some caller_thread)) checking end_signalling false true
              (5 ∷ 6 ∷ 7 ∷ []) one one))))
      (caller_moves (
        end_unlocks (
          at (working none false true (some caller_thread)) checking end_unlocking false true
            (5 ∷ 6 ∷ 7 ∷ []) one one)))

-- The worker has ended, and end_sender closes the sockets.

abbrev coded : State
coded =
    at (record (working none false true none) { error_code = no_error }) (releasing false) polling
      false true (5 ∷ 6 ∷ 7 ∷ []) one one

coded-Reachable : Reachable bytes Untaken lists coded
coded-Reachable =
    then_step
      (then_step
        (then_step (stopping-Reachable) (
          worker_moves (
            stops
              (at (working none false true none) checking polling false true (5 ∷ 6 ∷ 7 ∷ []) one
                one)
              refl)))
        (worker_moves (
          flags_error
            (at (working none false true none) (failing false false no_error) polling false true
              (5 ∷ 6 ∷ 7 ∷ []) one one)
            false false no_error)))
      (worker_moves (
        stores_code
          (at (working none false true none) (coding false no_error) polling false true
            (5 ∷ 6 ∷ 7 ∷ []) one one)
          false no_error))

abbrev pub stopped : State
stopped =
    at
      (record (working none false true none) { error_code = no_error; is_terminated_thread = true })
      ended closing false true (5 ∷ 6 ∷ 7 ∷ []) one one

pub stopped-Reachable : Reachable bytes Untaken lists stopped
stopped-Reachable =
    then_step
      (then_step
        (then_step (coded-Reachable) (
          worker_moves (
            releases_nothing (
              at (record (working none false true none) { error_code = no_error }) (releasing false)
                polling false true (5 ∷ 6 ∷ 7 ∷ []) one one))))
        (worker_moves (
          flags_end (
            at (record (working none false true none) { error_code = no_error }) flagging polling
              false true (5 ∷ 6 ∷ 7 ∷ []) one one))))
      (caller_moves (
        finds_end
          (at
            (record (working none false true none) {
              error_code = no_error;
              is_terminated_thread = true;
            })
            ended polling false true (5 ∷ 6 ∷ 7 ∷ []) one one)
          refl))
