-- ===== src/Tests/Prompting.antt =====
-- src/senders/tcp_sender.cpp: a call of send that meets a worker with the mutex.
use real_time_data_transfer.Base.{◌≤◌, ◌≡◌, refl, ◌⊎◌, true, false, none, some, []}
use real_time_data_transfer.Sender.{
  State, woken, looking, worker_thread, sending, checking_done, send_locking,
}
use real_time_data_transfer.Sender.Worker.{wakes_up, locks_again}
use real_time_data_transfer.Sender.Caller.{CallerStep, calls_send, finds_thread, send_accepted}
use real_time_data_transfer.Sender.Steps.{caller_moves, then_step}
use real_time_data_transfer.Sender.Account.{Untaken}
use real_time_data_transfer.Sender.Prompt.{is_sending, InSend, IsHeld, rests, works, goes}
use real_time_data_transfer.Sender.Prompt.Returns.{send-returns}
use real_time_data_transfer.Tests.Sending.{bytes, working, at, asleep, asleep-Reachable}

abbrev called : State
called = record asleep { caller = sending 0 }

-- The worker has woken up without a signal, and the call has found that it can send.
abbrev meeting : State
meeting =
    at (working none true false (some worker_thread)) looking (send_locking 0) true true [] [] []

meets : InSend bytes 2 called meeting
meets = goes refl (finds_thread called 0 refl) (
    goes refl (send_accepted (record called { caller = checking_done 0 }) 0 refl) (
      works (wakes_up (record called { caller = send_locking 0 })) (
        works (locks_again (record called { caller = send_locking 0; worker = woken }) refl)
          rests)))

send-returns_example :
    (2 ≤ 7)
    × (7 ≤ 7)
    × (4 ≤ 4)
    × ((is_sending meeting.caller ≡ false)
        ⊎ ((u : State) × CallerStep meeting u)
        ⊎ IsHeld bytes meeting)
send-returns_example =
    send-returns bytes Untaken {s = called} {t = meeting}
      (then_step (asleep-Reachable bytes) (caller_moves (calls_send asleep 0 refl))) refl meets
