-- ===== src/Tests/Senders.antt =====
-- src/senders/tcp_sender.cpp: the theorems on senders, applied to the states of a run.
use real_time_data_transfer.Base.{ℕ, ◌≤◌, ◌≡◌, refl, ◌≢◌, ◌⊎◌, true, false, none, some}
use real_time_data_transfer.Sender.{State, payloads, worker_thread, waiting, ended}
use real_time_data_transfer.Sender.Worker.{WorkerStep}
use real_time_data_transfer.Sender.Exclusion.{Owner, Reachable-Exclusive}
use real_time_data_transfer.Sender.Life.{Reachable-ended}
use real_time_data_transfer.Sender.Wakeup.{will_signal, will_wake, waiting-IsWoken, taking-not_null}
use real_time_data_transfer.Sender.Ending.{rests}
use real_time_data_transfer.Sender.Polling.{end_sender-terminates}
use real_time_data_transfer.Sender.Account.{Untaken}
use real_time_data_transfer.Sender.Delivery.{done-delivered}
use real_time_data_transfer.Tests.Sending.{bytes, asleep, asleep-Reachable, found, found-Reachable}
use real_time_data_transfer.Tests.Stopping.{
  delivered, delivered-Reachable, stopping, stopping-Reachable, stopped, stopped-Reachable,
}

Reachable-Exclusive_example : Owner true false (some worker_thread)
Reachable-Exclusive_example = Reachable-Exclusive bytes Untaken {s = found} (found-Reachable bytes)

waiting-IsWoken_example :
    ((asleep.shared.packets_list ≡ none) ⊎ (will_signal asleep.caller ≡ true))
    × ((asleep.shared.terminate_thread ≡ false) ⊎ (will_wake asleep.caller ≡ true))
waiting-IsWoken_example = waiting-IsWoken bytes Untaken {s = asleep} (asleep-Reachable bytes) refl

taking-not_null_example : (a : ℕ) × (found.shared.packets_list ≡ some a)
taking-not_null_example = taking-not_null bytes Untaken {s = found} (found-Reachable bytes) refl

done-delivered_example : delivered.wire ≡ payloads bytes delivered.handed
done-delivered_example = done-delivered bytes {s = delivered} delivered-Reachable refl refl

Reachable-ended_example : (stopped.worker ≡ ended) × (stopped.shared.packets_mutex ≡ none)
Reachable-ended_example = Reachable-ended bytes Untaken {s = stopped} stopped-Reachable refl

end_sender-terminates_example :
    (0 ≤ 5)
    × (stopping.worker ≢ waiting)
    × ((stopping.worker ≡ ended) ⊎ ((u : State) × WorkerStep bytes stopping u))
end_sender-terminates_example =
    end_sender-terminates bytes Untaken {s = stopping} stopping-Reachable refl rests
