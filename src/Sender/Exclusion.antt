-- ===== src/Sender/Exclusion.antt =====
-- src/senders/tcp_sender.cpp and src/utils/mutex_raii.cpp: who holds packets_mutex.
use real_time_data_transfer.Base.{ℕ, ◌≡◌, refl, Bool, true, false, Option, none, some}
use real_time_data_transfer.Packets.{Packets}
use real_time_data_transfer.Sender.{
  Thread, WorkerPc, CallerPc, State, Transport, worker_thread, caller_thread, looking, waiting,
  taking, unlocking, failing, coding, releasing, filling, filled, send_signalling, send_unlocking,
  clearing, cleared, end_signalling, end_unlocking,
}
use real_time_data_transfer.Sender.Worker.{WorkerStep, locks, waits, locks_again, unlocks, releases}
use real_time_data_transfer.Sender.Caller.{
  signalled, CallerStep, send_locks, send_signals, send_unlocks, end_locks, end_signals,
  end_unlocks,
}
use real_time_data_transfer.Sender.Steps.{
  Reachable, worker_moves, caller_moves, writes, begins, then_step,
}

-- The worker is between lock_block and unlock, and not in pthread_cond_wait.
abbrev pub worker_locks : WorkerPc → Bool
worker_locks pc = elim pc [
  | looking ↦ true
  | taking ↦ true
  | unlocking l ↦ true
  | failing held e c ↦ held
  | coding held c ↦ held
  | releasing held ↦ held
  | _ ↦ false
]

-- The caller is between lock_block and unlock.
abbrev pub caller_locks : CallerPc → Bool
caller_locks pc = elim pc [
  | filling a ↦ true
  | filled ↦ true
  | send_signalling ↦ true
  | send_unlocking ↦ true
  | clearing ↦ true
  | cleared ↦ true
  | end_signalling ↦ true
  | end_unlocking ↦ true
  | _ ↦ false
]

pub data Owner : Bool → Bool → Option Thread → Type 0 where
  unowned : Owner false false none
  by_worker : Owner true false (some worker_thread)
  by_caller : Owner false true (some caller_thread)

-- The mutex is held by the thread that stands in a critical section, and by no more than one.
abbrev pub Exclusive : State → Type 0
Exclusive s = Owner (worker_locks s.worker) (caller_locks s.caller) s.shared.packets_mutex

worker_acquires :
    {c : Bool} {m : Option Thread} → Owner false c m → m ≡ none → Owner true c (some worker_thread)
worker_acquires unowned h = by_worker
worker_acquires by_caller h = cc

worker_releases : {c : Bool} {m : Option Thread} → Owner true c m → Owner false c none
worker_releases by_worker = unowned

caller_acquires :
    {b : Bool} {m : Option Thread} → Owner b false m → m ≡ none → Owner b true (some caller_thread)
caller_acquires unowned h = by_caller
caller_acquires by_worker h = cc

caller_releases : {b : Bool} {m : Option Thread} → Owner b true m → Owner b false none
caller_releases by_caller = unowned

signalled-locks : (pc : WorkerPc) → worker_locks (signalled pc) ≡ worker_locks pc
signalled-locks waiting = refl
signalled-locks pc = refl

module _ (tr : Transport) where
  WorkerStep-Exclusive : {s t : State} → WorkerStep tr s t → Exclusive s → Exclusive t
  WorkerStep-Exclusive (locks s h) o = worker_acquires o h
  WorkerStep-Exclusive (locks_again s h) o = worker_acquires o h
  WorkerStep-Exclusive (waits s h k) o = worker_releases o
  WorkerStep-Exclusive (unlocks s l) o = worker_releases o
  WorkerStep-Exclusive (releases s) o = worker_releases o
  WorkerStep-Exclusive x o = o

  CallerStep-Exclusive : {s t : State} → CallerStep s t → Exclusive s → Exclusive t
  CallerStep-Exclusive (send_locks s a h) o = caller_acquires o h
  CallerStep-Exclusive (end_locks s h) o = caller_acquires o h
  CallerStep-Exclusive (send_unlocks s) o = caller_releases o
  CallerStep-Exclusive (end_unlocks s) o = caller_releases o
  CallerStep-Exclusive (send_signals s) o = rw (signalled-locks s.worker) o
  CallerStep-Exclusive (end_signals s) o = rw (signalled-locks s.worker) o
  CallerStep-Exclusive x o = o

  module _ (Writable : State → Type 0) where
    -- In every reachable state packets_mutex is held exactly by the thread that stands in a
    -- critical section, and the two threads are never in one at the same time, whatever the calls
    -- of the caller, the results of the system calls and the order of the steps.
    pub Reachable-Exclusive :
        {lists : ℕ → Packets} {s : State} → Reachable tr Writable lists s → Exclusive s
    Reachable-Exclusive (begins fd e0) = unowned
    Reachable-Exclusive (then_step r (worker_moves x)) =
        WorkerStep-Exclusive x (Reachable-Exclusive r)
    Reachable-Exclusive (then_step r (caller_moves x)) =
        CallerStep-Exclusive x (Reachable-Exclusive r)
    Reachable-Exclusive (then_step r (writes s a l h)) = Reachable-Exclusive r
