-- ===== src/Sender/Prompt.antt =====
-- src/senders/tcp_sender.cpp and tcp_sender_zc.cpp: how long a call of send can take.
pub mod Returns
use real_time_data_transfer.Base.{
  ltb, if◌then◌else◌, false_not_true, ℕ, suc, ◌+◌, ◌≤◌, ◌<◌, ◌≡◌, refl, ap, Bool, true, false, some,
  arith,
}
use real_time_data_transfer.Sender.{
  WorkerPc, CallerPc, State, Transport, worker_thread, looking, taking, unlocking, failing, coding,
  releasing, sending, checking_done, send_locking, filling, refusing, filled, send_signalling,
  send_unlocking,
}
use real_time_data_transfer.Sender.Worker.{
  WorkerStep, starts, finds_list, finds_end, waits, takes, unlocks, flags_error, stores_code,
  releases,
}
use real_time_data_transfer.Sender.Caller.{
  CallerStep, finds_no_thread, refuses, finds_thread, send_declined, send_accepted, send_locks,
  fills, send_lowers, send_signals, send_unlocks, finds_end,
}
use real_time_data_transfer.Sender.Exclusion.{worker_locks}
use real_time_data_transfer.Sender.Life.{unowned-none}

-- The steps that a call of send has left at most.
abbrev pub stages_left : CallerPc → ℕ
stages_left pc = elim pc [
  | sending a ↦ 7
  | checking_done a ↦ 6
  | send_locking a ↦ 5
  | filling a ↦ 4
  | filled ↦ 3
  | send_signalling ↦ 2
  | send_unlocking ↦ 1
  | refusing ↦ 1
  | _ ↦ 0
]

-- In a call of send.
abbrev pub is_sending : CallerPc → Bool
is_sending pc = ltb 0 (stages_left pc)

-- The steps after which the worker has given packets_mutex back, at most; 0 if it does not hold it.
abbrev pub holds_for : WorkerPc → ℕ
holds_for pc = elim pc [
  | looking ↦ 4
  | taking ↦ 2
  | unlocking l ↦ 1
  | failing held e c ↦ if held then 3 else 0
  | coding held c ↦ if held then 2 else 0
  | releasing held ↦ if held then 1 else 0
  | _ ↦ 0
]

pub most_stages : (pc : CallerPc) → stages_left pc ≤ 7
most_stages (sending a) = omega arith
most_stages (checking_done a) = omega arith
most_stages (send_locking a) = omega arith
most_stages (filling a) = omega arith
most_stages filled = omega arith
most_stages send_signalling = omega arith
most_stages send_unlocking = omega arith
most_stages refusing = omega arith
most_stages pc = omega arith

pub most_holds : (pc : WorkerPc) → holds_for pc ≤ 4
most_holds looking = omega arith
most_holds taking = omega arith
most_holds (unlocking l) = omega arith
most_holds (failing true e c) = omega arith
most_holds (failing false e c) = omega arith
most_holds (coding true c) = omega arith
most_holds (coding false c) = omega arith
most_holds (releasing true) = omega arith
most_holds (releasing false) = omega arith
most_holds pc = omega arith

module _ (tr : Transport) where
  -- `n` steps of one call of send, with any steps of the worker between them.
  pub data InSend : ℕ → State → State → Type 0 where
    rests : {s : State} → InSend 0 s s
    works : {n : ℕ} {s t u : State} → WorkerStep tr s t → InSend n t u → InSend n s u
    goes :
        {n : ℕ} {s t u : State}
        → is_sending s.caller ≡ true
        → CallerStep s t
        → InSend n t u
        → InSend (suc n) s u

  -- The worker holds packets_mutex, and is about to give it back.
  pub record IsHeld (s : State) : Type 0 where
    pub locked : s.shared.packets_mutex ≡ some worker_thread
    pub moves : (t : State) × WorkerStep tr s t
    pub soon : (t : State) → WorkerStep tr s t → holds_for t.worker < holds_for s.worker

  CallerStep-less :
      {s t : State}
      → CallerStep s t
      → is_sending s.caller ≡ true
      → stages_left t.caller < stages_left s.caller
  CallerStep-less (finds_no_thread s a h) e = omega arith
  CallerStep-less (refuses s) e = omega arith
  CallerStep-less (finds_thread s a h) e = omega arith
  CallerStep-less (send_declined s a h) e = omega arith
  CallerStep-less (send_accepted s a h) e = omega arith
  CallerStep-less (send_locks s a h) e = omega arith
  CallerStep-less (fills s a) e = omega arith
  CallerStep-less (send_lowers s) e = omega arith
  CallerStep-less (send_signals s) e = omega arith
  CallerStep-less (send_unlocks s) e = omega arith
  CallerStep-less x e = absurd (false_not_true e)

  WorkerStep-caller : {s t : State} → WorkerStep tr s t → t.caller ≡ s.caller
  WorkerStep-caller (starts s) = refl
  WorkerStep-caller x = refl

  pub InSend-bounded :
      {n : ℕ} {s t : State} → InSend n s t → n + stages_left t.caller ≤ stages_left s.caller
  InSend-bounded rests = omega arith
  InSend-bounded (works x xs) =
      let e = ap stages_left (WorkerStep-caller x) in let b = InSend-bounded xs in omega arith
  InSend-bounded (goes g x xs) =
      let l = CallerStep-less x g in let b = InSend-bounded xs in omega arith

  pub WorkerStep-soon :
      {s t : State}
      → WorkerStep tr s t
      → worker_locks s.worker ≡ true
      → holds_for t.worker < holds_for s.worker
  WorkerStep-soon (finds_list s a h) e = omega arith
  WorkerStep-soon (finds_end s h k) e = omega arith
  WorkerStep-soon (waits s h k) e = omega arith
  WorkerStep-soon (takes s a h) e = omega arith
  WorkerStep-soon (unlocks s l) e = omega arith
  WorkerStep-soon (flags_error s true error code) e = omega arith
  WorkerStep-soon (flags_error s false error code) e = absurd (false_not_true e)
  WorkerStep-soon (stores_code s true code) e = omega arith
  WorkerStep-soon (stores_code s false code) e = absurd (false_not_true e)
  WorkerStep-soon (releases s) e = omega arith
  WorkerStep-soon x e = absurd (false_not_true e)
