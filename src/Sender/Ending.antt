-- ===== src/Sender/Ending.antt =====
-- src/senders/tcp_sender.cpp: how many steps the worker has left once it is told to end.
use real_time_data_transfer.Base.{
  true_not_false, some_not_none, length, ℕ, suc, ◌+◌, ◌-◌, ◌*◌, ◌≤◌, ◌<◌, ◌≡◌, refl, sym, ◌∙◌, true,
  none, arith,
}
use real_time_data_transfer.Sender.{
  WorkerPc, State, Transport, starting, announcing, setting_affinity, setting_timeout,
  setting_send_buffer, setting_receive_buffer, checking, locking, looking, waiting, woken, taking,
  unlocking, next_packet, transmitting, transmitted, confirming, receiving, marking, failing,
  coding, releasing, flagging, ended,
}
use real_time_data_transfer.Sender.Worker.{
  WorkerStep, goes_on, finds_list, waits, takes, resumes, polls, acknowledges,
}
use real_time_data_transfer.ZeroCopy.{read_notification_zc}
use real_time_data_transfer.ZeroCopy.Acknowledged.{acknowledged-positive}

-- The steps that a worker has left at most, once it is told to end and has no list to take, when
-- `unacked` sends of TCPSenderZC are not acknowledged.
abbrev pub steps_from : ℕ → WorkerPc → ℕ
steps_from unacked pc = elim pc [
  | starting ↦ 11
  | announcing ↦ 10
  | setting_affinity ↦ 9
  | setting_timeout ↦ 8
  | setting_send_buffer ↦ 7
  | setting_receive_buffer ↦ 6
  | checking ↦ 5
  | locking ↦ 6
  | looking ↦ 5
  | waiting ↦ 7
  | woken ↦ 6
  | taking ↦ 6
  | unlocking l ↦ 9 + 3 * length l + 2 * unacked
  | next_packet l ↦ 8 + 3 * length l + 2 * unacked
  | transmitting p sent remaining rest ↦ 10 + 3 * length rest + 2 * unacked
  | transmitted p sent remaining n rest ↦ 5
  | confirming ↦ 7 + 2 * unacked
  | receiving ↦ 8 + 2 * (unacked - 1)
  | marking ↦ 6
  | failing held e c ↦ 4
  | coding held c ↦ 3
  | releasing held ↦ 2
  | flagging ↦ 1
  | ended ↦ 0
]

abbrev pub steps_left : State → ℕ
steps_left s = steps_from (s.sending_counter - s.last_sending_counter) s.worker

module _ (tr : Transport) where
  -- `n` steps of the worker alone.
  pub data Alone : ℕ → State → State → Type 0 where
    rests : {s : State} → Alone 0 s s
    moves : {n : ℕ} {s t u : State} → WorkerStep tr s t → Alone n t u → Alone (suc n) s u

  -- The caller waits for the end: the worker is told, and there is no list.
  pub record Stopping (s : State) : Type 0 where
    pub told : s.shared.terminate_thread ≡ true
    pub empty : s.shared.packets_list ≡ none

  WorkerStep-Stopping : {s t : State} → WorkerStep tr s t → Stopping s → Stopping t
  WorkerStep-Stopping (takes s a h) v = record { told = v.told; empty = refl }
  WorkerStep-Stopping x v = record { told = v.told; empty = v.empty }

  WorkerStep-less : {s t : State} → WorkerStep tr s t → Stopping s → steps_left t < steps_left s
  WorkerStep-less (goes_on s h) v = absurd (true_not_false (sym v.told ∙ h))
  WorkerStep-less (waits s h k) v = absurd (true_not_false (sym v.told ∙ k))
  WorkerStep-less (resumes s p i r n rest h) v = absurd (true_not_false (sym v.told ∙ h))
  WorkerStep-less (finds_list s a h) v = absurd (some_not_none (sym h ∙ v.empty))
  WorkerStep-less (takes s a h) v = absurd (some_not_none (sym h ∙ v.empty))
  WorkerStep-less (acknowledges s n ret h) v =
      let p = acknowledged-positive (read_notification_zc n) ret h in omega arith
  WorkerStep-less (polls s h) v = omega arith
  WorkerStep-less x v = omega arith

  pub Alone-bounded :
      {n : ℕ} {s t : State} → Alone n s t → Stopping s → n + steps_left t ≤ steps_left s
  Alone-bounded rests v = omega arith
  Alone-bounded (moves x xs) v =
      let l = WorkerStep-less x v in
      let b = Alone-bounded xs (WorkerStep-Stopping x v) in omega arith
