-- ===== src/Sender/Polling.antt =====
-- src/senders/tcp_sender.cpp: the loop of end_sender that waits for the worker's end.
use real_time_data_transfer.Base.{
  Bool-cases, true_not_false, false_not_true, ℕ, ◌≤◌, ◌≡◌, refl, sym, ap, subst, ◌∙◌, ◌≢◌, ◌⊎◌, inl,
  inr, Bool, true, false, none, arith,
}
use real_time_data_transfer.Packets.{Packets}
use real_time_data_transfer.Sender.{
  CallerPc, State, Transport, waiting, ended, cleared, end_signalling, end_unlocking, polling,
}
use real_time_data_transfer.Sender.Worker.{WorkerStep, takes}
use real_time_data_transfer.Sender.Caller.{CallerStep, clears, end_lowers, end_signals, end_unlocks}
use real_time_data_transfer.Sender.Steps.{
  Reachable, worker_moves, caller_moves, writes, begins, then_step,
}
use real_time_data_transfer.Sender.Exclusion.{
  worker_locks, caller_locks, Owner, Reachable-Exclusive,
}
use real_time_data_transfer.Sender.Life.{has_asked, Reachable-Told}
use real_time_data_transfer.Sender.Wakeup.{is_asleep, will_wake, Reachable-Woken}
use real_time_data_transfer.Sender.Ending.{steps_left, Alone, Stopping, Alone-bounded}
use real_time_data_transfer.Sender.Progress.{next_step}
use real_time_data_transfer.Sender.Calls.{Alone-keeps, Alone-Reachable}

-- end_sender has stored NULL, and not returned.
abbrev has_cleared : CallerPc → Bool
has_cleared pc = elim pc [
  | cleared ↦ true
  | end_signalling ↦ true
  | end_unlocking ↦ true
  | polling ↦ true
  | _ ↦ false
]

module _ (tr : Transport) where
  CallerStep-Emptied :
      {s t : State}
      → CallerStep s t
      → (has_cleared s.caller ≡ true → s.shared.packets_list ≡ none)
      → has_cleared t.caller ≡ true
      → t.shared.packets_list ≡ none
  CallerStep-Emptied (clears s) v e = refl
  CallerStep-Emptied (end_lowers s) v e = v refl
  CallerStep-Emptied (end_signals s) v e = v refl
  CallerStep-Emptied (end_unlocks s) v e = v refl
  CallerStep-Emptied x v e = absurd (false_not_true e)

  WorkerStep-Emptied :
      {s t : State}
      → WorkerStep tr s t
      → (has_cleared s.caller ≡ true → s.shared.packets_list ≡ none)
      → has_cleared t.caller ≡ true
      → t.shared.packets_list ≡ none
  WorkerStep-Emptied (takes s a h) v e = refl
  WorkerStep-Emptied x v e = v e

  module _ (Writable : State → Type 0) where
    Reachable-Emptied :
        {lists : ℕ → Packets} {s : State}
        → Reachable tr Writable lists s
        → has_cleared s.caller ≡ true
        → s.shared.packets_list ≡ none
    Reachable-Emptied (begins fd e0) e = refl
    Reachable-Emptied (then_step r (worker_moves x)) e =
        WorkerStep-Emptied x (Reachable-Emptied r) e
    Reachable-Emptied (then_step r (caller_moves x)) e =
        CallerStep-Emptied x (Reachable-Emptied r) e
    Reachable-Emptied (then_step r (writes s a l h)) e = Reachable-Emptied r e

    polling-Stopping :
        {lists : ℕ → Packets} {s : State}
        → Reachable tr Writable lists s
        → s.caller ≡ polling
        → Stopping tr s
    polling-Stopping r e = record {
      told = (Reachable-Told tr Writable r).asked (ap has_asked e);
      empty = Reachable-Emptied r (ap has_cleared e);
    }

    -- In a reachable state in which end_sender polls, the worker does not sleep in
    -- pthread_cond_wait, and it has ended or can take a step.
    polling-moves :
        {lists : ℕ → Packets} {s : State}
        → Reachable tr Writable lists s
        → s.caller ≡ polling
        → (s.worker ≢ waiting) × ((s.worker ≡ ended) ⊎ ((t : State) × WorkerStep tr s t))
    polling-moves {s = s} r e =
        let v = polling-Stopping r e in
        let k = Reachable-Woken tr Writable r in
        let awake : is_asleep s.worker ≡ false = (elim (Bool-cases (is_asleep s.worker)) [
          | inr h ↦ h
          | inl h ↦ absurd (elim (k.for_end h) [
            | inl f ↦ true_not_false (sym v.told ∙ f)
            | inr f ↦ false_not_true (sym (ap will_wake e) ∙ f)
          ])
        ]) in
        (
          λ h. true_not_false (sym (ap is_asleep h) ∙ awake),
          next_step tr s s.worker
              (subst (λ c. Owner (worker_locks s.worker) (caller_locks c) s.shared.packets_mutex) e
                (Reachable-Exclusive tr Writable r))
              v awake k.has_list,
        )

    -- The loop of end_sender that waits for the worker ends. From a reachable state in which
    -- end_sender polls is_terminated_thread, whatever steps the worker takes, there are no more of
    -- them than `steps_left` says; and after any of them the worker has ended or can take one more,
    -- for which it need not be woken up.
    pub end_sender-terminates :
        {lists : ℕ → Packets} {n : ℕ} {s t : State}
        → Reachable tr Writable lists s
        → s.caller ≡ polling
        → Alone tr n s t
        → (n ≤ steps_left s)
          × (t.worker ≢ waiting)
          × ((t.worker ≡ ended) ⊎ ((u : State) × WorkerStep tr t u))
    end_sender-terminates r e xs =
        let b = Alone-bounded tr xs (polling-Stopping r e) in
        let m = polling-moves (Alone-Reachable tr Writable xs r) ((Alone-keeps tr xs).0 ∙ e) in
        (omega arith, m.0, m.1)
