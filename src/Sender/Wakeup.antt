-- ===== src/Sender/Wakeup.antt =====
-- src/senders/tcp_sender.cpp: the condition variable, and the pointer that the worker follows.
use real_time_data_transfer.Base.{
  ℕ, ◌≡◌, refl, ap, subst, ◌⊎◌, inl, inr, Bool, true, false, Option, none, some,
}
use real_time_data_transfer.Packets.{Packets}
use real_time_data_transfer.Sender.{
  Thread, WorkerPc, CallerPc, State, Transport, waiting, taking, filled, send_signalling,
  end_locking, clearing, cleared, end_signalling,
}
use real_time_data_transfer.Sender.Worker.{WorkerStep, finds_list, waits}
use real_time_data_transfer.Sender.Caller.{
  signalled, CallerStep, fills, send_signals, terminates, clears, end_signals,
}
use real_time_data_transfer.Sender.Steps.{
  Reachable, worker_moves, caller_moves, writes, begins, then_step,
}
use real_time_data_transfer.Sender.Exclusion.{worker_locks, Owner, Exclusive, Reachable-Exclusive}

-- In pthread_cond_wait, and not woken up.
abbrev pub is_asleep : WorkerPc → Bool
is_asleep pc = elim pc [ waiting ↦ true | _ ↦ false ]

-- About to follow the pointer.
abbrev pub is_taking : WorkerPc → Bool
is_taking pc = elim pc [ taking ↦ true | _ ↦ false ]

-- send has stored the list and has its signal still to give.
abbrev pub will_signal : CallerPc → Bool
will_signal pc = elim pc [ filled ↦ true | send_signalling ↦ true | _ ↦ false ]

-- end_sender has set terminate_thread and has its signal still to give.
abbrev pub will_wake : CallerPc → Bool
will_wake pc = elim pc [
  | end_locking ↦ true
  | clearing ↦ true
  | cleared ↦ true
  | end_signalling ↦ true
  | _ ↦ false
]

pub record Woken (s : State) : Type 0 where
  pub for_list :
      is_asleep s.worker ≡ true → (s.shared.packets_list ≡ none) ⊎ (will_signal s.caller ≡ true)
  pub for_end :
      is_asleep s.worker ≡ true → (s.shared.terminate_thread ≡ false) ⊎ (will_wake s.caller ≡ true)
  pub has_list : is_taking s.worker ≡ true → (a : ℕ) × (s.shared.packets_list ≡ some a)

signalled-awake : (pc : WorkerPc) → is_asleep (signalled pc) ≡ false
signalled-awake waiting = refl
signalled-awake pc = refl

signalled-taking : (pc : WorkerPc) → is_taking (signalled pc) ≡ is_taking pc
signalled-taking waiting = refl
signalled-taking pc = refl

taking-locks : (pc : WorkerPc) → is_taking pc ≡ true → worker_locks pc ≡ true
taking-locks taking h = refl
taking-locks pc h = cc

not_both : {m : Option Thread} → Owner true true m → ⊥
not_both o = elim o [ ]

module _ (tr : Transport) where
  WorkerStep-Woken : {s t : State} → WorkerStep tr s t → Woken s → Woken t
  WorkerStep-Woken (waits s h k) v = record {
    for_list = λ e. inl h;
    for_end = λ e. inl k;
    has_list = λ e. cc;
  }
  WorkerStep-Woken (finds_list s a h) v = record {
    for_list = λ e. cc;
    for_end = λ e. cc;
    has_list = λ e. (a, h);
  }
  WorkerStep-Woken x v = record { for_list = λ e. cc; for_end = λ e. cc; has_list = λ e. cc }

  CallerStep-Woken : {s t : State} → CallerStep s t → Exclusive s → Woken s → Woken t
  CallerStep-Woken (fills s a) o v = record {
    for_list = λ e. inr refl;
    for_end = v.for_end;
    has_list = λ e. (a, refl);
  }
  CallerStep-Woken (send_signals s) o v = record {
    for_list = rw (signalled-awake s.worker) (λ e. cc);
    for_end = rw (signalled-awake s.worker) (λ e. cc);
    has_list = rw (signalled-taking s.worker) v.has_list;
  }
  CallerStep-Woken (end_signals s) o v = record {
    for_list = rw (signalled-awake s.worker) (λ e. cc);
    for_end = rw (signalled-awake s.worker) (λ e. cc);
    has_list = rw (signalled-taking s.worker) v.has_list;
  }
  CallerStep-Woken (terminates s h) o v = record {
    for_list = v.for_list;
    for_end = λ e. inr refl;
    has_list = v.has_list;
  }
  CallerStep-Woken (clears s) o v = record {
    for_list = λ e. inl refl;
    for_end = v.for_end;
    has_list = λ e. absurd (
        not_both {m = s.shared.packets_mutex}
          (subst (λ b. Owner b true s.shared.packets_mutex) (taking-locks s.worker e) o));
  }
  CallerStep-Woken x o v = record {
    for_list = v.for_list;
    for_end = v.for_end;
    has_list = v.has_list;
  }

  module _ (Writable : State → Type 0) where
    pub Reachable-Woken :
        {lists : ℕ → Packets} {s : State} → Reachable tr Writable lists s → Woken s
    Reachable-Woken (begins fd e0) = record {
      for_list = λ e. inl refl;
      for_end = λ e. inl refl;
      has_list = λ e. cc;
    }
    Reachable-Woken (then_step r (worker_moves x)) = WorkerStep-Woken x (Reachable-Woken r)
    Reachable-Woken (then_step r (caller_moves x)) =
        CallerStep-Woken x (Reachable-Exclusive tr Writable r) (Reachable-Woken r)
    Reachable-Woken (then_step r (writes s a l h)) =
        let v = Reachable-Woken r in
        record { for_list = v.for_list; for_end = v.for_end; has_list = v.has_list }

    -- No signal is lost. In every reachable state in which the worker sleeps in pthread_cond_wait
    -- there is no list to send, or send is still to signal; and the worker has not been asked to
    -- end, or end_sender is still to signal.
    pub waiting-IsWoken :
        {lists : ℕ → Packets} {s : State}
        → Reachable tr Writable lists s
        → s.worker ≡ waiting
        → ((s.shared.packets_list ≡ none) ⊎ (will_signal s.caller ≡ true))
          × ((s.shared.terminate_thread ≡ false) ⊎ (will_wake s.caller ≡ true))
    waiting-IsWoken {s = s} r e =
        let v = Reachable-Woken r in (v.for_list (ap is_asleep e), v.for_end (ap is_asleep e))

    -- The worker never follows a NULL packets_list: in every reachable state in which it is about
    -- to copy the list, the pointer is the address of one.
    pub taking-not_null :
        {lists : ℕ → Packets} {s : State}
        → Reachable tr Writable lists s
        → s.worker ≡ taking
        → (a : ℕ) × (s.shared.packets_list ≡ some a)
    taking-not_null r e = (Reachable-Woken r).has_list (ap is_taking e)
