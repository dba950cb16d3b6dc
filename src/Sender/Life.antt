-- ===== src/Sender/Life.antt =====
-- src/senders/tcp_sender.cpp: what thread_initialized, terminate_thread and is_terminated_thread
-- say of the worker.
use real_time_data_transfer.Base.{
  false_not_true, ℕ, ◌≡◌, refl, sym, subst, ◌∙◌, Bool, true, false, Option, none,
}
use real_time_data_transfer.Packets.{Packets}
use real_time_data_transfer.Sender.{
  Thread, WorkerPc, CallerPc, State, Transport, starting, announcing, waiting, ended, initializing,
  refusing, end_locking, clearing, cleared, end_signalling, end_unlocking, polling, closing,
}
use real_time_data_transfer.Sender.Worker.{WorkerStep, starts, announces, finds_end, flags_end}
use real_time_data_transfer.Sender.Caller.{
  signalled, CallerStep, initialized, finds_no_thread, send_signals, already_ended, terminates,
  end_signals, finds_end,
}
use real_time_data_transfer.Sender.Steps.{
  Reachable, worker_moves, caller_moves, writes, begins, then_step,
}
use real_time_data_transfer.Sender.Exclusion.{
  worker_locks, caller_locks, Owner, Reachable-Exclusive, unowned,
}

-- Not running: before its first assignment, or after its last.
abbrev pub is_over : WorkerPc → Bool
is_over pc = elim pc [ starting ↦ true | ended ↦ true | _ ↦ false ]

abbrev pub has_announced : WorkerPc → Bool
has_announced pc = elim pc [ starting ↦ false | announcing ↦ false | _ ↦ true ]

-- initialize has returned.
abbrev pub has_begun : CallerPc → Bool
has_begun pc = elim pc [ initializing ↦ false | _ ↦ true ]

-- The caller has seen is_terminated_thread.
abbrev pub has_seen_end : CallerPc → Bool
has_seen_end pc = elim pc [ refusing ↦ true | closing ↦ true | _ ↦ false ]

-- end_sender has asked the worker to stop.
abbrev pub has_asked : CallerPc → Bool
has_asked pc = elim pc [
  | end_locking ↦ true
  | clearing ↦ true
  | cleared ↦ true
  | end_signalling ↦ true
  | end_unlocking ↦ true
  | polling ↦ true
  | _ ↦ false
]

pub record Told (s : State) : Type 0 where
  pub terminated : s.shared.is_terminated_thread ≡ is_over s.worker
  pub announced : s.shared.thread_initialized ≡ has_announced s.worker
  pub begun : has_begun s.caller ≡ true → has_announced s.worker ≡ true
  pub seen : has_seen_end s.caller ≡ true → is_over s.worker ≡ true
  pub asked : has_asked s.caller ≡ true → s.shared.terminate_thread ≡ true

signalled-over : (pc : WorkerPc) → is_over (signalled pc) ≡ is_over pc
signalled-over waiting = refl
signalled-over pc = refl

signalled-announced : (pc : WorkerPc) → has_announced (signalled pc) ≡ has_announced pc
signalled-announced waiting = refl
signalled-announced pc = refl

pub over-ended : (pc : WorkerPc) → is_over pc ≡ true → has_announced pc ≡ true → pc ≡ ended
over-ended ended h k = refl
over-ended starting h k = cc
over-ended pc h k = cc

pub unowned-none : {m : Option Thread} → Owner false false m → m ≡ none
unowned-none unowned = refl

free :
    {m : Option Thread} (c : CallerPc) (w : WorkerPc)
    → has_seen_end c ≡ true
    → w ≡ ended
    → Owner (worker_locks w) (caller_locks c) m
    → m ≡ none
free {m = m} refusing w h e o = unowned-none (subst (λ pc. Owner (worker_locks pc) false m) e o)
free {m = m} closing w h e o = unowned-none (subst (λ pc. Owner (worker_locks pc) false m) e o)
free c w h e o = cc

seen-begun : (pc : CallerPc) → has_seen_end pc ≡ true → has_begun pc ≡ true
seen-begun initializing h = cc
seen-begun pc h = refl

module _ (tr : Transport) where
  WorkerStep-Told : {s t : State} → WorkerStep tr s t → Told s → Told t
  WorkerStep-Told (starts s) v = record {
    terminated = refl;
    announced = v.announced;
    begun = v.begun;
    seen = λ e. absurd (false_not_true (v.begun (seen-begun s.caller e)));
    asked = v.asked;
  }
  WorkerStep-Told (announces s) v = record {
    terminated = v.terminated;
    announced = refl;
    begun = λ e. refl;
    seen = v.seen;
    asked = v.asked;
  }
  WorkerStep-Told (flags_end s) v = record {
    terminated = refl;
    announced = v.announced;
    begun = v.begun;
    seen = λ e. refl;
    asked = v.asked;
  }
  WorkerStep-Told x v = record {
    terminated = v.terminated;
    announced = v.announced;
    begun = v.begun;
    seen = v.seen;
    asked = v.asked;
  }

  CallerStep-Told : {s t : State} → CallerStep s t → Told s → Told t
  CallerStep-Told (initialized s h) v = record {
    terminated = v.terminated;
    announced = v.announced;
    begun = λ e. sym v.announced ∙ h;
    seen = λ e. cc;
    asked = λ e. cc;
  }
  CallerStep-Told (send_signals s) v = record {
    terminated = rw (signalled-over s.worker) v.terminated;
    announced = rw (signalled-announced s.worker) v.announced;
    begun = rw (signalled-announced s.worker) v.begun;
    seen = λ e. cc;
    asked = λ e. cc;
  }
  CallerStep-Told (end_signals s) v = record {
    terminated = rw (signalled-over s.worker) v.terminated;
    announced = rw (signalled-announced s.worker) v.announced;
    begun = rw (signalled-announced s.worker) v.begun;
    seen = λ e. cc;
    asked = v.asked;
  }
  CallerStep-Told (finds_no_thread s a h) v = record {
    terminated = v.terminated;
    announced = v.announced;
    begun = v.begun;
    seen = λ e. sym v.terminated ∙ h;
    asked = λ e. cc;
  }
  CallerStep-Told (already_ended s h) v = record {
    terminated = v.terminated;
    announced = v.announced;
    begun = v.begun;
    seen = λ e. sym v.terminated ∙ h;
    asked = λ e. cc;
  }
  CallerStep-Told (finds_end s h) v = record {
    terminated = v.terminated;
    announced = v.announced;
    begun = v.begun;
    seen = λ e. sym v.terminated ∙ h;
    asked = λ e. cc;
  }
  CallerStep-Told (terminates s h) v = record {
    terminated = v.terminated;
    announced = v.announced;
    begun = v.begun;
    seen = λ e. cc;
    asked = λ e. refl;
  }
  CallerStep-Told x v = record {
    terminated = v.terminated;
    announced = v.announced;
    begun = v.begun;
    seen = λ e. cc;
    asked = v.asked;
  }

  module _ (Writable : State → Type 0) where
    pub Reachable-Told : {lists : ℕ → Packets} {s : State} → Reachable tr Writable lists s → Told s
    Reachable-Told (begins fd e0) = record {
      terminated = refl;
      announced = refl;
      begun = λ e. cc;
      seen = λ e. cc;
      asked = λ e. cc;
    }
    Reachable-Told (then_step r (worker_moves x)) = WorkerStep-Told x (Reachable-Told r)
    Reachable-Told (then_step r (caller_moves x)) = CallerStep-Told x (Reachable-Told r)
    Reachable-Told (then_step r (writes s a l h)) =
        let v = Reachable-Told r in
        record {
          terminated = v.terminated;
          announced = v.announced;
          begun = v.begun;
          seen = v.seen;
          asked = v.asked;
        }

    -- In every reachable state in which end_sender goes on to close the sockets, or send to report
    -- the worker's error, the worker has ended and nobody holds packets_mutex.
    pub Reachable-ended :
        {lists : ℕ → Packets} {s : State}
        → Reachable tr Writable lists s
        → has_seen_end s.caller ≡ true
        → (s.worker ≡ ended) × (s.shared.packets_mutex ≡ none)
    Reachable-ended {s = s} r h =
        let v = Reachable-Told r in
        let e = over-ended s.worker (v.seen h) (v.begun (seen-begun s.caller h)) in
        let o = Reachable-Exclusive tr Writable r in (e, free s.caller s.worker h e o)
