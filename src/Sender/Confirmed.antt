-- ===== src/Sender/Confirmed.antt =====
-- src/senders/tcp_sender_zc.cpp: is_done, against the sends that the kernel has acknowledged.
use real_time_data_transfer.Base.{true_not_false, ℕ, ◌≤◌, ◌≡◌, refl, Bool, true, false, arith}
use real_time_data_transfer.Packets.{DataPacket, Packets}
use real_time_data_transfer.Sender.{WorkerPc, State, Transport, waiting, marking}
use real_time_data_transfer.Sender.Worker.{
  counted, WorkerStep, transmits, transmission_fails, all_sent, confirmed, acknowledges, marks,
}
use real_time_data_transfer.Sender.Caller.{
  signalled, CallerStep, send_lowers, send_signals, end_lowers, end_signals,
}
use real_time_data_transfer.Sender.Steps.{
  Reachable, worker_moves, caller_moves, writes, begins, then_step,
}
use real_time_data_transfer.Sender.Queue.{Ordered, Reachable-Ordered}

-- The worker has sent all packets of its list.
abbrev is_marking : WorkerPc → Bool
is_marking pc = elim pc [ marking ↦ true | _ ↦ false ]

signalled-marking : (pc : WorkerPc) → is_marking (signalled pc) ≡ is_marking pc
signalled-marking waiting = refl
signalled-marking pc = refl

module _ (tr : Transport) where
  record Acknowledged (s : State) : Type 0 where
    uncounted : tr.zero_copy ≡ false → s.sending_counter ≡ 0
    ready_to_mark : is_marking s.worker ≡ true → s.sending_counter ≤ s.last_sending_counter
    all_done : s.shared.is_done ≡ true → s.sending_counter ≤ s.last_sending_counter

  counted_zero : (p : DataPacket) (n : ℕ) → tr.zero_copy ≡ false → n ≡ 0 → counted tr p n ≡ 0
  counted_zero p n e z = rw e z

  WorkerStep-Acknowledged :
      {s t : State} → WorkerStep tr s t → Ordered s → Acknowledged s → Acknowledged t
  WorkerStep-Acknowledged (transmits s p i r n rest h k) o v = record {
    uncounted = λ e. counted_zero p s.sending_counter e (v.uncounted e);
    ready_to_mark = λ e. cc;
    all_done = λ e. absurd (true_not_false (o.quiet e));
  }
  WorkerStep-Acknowledged (transmission_fails s p i r rest h) o v = record {
    uncounted = λ e. counted_zero p s.sending_counter e (v.uncounted e);
    ready_to_mark = λ e. cc;
    all_done = λ e. absurd (true_not_false (o.quiet e));
  }
  WorkerStep-Acknowledged (all_sent s h) o v = record {
    uncounted = v.uncounted;
    ready_to_mark = λ e. let z = v.uncounted h in omega arith;
    all_done = v.all_done;
  }
  WorkerStep-Acknowledged (confirmed s h) o v = record {
    uncounted = v.uncounted;
    ready_to_mark = λ e. h;
    all_done = v.all_done;
  }
  WorkerStep-Acknowledged (acknowledges s n ret h) o v = record {
    uncounted = v.uncounted;
    ready_to_mark = λ e. cc;
    all_done = λ e. let l = v.all_done e in omega arith;
  }
  WorkerStep-Acknowledged (marks s) o v = record {
    uncounted = v.uncounted;
    ready_to_mark = λ e. cc;
    all_done = λ e. v.ready_to_mark refl;
  }
  WorkerStep-Acknowledged x o v = record {
    uncounted = v.uncounted;
    ready_to_mark = λ e. cc;
    all_done = v.all_done;
  }

  CallerStep-Acknowledged : {s t : State} → CallerStep s t → Acknowledged s → Acknowledged t
  CallerStep-Acknowledged (send_lowers s) v = record {
    uncounted = v.uncounted;
    ready_to_mark = v.ready_to_mark;
    all_done = λ e. cc;
  }
  CallerStep-Acknowledged (end_lowers s) v = record {
    uncounted = v.uncounted;
    ready_to_mark = v.ready_to_mark;
    all_done = λ e. cc;
  }
  CallerStep-Acknowledged (send_signals s) v = record {
    uncounted = v.uncounted;
    ready_to_mark = rw (signalled-marking s.worker) v.ready_to_mark;
    all_done = v.all_done;
  }
  CallerStep-Acknowledged (end_signals s) v = record {
    uncounted = v.uncounted;
    ready_to_mark = rw (signalled-marking s.worker) v.ready_to_mark;
    all_done = v.all_done;
  }
  CallerStep-Acknowledged x v = record {
    uncounted = v.uncounted;
    ready_to_mark = v.ready_to_mark;
    all_done = v.all_done;
  }

  module _ (Writable : State → Type 0) where
    Reachable-Acknowledged :
        {lists : ℕ → Packets} {s : State} → Reachable tr Writable lists s → Acknowledged s
    Reachable-Acknowledged (begins fd e0) = record {
      uncounted = λ e. refl;
      ready_to_mark = λ e. cc;
      all_done = λ e. omega arith;
    }
    Reachable-Acknowledged (then_step r (worker_moves x)) =
        WorkerStep-Acknowledged x (Reachable-Ordered tr Writable r) (Reachable-Acknowledged r)
    Reachable-Acknowledged (then_step r (caller_moves x)) =
        CallerStep-Acknowledged x (Reachable-Acknowledged r)
    Reachable-Acknowledged (then_step r (writes s a l h)) =
        let v = Reachable-Acknowledged r in
        record { uncounted = v.uncounted; ready_to_mark = v.ready_to_mark; all_done = v.all_done }

    -- In every reachable state in which is_done is true, last_sending_counter, which adds up what
    -- the notifications that were read acknowledge, has reached sending_counter, which counts the
    -- zero-copy sends of the worker. Which sends the notifications were about is left open.
    pub done-acknowledged :
        {lists : ℕ → Packets} {s : State}
        → Reachable tr Writable lists s
        → s.shared.is_done ≡ true
        → s.sending_counter ≤ s.last_sending_counter
    done-acknowledged r = (Reachable-Acknowledged r).all_done
