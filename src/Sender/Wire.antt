-- ===== src/Sender/Wire.antt =====
-- src/senders/tcp_sender.cpp: what the socket has been given, against the lists that the worker has
-- copied.
use real_time_data_transfer.Base.{
  true_not_false, add64, ℕ, ◌-◌, ◌≤◌, ◌≡◌, refl, sym, ap, ◌∙◌, Bool, true, false, List, [], ◌∷◌,
  ◌++◌, append-nil, append_assoc, arith,
}
use real_time_data_transfer.Packets.{DataPacket, Packets}
use real_time_data_transfer.Sender.{
  WorkerPc, State, Transport, segment, payload, payloads, waiting, unlocking, next_packet,
  transmitting, transmitted, failing, coding, releasing, flagging, ended,
}
use real_time_data_transfer.Sender.Worker.{
  WorkerStep, affinity_fails, timeout_fails, send_buffer_fails, receive_buffer_fails, stops,
  finds_end, takes, rejects, transmits, transmission_fails, interrupted, poll_fails, recvmsg_fails,
  notification_fails, marks,
}
use real_time_data_transfer.Sender.Caller.{
  signalled, CallerStep, send_lowers, send_signals, end_lowers, end_signals, finds_end,
}
use real_time_data_transfer.Sender.Steps.{
  Reachable, worker_moves, caller_moves, writes, begins, then_step,
}
use real_time_data_transfer.Sender.Queue.{Ordered, Reachable-Ordered}
use real_time_data_transfer.Sender.Bytes.{segment-split, payloads-append, payloads-singleton}

-- In END_THREAD_ERROR, or past it.
abbrev pub is_failing : WorkerPc → Bool
is_failing pc = elim pc [
  | failing held e c ↦ true
  | coding held c ↦ true
  | releasing held ↦ true
  | flagging ↦ true
  | ended ↦ true
  | _ ↦ false
]

signalled-failing : (pc : WorkerPc) → is_failing (signalled pc) ≡ is_failing pc
signalled-failing waiting = refl
signalled-failing pc = refl

module _ (tr : Transport) where
  -- The bytes of the worker's copy that the socket has still to be given.
  abbrev pub unsent : WorkerPc → List ℕ
  unsent pc = elim pc [
    | unlocking l ↦ payload tr l
    | next_packet l ↦ payload tr l
    | transmitting p sent remaining rest ↦ segment tr p sent remaining ++ payload tr rest
    | transmitted p sent remaining n rest ↦
        segment tr p (add64 sent n) (remaining - n) ++ payload tr rest
    | _ ↦ []
  ]

  signalled-unsent : (pc : WorkerPc) → unsent (signalled pc) ≡ unsent pc
  signalled-unsent waiting = refl
  signalled-unsent pc = refl

  pub record Wired (s : State) : Type 0 where
    pub complete : is_failing s.worker ≡ false → s.wire ++ unsent s.worker ≡ payloads tr s.taken
    pub settled : s.shared.is_done ≡ true → s.wire ≡ payloads tr s.taken
    pub partial : (missing : List ℕ) × (s.wire ++ missing ≡ payloads tr s.taken)

  -- The bytes after a list has been copied, and after some have been accepted.
  taken_complete :
      (s : State) (l : Packets)
      → s.wire ++ [] ≡ payloads tr s.taken
      → s.wire ++ payload tr l ≡ payloads tr (s.taken ++ l ∷ [])
  taken_complete s l e =
      ap (λ z. z ++ payload tr l) (sym (append-nil s.wire) ∙ e)
      ∙ ap (λ z. payloads tr s.taken ++ z) (sym (payloads-singleton tr l))
      ∙ sym (payloads-append tr s.taken (l ∷ []))

  transmitted_complete :
      (s : State) (p : DataPacket) (i r n : ℕ) (rest : Packets)
      → n ≤ r
      → s.wire ++ (segment tr p i r ++ payload tr rest) ≡ payloads tr s.taken
      → s.wire ++ segment tr p i n ++ (segment tr p (add64 i n) (r - n) ++ payload tr rest)
        ≡ payloads tr s.taken
  transmitted_complete s p i r n rest h e =
      append_assoc s.wire (segment tr p i n) (segment tr p (add64 i n) (r - n) ++ payload tr rest)
      ∙ ap (λ z. s.wire ++ z)
          (sym
              (append_assoc (segment tr p i n) (segment tr p (add64 i n) (r - n)) (payload tr rest))
            ∙ ap (λ z. z ++ payload tr rest) (sym (segment-split tr p i n (r - n) r (omega arith))))
      ∙ e

  WorkerStep-Wired : {s t : State} → WorkerStep tr s t → Ordered s → Ordered t → Wired s → Wired t
  unfolding segment payload
  WorkerStep-Wired (takes s a h) v u w =
      let c = taken_complete s (s.lists a) (w.complete refl) in
      record {
        complete = λ e. c;
        settled = λ e. absurd (true_not_false (u.quiet e));
        partial = (payload tr (s.lists a), c);
      }
  WorkerStep-Wired (transmits s p i r n rest h k) v u w =
      let c = transmitted_complete s p i r n rest k (w.complete refl) in
      record {
        complete = λ e. c;
        settled = λ e. absurd (true_not_false (u.quiet e));
        partial = (segment tr p (add64 i n) (r - n) ++ payload tr rest, c);
      }
  WorkerStep-Wired (marks s) v u w = record {
    complete = w.complete;
    settled = λ e. sym (append-nil s.wire) ∙ w.complete refl;
    partial = w.partial;
  }
  WorkerStep-Wired (affinity_fails s) v u w = record {
    complete = λ e. cc;
    settled = w.settled;
    partial = w.partial;
  }
  WorkerStep-Wired (timeout_fails s) v u w = record {
    complete = λ e. cc;
    settled = w.settled;
    partial = w.partial;
  }
  WorkerStep-Wired (send_buffer_fails s) v u w = record {
    complete = λ e. cc;
    settled = w.settled;
    partial = w.partial;
  }
  WorkerStep-Wired (receive_buffer_fails s) v u w = record {
    complete = λ e. cc;
    settled = w.settled;
    partial = w.partial;
  }
  WorkerStep-Wired (stops s h) v u w = record {
    complete = λ e. cc;
    settled = w.settled;
    partial = w.partial;
  }
  WorkerStep-Wired (finds_end s h k) v u w = record {
    complete = λ e. cc;
    settled = w.settled;
    partial = w.partial;
  }
  WorkerStep-Wired (rejects s p rest h) v u w = record {
    complete = λ e. cc;
    settled = w.settled;
    partial = w.partial;
  }
  WorkerStep-Wired (transmission_fails s p i r rest h) v u w = record {
    complete = λ e. cc;
    settled = w.settled;
    partial = w.partial;
  }
  WorkerStep-Wired (interrupted s p i r n rest h) v u w = record {
    complete = λ e. cc;
    settled = w.settled;
    partial = w.partial;
  }
  WorkerStep-Wired (poll_fails s h) v u w = record {
    complete = λ e. cc;
    settled = w.settled;
    partial = w.partial;
  }
  WorkerStep-Wired (recvmsg_fails s) v u w = record {
    complete = λ e. cc;
    settled = w.settled;
    partial = w.partial;
  }
  WorkerStep-Wired (notification_fails s n h) v u w = record {
    complete = λ e. cc;
    settled = w.settled;
    partial = w.partial;
  }
  WorkerStep-Wired x v u w = record {
    complete = w.complete;
    settled = w.settled;
    partial = w.partial;
  }

  CallerStep-Wired : {s t : State} → CallerStep s t → Wired s → Wired t
  CallerStep-Wired (send_lowers s) w = record {
    complete = w.complete;
    settled = λ e. cc;
    partial = w.partial;
  }
  CallerStep-Wired (end_lowers s) w = record {
    complete = w.complete;
    settled = λ e. cc;
    partial = w.partial;
  }
  CallerStep-Wired (send_signals s) w = record {
    complete = rw (signalled-failing s.worker, signalled-unsent s.worker) w.complete;
    settled = w.settled;
    partial = w.partial;
  }
  CallerStep-Wired (end_signals s) w = record {
    complete = rw (signalled-failing s.worker, signalled-unsent s.worker) w.complete;
    settled = w.settled;
    partial = w.partial;
  }
  CallerStep-Wired x w = record { complete = w.complete; settled = w.settled; partial = w.partial }

  module _ (Writable : State → Type 0) where
    pub Reachable-Wired :
        {lists : ℕ → Packets} {s : State} → Reachable tr Writable lists s → Wired s
    unfolding payloads
    Reachable-Wired (begins fd e0) = record {
      complete = λ e. refl;
      settled = λ e. refl;
      partial = ([], refl);
    }
    Reachable-Wired (then_step r (worker_moves x)) =
        WorkerStep-Wired x (Reachable-Ordered tr Writable r)
          (Reachable-Ordered tr Writable (then_step r (worker_moves x))) (Reachable-Wired r)
    Reachable-Wired (then_step r (caller_moves x)) = CallerStep-Wired x (Reachable-Wired r)
    Reachable-Wired (then_step r (writes s a l h)) =
        let w = Reachable-Wired r in
        record { complete = w.complete; settled = w.settled; partial = w.partial }
