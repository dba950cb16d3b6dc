-- ===== src/Sender/Queue.antt =====
-- src/senders/tcp_sender.cpp: packets_list and is_done, and the lists that pass through them.
use real_time_data_transfer.Base.{
  true_not_false, some_not_none, ℕ, ◌≡◌, refl, sym, ◌∙◌, ◌⊎◌, inl, inr, Bool, true, false, Option,
  none, some, List, [], ◌∷◌,
}
use real_time_data_transfer.Packets.{Packets}
use real_time_data_transfer.Sender.{
  Thread, WorkerPc, CallerPc, State, Transport, waiting, unlocking, next_packet, transmitting,
  transmitted, confirming, receiving, marking, send_locking, filling, filled,
}
use real_time_data_transfer.Sender.Worker.{
  WorkerStep, takes, unlocks, picks, transmits, resumes, packet_sent, all_sent, confirms, confirmed,
  polls, acknowledges, marks,
}
use real_time_data_transfer.Sender.Caller.{
  signalled, CallerStep, send_accepted, send_locks, fills, send_lowers, send_signals, clears,
  end_lowers, end_signals,
}
use real_time_data_transfer.Sender.Steps.{
  Reachable, worker_moves, caller_moves, writes, begins, then_step,
}
use real_time_data_transfer.Sender.Exclusion.{caller_locks, Owner, Exclusive, Reachable-Exclusive}

-- The worker has a copy of a list that it has not finished.
abbrev pub is_busy : WorkerPc → Bool
is_busy pc = elim pc [
  | unlocking l ↦ true
  | next_packet l ↦ true
  | transmitting p sent remaining rest ↦ true
  | transmitted p sent remaining n rest ↦ true
  | confirming ↦ true
  | receiving ↦ true
  | marking ↦ true
  | _ ↦ false
]

-- send has stored its list, and is_done is still true.
abbrev pub is_filled : CallerPc → Bool
is_filled pc = elim pc [ filled ↦ true | _ ↦ false ]

-- send has found is_done true, and goes on to clear it.
abbrev pub may_fill : CallerPc → Bool
may_fill pc = elim pc [ send_locking a ↦ true | filling a ↦ true | filled ↦ true | _ ↦ false ]

-- The list at packets_list.
abbrev pub pending : (ℕ → Packets) → Option ℕ → List Packets
pending lists none = []
pending lists (some a) = lists a ∷ []

pub record Ordered (s : State) : Type 0 where
  pub quiet : s.shared.is_done ≡ true → is_busy s.worker ≡ false
  pub listed :
      s.shared.is_done ≡ true → (s.shared.packets_list ≡ none) ⊎ (is_filled s.caller ≡ true)
  pub alone : is_busy s.worker ≡ true → s.shared.packets_list ≡ none
  pub ready : may_fill s.caller ≡ true → s.shared.is_done ≡ true

pub signalled-busy : (pc : WorkerPc) → is_busy (signalled pc) ≡ is_busy pc
signalled-busy waiting = refl
signalled-busy pc = refl

-- The worker that holds the mutex does not meet a caller in the middle of send.
pub unfilled :
    {m : Option Thread} (c : CallerPc) → Owner true (caller_locks c) m → is_filled c ≡ true → ⊥
unfilled filled o h = elim o [ ]
unfilled c o h = cc

module _ (tr : Transport) where
  pub WorkerStep-Ordered : {s t : State} → WorkerStep tr s t → Exclusive s → Ordered s → Ordered t
  WorkerStep-Ordered (takes s a h) o v = record {
    quiet = λ e. absurd (elim (v.listed e) [
      | inl n ↦ some_not_none (sym h ∙ n)
      | inr f ↦ unfilled {m = s.shared.packets_mutex} s.caller o f
    ]);
    listed = λ e. inl refl;
    alone = λ e. refl;
    ready = v.ready;
  }
  WorkerStep-Ordered (marks s) o v = record {
    quiet = λ e. refl;
    listed = λ e. inl (v.alone refl);
    alone = λ e. cc;
    ready = λ e. refl;
  }
  WorkerStep-Ordered (unlocks s l) o v = record {
    quiet = v.quiet;
    listed = v.listed;
    alone = v.alone;
    ready = v.ready;
  }
  WorkerStep-Ordered (picks s p rest h) o v = record {
    quiet = v.quiet;
    listed = v.listed;
    alone = v.alone;
    ready = v.ready;
  }
  WorkerStep-Ordered (transmits s p i r n rest h k) o v = record {
    quiet = v.quiet;
    listed = v.listed;
    alone = v.alone;
    ready = v.ready;
  }
  WorkerStep-Ordered (resumes s p i r n rest h) o v = record {
    quiet = v.quiet;
    listed = v.listed;
    alone = v.alone;
    ready = v.ready;
  }
  WorkerStep-Ordered (packet_sent s p i rest) o v = record {
    quiet = v.quiet;
    listed = v.listed;
    alone = v.alone;
    ready = v.ready;
  }
  WorkerStep-Ordered (all_sent s h) o v = record {
    quiet = v.quiet;
    listed = v.listed;
    alone = v.alone;
    ready = v.ready;
  }
  WorkerStep-Ordered (confirms s h) o v = record {
    quiet = v.quiet;
    listed = v.listed;
    alone = v.alone;
    ready = v.ready;
  }
  WorkerStep-Ordered (confirmed s h) o v = record {
    quiet = v.quiet;
    listed = v.listed;
    alone = v.alone;
    ready = v.ready;
  }
  WorkerStep-Ordered (polls s h) o v = record {
    quiet = v.quiet;
    listed = v.listed;
    alone = v.alone;
    ready = v.ready;
  }
  WorkerStep-Ordered (acknowledges s n ret h) o v = record {
    quiet = v.quiet;
    listed = v.listed;
    alone = v.alone;
    ready = v.ready;
  }
  WorkerStep-Ordered x o v = record {
    quiet = λ e. refl;
    listed = v.listed;
    alone = λ e. cc;
    ready = v.ready;
  }

pub CallerStep-Ordered : {s t : State} → CallerStep s t → Ordered s → Ordered t
CallerStep-Ordered (send_accepted s a h) v = record {
  quiet = v.quiet;
  listed = v.listed;
  alone = v.alone;
  ready = λ e. h;
}
CallerStep-Ordered (send_locks s a h) v = record {
  quiet = v.quiet;
  listed = v.listed;
  alone = v.alone;
  ready = v.ready;
}
CallerStep-Ordered (fills s a) v = record {
  quiet = v.quiet;
  listed = λ e. inr refl;
  alone = λ e. absurd (true_not_false (sym e ∙ v.quiet (v.ready refl)));
  ready = v.ready;
}
CallerStep-Ordered (send_lowers s) v = record {
  quiet = λ e. cc;
  listed = λ e. cc;
  alone = v.alone;
  ready = λ e. cc;
}
CallerStep-Ordered (end_lowers s) v = record {
  quiet = λ e. cc;
  listed = λ e. cc;
  alone = v.alone;
  ready = λ e. cc;
}
CallerStep-Ordered (clears s) v = record {
  quiet = v.quiet;
  listed = λ e. inl refl;
  alone = λ e. refl;
  ready = λ e. cc;
}
CallerStep-Ordered (send_signals s) v = record {
  quiet = rw (signalled-busy s.worker) v.quiet;
  listed = v.listed;
  alone = rw (signalled-busy s.worker) v.alone;
  ready = λ e. cc;
}
CallerStep-Ordered (end_signals s) v = record {
  quiet = rw (signalled-busy s.worker) v.quiet;
  listed = v.listed;
  alone = rw (signalled-busy s.worker) v.alone;
  ready = λ e. cc;
}
CallerStep-Ordered x v = record {
  quiet = v.quiet;
  listed = v.listed;
  alone = v.alone;
  ready = λ e. cc;
}

module _ (tr : Transport) (Writable : State → Type 0) where
  pub Reachable-Ordered :
      {lists : ℕ → Packets} {s : State} → Reachable tr Writable lists s → Ordered s
  Reachable-Ordered (begins fd e0) = record {
    quiet = λ e. refl;
    listed = λ e. inl refl;
    alone = λ e. cc;
    ready = λ e. cc;
  }
  Reachable-Ordered (then_step r (worker_moves x)) =
      WorkerStep-Ordered tr x (Reachable-Exclusive tr Writable r) (Reachable-Ordered r)
  Reachable-Ordered (then_step r (caller_moves x)) = CallerStep-Ordered x (Reachable-Ordered r)
  Reachable-Ordered (then_step r (writes s a l h)) =
      let v = Reachable-Ordered r in
      record { quiet = v.quiet; listed = v.listed; alone = v.alone; ready = v.ready }
