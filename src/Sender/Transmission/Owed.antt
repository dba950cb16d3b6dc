-- ===== src/Sender/Transmission/Owed.antt =====
-- src/senders/tcp_sender.cpp and tcp_sender_zc.cpp: while is_done is false there is a list to send.
use real_time_data_transfer.Base.{
  true_not_false, ℕ, ◌≡◌, refl, sym, ap, ◌∙◌, Bool, true, false, ◌||◌, Option, none, some, arith,
}
use real_time_data_transfer.Packets.{Packets}
use real_time_data_transfer.Sender.{
  WorkerPc, State, Transport, waiting, failing, coding, releasing, flagging, ended, send_signalling,
  end_signalling,
}
use real_time_data_transfer.Sender.Worker.{WorkerStep, takes, marks}
use real_time_data_transfer.Sender.Caller.{
  signalled, CallerStep, fills, send_lowers, send_signals, terminates, clears, end_lowers,
  end_signals,
}
use real_time_data_transfer.Sender.Steps.{
  Reachable, worker_moves, caller_moves, writes, begins, then_step,
}
use real_time_data_transfer.Sender.Exclusion.{Exclusive, Reachable-Exclusive}
use real_time_data_transfer.Sender.Life.{Told, Reachable-Told}
use real_time_data_transfer.Sender.Queue.{is_busy, is_filled, signalled-busy, unfilled}

-- On its way out, by an error or on request, or gone.
abbrev pub is_broken : WorkerPc → Bool
is_broken pc = elim pc [
  | failing held e c ↦ true
  | coding held c ↦ true
  | releasing held ↦ true
  | flagging ↦ true
  | ended ↦ true
  | _ ↦ false
]

abbrev pub is_some : Option ℕ → Bool
is_some none = false
is_some (some a) = true

-- While the worker is up and not told to end, an is_done that is false stands for a list that is
-- waiting at packets_list, or that the worker has copied.
pub record Owing (s : State) : Type 0 where
  pub owed :
      s.shared.is_done ≡ false
      → s.shared.terminate_thread ≡ false
      → is_broken s.worker ≡ false
      → (is_some s.shared.packets_list || is_busy s.worker) ≡ true
  pub stored : is_filled s.caller ≡ true → is_some s.shared.packets_list ≡ true

signalled-broken : (pc : WorkerPc) → is_broken (signalled pc) ≡ is_broken pc
signalled-broken waiting = refl
signalled-broken pc = refl

or_true : (b : Bool) → (b || true) ≡ true
or_true true = refl
or_true false = refl

is_some_of : {o : Option ℕ} {a : ℕ} → o ≡ some a → is_some o ≡ true
is_some_of e = ap is_some e

module _ (tr : Transport) where
  WorkerStep-Owing : {s t : State} → WorkerStep tr s t → Exclusive s → Owing s → Owing t
  WorkerStep-Owing (takes s a h) o v = record {
    owed = λ d t b. refl;
    stored = λ f. absurd (unfilled {m = s.shared.packets_mutex} s.caller o f);
  }
  WorkerStep-Owing (marks s) o v = record { owed = λ d t b. cc; stored = v.stored }
  WorkerStep-Owing x o v = record { owed = λ d t b. ground (arith, v.owed d t); stored = v.stored }

  -- A signal wakes the worker up, and changes nothing of this.
  signalled-owed :
      (s : State)
      → Owing s
      → s.shared.is_done ≡ false
      → s.shared.terminate_thread ≡ false
      → is_broken (signalled s.worker) ≡ false
      → (is_some s.shared.packets_list || is_busy (signalled s.worker)) ≡ true
  signalled-owed s v d t b =
      ap (λ x. is_some s.shared.packets_list || x) (signalled-busy s.worker)
      ∙ v.owed d t (sym (signalled-broken s.worker) ∙ b)

  CallerStep-Owing : {s t : State} → CallerStep s t → Told s → Owing s → Owing t
  CallerStep-Owing (fills s a) k v = record { owed = λ d t b. refl; stored = λ f. refl }
  CallerStep-Owing (send_lowers s) k v = record {
    owed = λ d t b. rw (v.stored refl) refl;
    stored = λ f. cc;
  }
  CallerStep-Owing (end_lowers s) k v = record {
    owed = λ d t b. absurd (true_not_false (sym (k.asked refl) ∙ t));
    stored = λ f. cc;
  }
  CallerStep-Owing (clears s) k v = record {
    owed = λ d t b. absurd (true_not_false (sym (k.asked refl) ∙ t));
    stored = λ f. cc;
  }
  CallerStep-Owing (send_signals s) k v = record {
    owed = signalled-owed (record s { caller = send_signalling }) v;
    stored = λ f. cc;
  }
  CallerStep-Owing (end_signals s) k v = record {
    owed = signalled-owed (record s { caller = end_signalling }) v;
    stored = λ f. cc;
  }
  CallerStep-Owing (terminates s h) k v = record { owed = λ d t b. cc; stored = λ f. cc }
  CallerStep-Owing x k v = record { owed = v.owed; stored = λ f. cc }

  module _ (Writable : State → Type 0) where
    pub Reachable-Owing :
        {lists : ℕ → Packets} {s : State} → Reachable tr Writable lists s → Owing s
    Reachable-Owing (begins fd e0) = record { owed = λ d t b. cc; stored = λ f. cc }
    Reachable-Owing (then_step r (worker_moves x)) =
        WorkerStep-Owing x (Reachable-Exclusive tr Writable r) (Reachable-Owing r)
    Reachable-Owing (then_step r (caller_moves x)) =
        CallerStep-Owing x (Reachable-Told tr Writable r) (Reachable-Owing r)
    Reachable-Owing (then_step r (writes s a l h)) =
        let v = Reachable-Owing r in record { owed = v.owed; stored = v.stored }
