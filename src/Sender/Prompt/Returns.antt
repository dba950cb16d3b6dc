-- ===== src/Sender/Prompt/Returns.antt =====
-- src/senders/tcp_sender.cpp and tcp_sender_zc.cpp: a call of send can go on, or waits for the
-- mutex.
use real_time_data_transfer.Base.{
  Bool-cases, Option-cases, false_not_true, ℕ, ◌≤◌, ◌≡◌, refl, ◌⊎◌, inl, inr, Bool, true, false,
  Option, some, arith,
}
use real_time_data_transfer.Packets.{Packets}
use real_time_data_transfer.Sender.{
  Thread, WorkerPc, CallerPc, State, Transport, worker_thread, looking, taking, unlocking, failing,
  coding, releasing, sending, checking_done, send_locking, filling, refusing, filled,
  send_signalling, send_unlocking,
}
use real_time_data_transfer.Sender.Worker.{
  WorkerStep, finds_list, finds_end, waits, takes, unlocks, flags_error, stores_code, releases,
}
use real_time_data_transfer.Sender.Caller.{
  CallerStep, finds_no_thread, refuses, finds_thread, send_declined, send_accepted, send_locks,
  fills, send_lowers, send_signals, send_unlocks, finds_end,
}
use real_time_data_transfer.Sender.Steps.{Reachable, worker_moves, caller_moves, then_step}
use real_time_data_transfer.Sender.Exclusion.{
  worker_locks, caller_locks, Owner, Reachable-Exclusive, by_worker,
}
use real_time_data_transfer.Sender.Life.{unowned-none}
use real_time_data_transfer.Sender.Wakeup.{is_taking, Reachable-Woken}
use real_time_data_transfer.Sender.Prompt.{
  stages_left, is_sending, holds_for, most_stages, most_holds, InSend, IsHeld, InSend-bounded,
  WorkerStep-soon, rests, works, goes,
}

owned-worker : {m : Option Thread} → Owner true false m → m ≡ some worker_thread
owned-worker by_worker = refl

module _ (tr : Transport) where
  -- A worker in its critical section can take a step.
  holder_moves :
      (s : State) (pc : WorkerPc)
      → worker_locks pc ≡ true
      → (is_taking pc ≡ true → (a : ℕ) × (s.shared.packets_list ≡ some a))
      → (t : State) × WorkerStep tr (record s { worker = pc }) t
  holder_moves s looking e k = elim (Option-cases s.shared.packets_list) [
    | inr (a, h) ↦ (_, finds_list s a h)
    | inl n ↦ elim (Bool-cases s.shared.terminate_thread) [
      | inl h ↦ (_, finds_end s n h)
      | inr h ↦ (_, waits s n h)
    ]
  ]
  holder_moves s taking e k = let (a, h) = k refl in (_, takes s a h)
  holder_moves s (unlocking l) e k = (_, unlocks s l)
  holder_moves s (failing held error code) e k = (_, flags_error s held error code)
  holder_moves s (coding held code) e k = (_, stores_code s held code)
  holder_moves s (releasing true) e k = (_, releases s)
  holder_moves s (releasing false) e k = absurd (false_not_true e)
  holder_moves s pc e k = absurd (false_not_true e)

  -- The next step of a call; only the lock can keep it waiting.
  sender_moves :
      (s : State) (held : Bool) (pc : CallerPc)
      → is_sending pc ≡ true
      → Owner held (caller_locks pc) s.shared.packets_mutex
      → ((t : State) × CallerStep (record s { caller = pc }) t)
        ⊎ ((held ≡ true) × (s.shared.packets_mutex ≡ some worker_thread))
  sender_moves s held (sending a) e o = elim (Bool-cases s.shared.is_terminated_thread) [
    | inl h ↦ inl (_, finds_no_thread s a h)
    | inr h ↦ inl (_, finds_thread s a h)
  ]
  sender_moves s held (checking_done a) e o = elim (Bool-cases s.shared.is_done) [
    | inl h ↦ inl (_, send_accepted s a h)
    | inr h ↦ inl (_, send_declined s a h)
  ]
  sender_moves s false (send_locking a) e o = inl (_, send_locks s a (unowned-none o))
  sender_moves s true (send_locking a) e o = inr (refl, owned-worker o)
  sender_moves s held (filling a) e o = inl (_, fills s a)
  sender_moves s held filled e o = inl (_, send_lowers s)
  sender_moves s held send_signalling e o = inl (_, send_signals s)
  sender_moves s held send_unlocking e o = inl (_, send_unlocks s)
  sender_moves s held refusing e o = inl (_, refuses s)
  sender_moves s held pc e o = absurd (false_not_true e)

  module _ (Writable : State → Type 0) {lists : ℕ → Packets} where
    InSend-Reachable :
        {n : ℕ} {s t : State}
        → InSend tr n s t
        → Reachable tr Writable lists s
        → Reachable tr Writable lists t
    InSend-Reachable rests r = r
    InSend-Reachable (works x xs) r = InSend-Reachable xs (then_step r (worker_moves x))
    InSend-Reachable (goes g x xs) r = InSend-Reachable xs (then_step r (caller_moves x))

    -- A call of send does not wait for a transmission. From a reachable state in a call of send,
    -- in any interleaving with the worker, the call takes at most 7 steps; and at any time it has
    -- returned, or can take its next step, or waits for packets_mutex, which the worker holds; then
    -- the worker can take a step, and each of its steps brings it nearer to giving the mutex back,
    -- which takes at most 4.
    pub send-returns :
        {n : ℕ} {s t : State}
        → Reachable tr Writable lists s
        → is_sending s.caller ≡ true
        → InSend tr n s t
        → (n ≤ stages_left s.caller)
          × (stages_left s.caller ≤ 7)
          × (holds_for t.worker ≤ 4)
          × ((is_sending t.caller ≡ false) ⊎ ((u : State) × CallerStep t u) ⊎ IsHeld tr t)
    send-returns {s = s} {t} r e xs =
        let r' = InSend-Reachable xs r in
        let b = InSend-bounded tr xs in
        (
          omega arith,
          most_stages s.caller,
          most_holds t.worker,
          elim (Bool-cases (is_sending t.caller)) [
            | inr h ↦ inl h
            | inl h ↦
                elim (sender_moves t (worker_locks t.worker) t.caller h
                  (Reachable-Exclusive tr Writable r')) [
                    | inl m ↦ inr (inl m)
                    | inr (held, locked) ↦ inr (
                        inr (record {
                          locked = locked;
                          moves =
                              holder_moves t t.worker held
                                (Reachable-Woken tr Writable r').has_list;
                          soon = λ u x. WorkerStep-soon tr x held;
                        }))
                  ]
          ],
        )
