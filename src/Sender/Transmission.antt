-- ===== src/Sender/Transmission.antt =====
-- src/senders/tcp_sender.cpp and tcp_sender_zc.cpp: the transmission of a list while the calls of
-- the operating system succeed, and how many steps of the worker it takes.
pub mod Owed
pub mod Finishes
use real_time_data_transfer.Base.{
  true_not_false, false_not_true, ℕ, suc, ◌+◌, ◌-◌, ◌*◌, ◌≤◌, ◌<◌, ◌≡◌, refl, sym, ap, subst, ◌∙◌,
  ◌⊎◌, inl, inr, true, false, ◌||◌, Option, none, some, [], ◌∷◌, arith,
}
use real_time_data_transfer.Packets.{DataPacket, Packets}
use real_time_data_transfer.Sender.{
  WorkerPc, State, Transport, starting, announcing, setting_affinity, setting_timeout,
  setting_send_buffer, setting_receive_buffer, checking, locking, looking, waiting, woken, taking,
  unlocking, next_packet, transmitting, transmitted, confirming, receiving, marking, failing,
  coding, releasing, flagging, ended,
}
use real_time_data_transfer.Sender.Worker.{
  counted, WorkerStep, affinity_fails, timeout_fails, send_buffer_fails, receive_buffer_fails,
  stops, finds_end, waits, wakes_up, takes, rejects, transmits, transmission_fails, interrupted,
  polls, poll_fails, recvmsg_fails, notification_fails, acknowledges, marks, flags_error,
  stores_code, releases, releases_nothing, flags_end,
}
use real_time_data_transfer.Sender.Queue.{is_busy}
use real_time_data_transfer.ZeroCopy.{read_notification_zc}
use real_time_data_transfer.ZeroCopy.Acknowledged.{acknowledged-positive}
use real_time_data_transfer.Sender.Steps.{Reachable, worker_moves, then_step}
use Owed.{Owing, is_broken, is_some, Reachable-Owing}

-- The steps for the packets of a list: to pick one and to leave it, and for each of its bytes at
-- most a send, what follows it, and two for its notification.
abbrev pub cost : Packets → ℕ
cost [] = 0
cost (p ∷ rest) = 2 + 4 * p.data_size + cost rest

abbrev pub cost_at : (ℕ → Packets) → Option ℕ → ℕ
cost_at lists none = 0
cost_at lists (some a) = cost (lists a)

-- The steps that are left at most until is_done is true, when `unacked` sends are not acknowledged
-- and the list at packets_list takes `listed` steps.
abbrev pub work_from : ℕ → ℕ → WorkerPc → ℕ
work_from unacked listed pc = elim pc [
  | starting ↦ 14 + 2 * unacked + listed
  | announcing ↦ 13 + 2 * unacked + listed
  | setting_affinity ↦ 12 + 2 * unacked + listed
  | setting_timeout ↦ 11 + 2 * unacked + listed
  | setting_send_buffer ↦ 10 + 2 * unacked + listed
  | setting_receive_buffer ↦ 9 + 2 * unacked + listed
  | checking ↦ 8 + 2 * unacked + listed
  | locking ↦ 7 + 2 * unacked + listed
  | looking ↦ 6 + 2 * unacked + listed
  | waiting ↦ 8 + 2 * unacked + listed
  | woken ↦ 7 + 2 * unacked + listed
  | taking ↦ 5 + 2 * unacked + listed
  | unlocking l ↦ 4 + 2 * unacked + cost l
  | next_packet l ↦ 3 + 2 * unacked + cost l
  | transmitting p sent remaining rest ↦ 4 + 2 * unacked + 4 * remaining + cost rest
  | transmitted p sent remaining n rest ↦ 5 + 2 * unacked + 4 * (remaining - n) + cost rest
  | confirming ↦ 2 + 2 * unacked
  | receiving ↦ 3 + 2 * (unacked - 1)
  | marking ↦ 1
  | failing held e c ↦ 0
  | coding held c ↦ 0
  | releasing held ↦ 0
  | flagging ↦ 0
  | ended ↦ 0
]

abbrev pub work_left : State → ℕ
work_left s =
    work_from (s.sending_counter - s.last_sending_counter) (cost_at s.lists s.shared.packets_list)
      s.worker

module _ (tr : Transport) where
  -- No call fails, and a send or sendfile accepts one byte at least.
  abbrev pub Succeeds : {s t : State} → WorkerStep tr s t → Type 0
  Succeeds (affinity_fails s) = ⊥
  Succeeds (timeout_fails s) = ⊥
  Succeeds (send_buffer_fails s) = ⊥
  Succeeds (receive_buffer_fails s) = ⊥
  Succeeds (rejects s p rest h) = ⊥
  Succeeds (transmits s p sent remaining n rest h k) = 0 < n
  Succeeds (transmission_fails s p sent remaining rest h) = ⊥
  Succeeds (poll_fails s h) = ⊥
  Succeeds (recvmsg_fails s) = ⊥
  Succeeds (notification_fails s n h) = ⊥
  Succeeds x = Unit

  -- A step that the worker takes by itself, not woken up from pthread_cond_wait.
  abbrev pub IsUnwoken : {s t : State} → WorkerStep tr s t → Type 0
  IsUnwoken (wakes_up s) = ⊥
  IsUnwoken x = Unit

  -- `n` steps of the worker alone that succeed, each while is_done is false.
  pub data Sending : ℕ → State → State → Type 0 where
    rests : {s : State} → Sending 0 s s
    sends :
        {n : ℕ} {s t u : State}
        → s.shared.is_done ≡ false
        → (x : WorkerStep tr s t) → Succeeds x
        → Sending n t u
        → Sending (suc n) s u

  -- A list is on its way: is_done is false, and the worker is up and not told to end.
  pub record Underway (s : State) : Type 0 where
    pub undone : s.shared.is_done ≡ false
    pub untold : s.shared.terminate_thread ≡ false
    pub intact : is_broken s.worker ≡ false

  counted-le : (p : DataPacket) (n : ℕ) → counted tr p n ≤ n + 1
  counted-le p n = ground arith

  WorkerStep-less :
      {s t : State} (x : WorkerStep tr s t)
      → Succeeds x
      → Owing s
      → Underway s
      → ((t.shared.is_done ≡ true) × (0 < work_left s)) ⊎ ((work_left t < work_left s) × Underway t)
  WorkerStep-less (marks s) g o v = inl (refl, omega arith)
  WorkerStep-less (waits s h k) g o v =
      absurd (false_not_true (sym (ap (λ l. is_some l || false) h) ∙ o.owed v.undone v.untold refl))
  WorkerStep-less (stops s h) g o v = absurd (true_not_false (sym h ∙ v.untold))
  WorkerStep-less (finds_end s h k) g o v = absurd (true_not_false (sym k ∙ v.untold))
  WorkerStep-less (interrupted s p i r n rest h) g o v = absurd (true_not_false (sym h ∙ v.untold))
  WorkerStep-less (takes s a h) g o v =
      let same : cost_at s.lists s.shared.packets_list ≡ cost (s.lists a) =
        ap (cost_at s.lists) h in
      inr (omega (arith, same), record { undone = v.undone; untold = v.untold; intact = refl })
  WorkerStep-less (transmits s p i r n rest h k) g o v =
      let less = counted-le p s.sending_counter in
      inr (omega (arith, g), record { undone = v.undone; untold = v.untold; intact = refl })
  WorkerStep-less (acknowledges s n ret h) g o v =
      let positive = acknowledged-positive (read_notification_zc n) ret h in
      inr (omega (arith, positive), record { undone = v.undone; untold = v.untold; intact = refl })
  WorkerStep-less (affinity_fails s) g o v = absurd g
  WorkerStep-less (timeout_fails s) g o v = absurd g
  WorkerStep-less (send_buffer_fails s) g o v = absurd g
  WorkerStep-less (receive_buffer_fails s) g o v = absurd g
  WorkerStep-less (rejects s p rest h) g o v = absurd g
  WorkerStep-less (transmission_fails s p i r rest h) g o v = absurd g
  WorkerStep-less (poll_fails s h) g o v = absurd g
  WorkerStep-less (recvmsg_fails s) g o v = absurd g
  WorkerStep-less (notification_fails s n h) g o v = absurd g
  WorkerStep-less (flags_error s a b c) g o v = absurd (true_not_false v.intact)
  WorkerStep-less (stores_code s a b) g o v = absurd (true_not_false v.intact)
  WorkerStep-less (releases s) g o v = absurd (true_not_false v.intact)
  WorkerStep-less (releases_nothing s) g o v = absurd (true_not_false v.intact)
  WorkerStep-less (flags_end s) g o v = absurd (true_not_false v.intact)
  WorkerStep-less (polls s h) g o v =
      inr (omega (arith, h), record { undone = v.undone; untold = v.untold; intact = refl })
  WorkerStep-less x g o v =
      inr (omega arith, record { undone = v.undone; untold = v.untold; intact = refl })

  Sending-over : {n : ℕ} {s t : State} → Sending n s t → s.shared.is_done ≡ true → (n ≡ 0) × (s ≡ t)
  Sending-over rests d = (refl, refl)
  Sending-over (sends u x g xs) d = absurd (true_not_false (sym d ∙ u))

  module _ (Writable : State → Type 0) {lists : ℕ → Packets} where
    -- There are no more steps than `work_left` says.
    pub Sending-bounded :
        {n : ℕ} {s t : State}
        → Sending n s t
        → Reachable tr Writable lists s
        → Underway s
        → (n ≤ work_left s)
          × Reachable tr Writable lists t
          × ((t.shared.is_done ≡ true) ⊎ Underway t)
    Sending-bounded rests r v = (omega arith, r, inr v)
    Sending-bounded {t = t} (sends {n = n} {t = u} d x g xs) r v =
        elim (WorkerStep-less x g (Reachable-Owing tr Writable r) v) [
          | inl (e, pos) ↦
              let (none_left, same) = Sending-over xs e in
              (
                omega arith,
                subst (Reachable tr Writable lists) same (then_step r (worker_moves x)),
                inl (subst (λ (z : State). z.shared.is_done ≡ true) same e),
              )
          | inr (less, v') ↦
              let (bound, r', w) = Sending-bounded xs (then_step r (worker_moves x)) v' in
              (omega arith, r', w)
        ]
