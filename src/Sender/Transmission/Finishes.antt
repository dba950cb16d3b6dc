-- ===== src/Sender/Transmission/Finishes.antt =====
-- src/senders/tcp_sender.cpp and tcp_sender_zc.cpp: a list that has been handed over is sent.
use real_time_data_transfer.Base.{
  ltb, ltb→lt, ltb→ge, Bool-cases, true_not_false, false_not_true, some_not_none, All, ℕ, zero, suc,
  ◌≤◌, ◌≡◌, refl, sym, ap, subst, ◌∙◌, ◌≢◌, ◌⊎◌, inl, inr, true, false, ◌||◌, Option, none, some,
  [], ◌∷◌, arith,
}
use real_time_data_transfer.Packets.{DataPacket, Packets, unknown_type}
use real_time_data_transfer.Sender.{
  WorkerPc, CallerPc, State, Transport, payloads, starting, announcing, setting_affinity,
  setting_timeout, setting_send_buffer, setting_receive_buffer, checking, locking, looking, waiting,
  woken, taking, unlocking, next_packet, transmitting, transmitted, confirming, receiving, marking,
  idle,
}
use real_time_data_transfer.Sender.Worker.{
  WorkerStep, starts, announces, affinity_set, timeout_set, send_buffer_set, receive_buffer_set,
  goes_on, locks, finds_list, locks_again, takes, unlocks, picks, transmits, resumes, packet_sent,
  all_sent, confirms, confirmed, polls, acknowledges, marks,
}
use real_time_data_transfer.Sender.Steps.{Reachable}
use real_time_data_transfer.Sender.Exclusion.{
  worker_locks, caller_locks, Owner, Reachable-Exclusive,
}
use real_time_data_transfer.Sender.Life.{unowned-none}
use real_time_data_transfer.Sender.Wakeup.{is_taking, is_asleep, will_signal, Reachable-Woken}
use real_time_data_transfer.Sender.Account.{Untaken}
use real_time_data_transfer.Sender.Delivery.{done-delivered}
use real_time_data_transfer.Sender.Calls.{WorkerStep-keeps}
use real_time_data_transfer.Sender.Transmission.{
  work_left, Succeeds, IsUnwoken, Sending, Underway, Sending-bounded, rests, sends,
}
use real_time_data_transfer.Sender.Transmission.Owed.{Owing, is_some, Reachable-Owing}
use real_time_data_transfer.ZeroCopy.{Notification, read_notification_zc, acknowledged}

-- A list without a packet that the worker rejects.
abbrev pub IsKnown : Packets → Type 0
IsKnown l = All (λ (p : DataPacket). p.data_ptr_type ≢ unknown_type) l

abbrev pub IsKnownAt : (ℕ → Packets) → Option ℕ → Type 0
IsKnownAt lists none = Unit
IsKnownAt lists (some a) = IsKnown (lists a)

-- The packets that the worker has copied and not picked.
abbrev pub unpicked : WorkerPc → Packets
unpicked pc = elim pc [
  | unlocking l ↦ l
  | next_packet l ↦ l
  | transmitting p sent remaining rest ↦ rest
  | transmitted p sent remaining n rest ↦ rest
  | _ ↦ []
]

pub record Known (s : State) : Type 0 where
  pub copied : IsKnown (unpicked s.worker)
  pub listed : IsKnownAt s.lists s.shared.packets_list

-- A notification of one send.
abbrev one_send : Notification
one_send = record {
  has_control = true;
  is_ip_level = true;
  is_recverr = true;
  is_zerocopy = true;
  ee_info = 0;
  ee_data = 0;
}

one_send-acknowledged : acknowledged (read_notification_zc one_send) ≡ some 1
unfolding acknowledged read_notification_zc
one_send-acknowledged = refl

some_of : (o : Option ℕ) → (is_some o || false) ≡ true → (a : ℕ) × (o ≡ some a)
some_of none e = absurd (false_not_true e)
some_of (some a) e = (a, refl)

unsignalled :
    (pc : CallerPc) → pc ≡ idle → (o : Option ℕ) → (o ≡ none) ⊎ (will_signal pc ≡ true) → o ≡ none
unsignalled pc e o (inl h) = h
unsignalled pc e o (inr h) = absurd (true_not_false (sym h ∙ ap will_signal e))

module _ (tr : Transport) where
  abbrev Moves : State → Type 0
  Moves s = (t : State) × (x : WorkerStep tr s t) × Succeeds tr x × IsUnwoken tr x

  -- The step that the worker can take, when it does not sleep with a list to send.
  next_success :
      (s : State) (pc : WorkerPc)
      → Owner (worker_locks pc) false s.shared.packets_mutex
      → Owing (record s { worker = pc })
      → Underway tr (record s { worker = pc })
      → (is_taking pc ≡ true → (a : ℕ) × (s.shared.packets_list ≡ some a))
      → (is_asleep pc ≡ true → s.shared.packets_list ≡ none)
      → IsKnown (unpicked pc)
      → Moves (record s { worker = pc })
  next_success s starting o w v k a n = (_, starts s, tt, tt)
  next_success s announcing o w v k a n = (_, announces s, tt, tt)
  next_success s setting_affinity o w v k a n = (_, affinity_set s, tt, tt)
  next_success s setting_timeout o w v k a n = (_, timeout_set s, tt, tt)
  next_success s setting_send_buffer o w v k a n = (_, send_buffer_set s, tt, tt)
  next_success s setting_receive_buffer o w v k a n = (_, receive_buffer_set s, tt, tt)
  next_success s checking o w v k a n = (_, goes_on s v.untold, tt, tt)
  next_success s locking o w v k a n = (_, locks s (unowned-none o), tt, tt)
  next_success s looking o w v k a n =
      let (l, e) = some_of s.shared.packets_list (w.owed v.undone v.untold refl) in
      (_, finds_list s l e, tt, tt)
  next_success s waiting o w v k a n =
      let (l, e) = some_of s.shared.packets_list (w.owed v.undone v.untold refl) in
      absurd (some_not_none (sym e ∙ a refl))
  next_success s woken o w v k a n = (_, locks_again s (unowned-none o), tt, tt)
  next_success s taking o w v k a n = let (l, e) = k refl in (_, takes s l e, tt, tt)
  next_success s (unlocking l) o w v k a n = (_, unlocks s l, tt, tt)
  next_success s (next_packet []) o w v k a n = elim (Bool-cases tr.zero_copy) [
    | inl e ↦ (_, confirms s e, tt, tt)
    | inr e ↦ (_, all_sent s e, tt, tt)
  ]
  next_success s (next_packet (p ∷ rest)) o w v k a n = (_, picks s p rest n.0, tt, tt)
  next_success s (transmitting p i zero rest) o w v k a n = (_, packet_sent s p i rest, tt, tt)
  next_success s (transmitting p i (suc r) rest) o w v k a n =
      (_, transmits s p i (suc r) 1 rest (omega arith) (omega arith), omega arith, tt)
  next_success s (transmitted p i r m rest) o w v k a n =
      (_, resumes s p i r m rest v.untold, tt, tt)
  next_success s confirming o w v k a n =
      elim (Bool-cases (ltb s.last_sending_counter s.sending_counter)) [
        | inl e ↦ (_, polls s (ltb→lt _ _ e), tt, tt)
        | inr e ↦ (_, confirmed s (ltb→ge _ _ e), tt, tt)
      ]
  next_success s receiving o w v k a n =
      (_, acknowledges s one_send 1 one_send-acknowledged, tt, tt)
  next_success s marking o w v k a n = (_, marks s, tt, tt)
  next_success s pc o w v k a n = absurd (true_not_false v.intact)

  WorkerStep-Known : {s t : State} → WorkerStep tr s t → Known s → Known t
  WorkerStep-Known (takes s a h) v = record {
    copied = subst (IsKnownAt s.lists) h v.listed;
    listed = tt;
  }
  WorkerStep-Known (unlocks s l) v = record { copied = v.copied; listed = v.listed }
  WorkerStep-Known (picks s p rest h) v = record { copied = v.copied.1; listed = v.listed }
  WorkerStep-Known (transmits s p i r n rest h k) v = record {
    copied = v.copied;
    listed = v.listed;
  }
  WorkerStep-Known (resumes s p i r n rest h) v = record { copied = v.copied; listed = v.listed }
  WorkerStep-Known (packet_sent s p i rest) v = record { copied = v.copied; listed = v.listed }
  WorkerStep-Known x v = record { copied = tt; listed = v.listed }

  Sending-keeps :
      {n : ℕ} {s t : State} → Sending tr n s t → Known s → Known t × (t.caller ≡ s.caller)
  Sending-keeps rests v = (v, refl)
  Sending-keeps (sends d x g xs) v =
      let (w, e) = Sending-keeps xs (WorkerStep-Known x v) in (w, e ∙ (WorkerStep-keeps tr x).0)

  -- A list that has been handed over is sent. From a reachable state between two calls in which
  -- is_done is false, with the worker up and not told to end, and no packet of an unknown type: as
  -- long as no call of the operating system fails and each send accepts at least one byte, the
  -- worker takes no more steps than `work_left` says before is_done is true; until then it does
  -- not sleep in pthread_cond_wait, and can always take one more, without the caller and without
  -- being woken up; and when is_done is true,
  -- the socket has been given all the bytes of all lists.
  pub transmission-finishes :
      {lists : ℕ → Packets} {n : ℕ} {s t : State}
      → Reachable tr Untaken lists s
      → s.caller ≡ idle
      → Underway tr s
      → Known s
      → Sending tr n s t
      → (n ≤ work_left s)
        × (((t.shared.is_done ≡ true) × (t.wire ≡ payloads tr t.handed))
            ⊎ ((u : State) × (x : WorkerStep tr t u) × Succeeds tr x × IsUnwoken tr x))
  transmission-finishes {t = t} r i v k xs =
      let (bound, r', w) = Sending-bounded tr Untaken xs r v in
      let (k', same) = Sending-keeps xs k in
      let woken = Reachable-Woken tr Untaken r' in
      let between : t.caller ≡ idle = same ∙ i in
      (
        bound,
        elim w [
          | inl d ↦ inl (d, done-delivered tr r' between d)
          | inr v' ↦ inr (
              next_success t t.worker
                (subst (λ c. Owner (worker_locks t.worker) (caller_locks c) t.shared.packets_mutex)
                  between (Reachable-Exclusive tr Untaken r'))
                (Reachable-Owing tr Untaken r') v' woken.has_list
                (λ e. unsignalled t.caller between t.shared.packets_list (woken.for_list e))
                k'.copied)
        ],
      )
