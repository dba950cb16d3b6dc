-- ===== src/Sender/Progress.antt =====
-- src/senders/tcp_sender.cpp: a worker that is told to end can go on until it has ended.
use real_time_data_transfer.Base.{
  ltb, ltb→lt, ltb→ge, Bool-cases, true_not_false, some_not_none, ℕ, zero, suc, ◌≡◌, refl, sym, ◌∙◌,
  ◌≢◌, ◌⊎◌, inl, inr, true, false, some, [], ◌∷◌, arith,
}
use real_time_data_transfer.Packets.{DataPtrType, memory_location, file_descriptor, unknown_type}
use real_time_data_transfer.Sender.{
  WorkerPc, State, Transport, starting, announcing, setting_affinity, setting_timeout,
  setting_send_buffer, setting_receive_buffer, checking, locking, looking, waiting, woken, taking,
  unlocking, next_packet, transmitting, transmitted, confirming, receiving, marking, failing,
  coding, releasing, flagging, ended,
}
use real_time_data_transfer.Sender.Worker.{
  WorkerStep, starts, announces, affinity_set, timeout_set, send_buffer_set, receive_buffer_set,
  stops, locks, finds_end, locks_again, unlocks, picks, rejects, transmits, interrupted,
  packet_sent, all_sent, confirms, confirmed, poll_fails, recvmsg_fails, marks, flags_error,
  stores_code, releases, releases_nothing, flags_end,
}
use real_time_data_transfer.Sender.Caller.{finds_end}
use real_time_data_transfer.Sender.Exclusion.{worker_locks, Owner}
use real_time_data_transfer.Sender.Life.{unowned-none}
use real_time_data_transfer.Sender.Wakeup.{is_asleep, is_taking}
use real_time_data_transfer.Sender.Ending.{Stopping}

DataPtrType-cases : (d : DataPtrType) → (d ≡ unknown_type) ⊎ (d ≢ unknown_type)
DataPtrType-cases unknown_type = inl refl
DataPtrType-cases memory_location = inr (λ h. cc)
DataPtrType-cases file_descriptor = inr (λ h. cc)

module _ (tr : Transport) where
  -- A step that the worker can take by itself, without being woken up.
  pub next_step :
      (s : State) (pc : WorkerPc)
      → Owner (worker_locks pc) false s.shared.packets_mutex
      → Stopping tr (record s { worker = pc })
      → is_asleep pc ≡ false
      → (is_taking pc ≡ true → (a : ℕ) × (s.shared.packets_list ≡ some a))
      → (pc ≡ ended) ⊎ ((t : State) × WorkerStep tr (record s { worker = pc }) t)
  next_step s starting o v h k = inr (_, starts s)
  next_step s announcing o v h k = inr (_, announces s)
  next_step s setting_affinity o v h k = inr (_, affinity_set s)
  next_step s setting_timeout o v h k = inr (_, timeout_set s)
  next_step s setting_send_buffer o v h k = inr (_, send_buffer_set s)
  next_step s setting_receive_buffer o v h k = inr (_, receive_buffer_set s)
  next_step s checking o v h k = inr (_, stops s v.told)
  next_step s locking o v h k = inr (_, locks s (unowned-none o))
  next_step s looking o v h k = inr (_, finds_end s v.empty v.told)
  next_step s waiting o v h k = absurd (true_not_false h)
  next_step s woken o v h k = inr (_, locks_again s (unowned-none o))
  next_step s taking o v h k = absurd (some_not_none (sym (k refl).1 ∙ v.empty))
  next_step s (unlocking l) o v h k = inr (_, unlocks s l)
  next_step s (next_packet []) o v h k = elim (Bool-cases tr.zero_copy) [
    | inl e ↦ inr (_, confirms s e)
    | inr e ↦ inr (_, all_sent s e)
  ]
  next_step s (next_packet (p ∷ rest)) o v h k = elim (DataPtrType-cases p.data_ptr_type) [
    | inl e ↦ inr (_, rejects s p rest e)
    | inr e ↦ inr (_, picks s p rest e)
  ]
  next_step s (transmitting p i zero rest) o v h k = inr (_, packet_sent s p i rest)
  next_step s (transmitting p i (suc r) rest) o v h k =
      inr (_, transmits s p i (suc r) 0 rest (omega arith) (omega arith))
  next_step s (transmitted p i r n rest) o v h k = inr (_, interrupted s p i r n rest v.told)
  next_step s confirming o v h k =
      elim (Bool-cases (ltb s.last_sending_counter s.sending_counter)) [
        | inl e ↦ inr (_, poll_fails s (ltb→lt _ _ e))
        | inr e ↦ inr (_, confirmed s (ltb→ge _ _ e))
      ]
  next_step s receiving o v h k = inr (_, recvmsg_fails s)
  next_step s marking o v h k = inr (_, marks s)
  next_step s (failing held e c) o v h k = inr (_, flags_error s held e c)
  next_step s (coding held c) o v h k = inr (_, stores_code s held c)
  next_step s (releasing true) o v h k = inr (_, releases s)
  next_step s (releasing false) o v h k = inr (_, releases_nothing s)
  next_step s flagging o v h k = inr (_, flags_end s)
  next_step s ended o v h k = inl refl
