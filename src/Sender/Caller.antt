-- ===== src/Sender/Caller.antt =====
-- src/senders/tcp_sender.cpp: the steps of the thread that calls initialize, send, end_sender and
-- get_error.
use real_time_data_transfer.Base.{
  if◌then◌else◌, ℕ, String, ◌≡◌, Bool, true, false, none, some, [], ◌∷◌, ◌++◌,
}
use real_time_data_transfer.Errors.{set_error, is_error, pull_error}
use real_time_data_transfer.Sender.{
  ErrorCode, WorkerPc, State, cant_cpu_affinity, cant_socket_timeout, sending_error,
  not_supported_data_type, no_error, cant_socket_buffers, zc_poll_error, zc_recvmsg_error,
  zc_notification_error, caller_thread, waiting, woken, initializing, idle, sending, checking_done,
  send_locking, filling, refusing, filled, send_signalling, send_unlocking, ending, end_locking,
  clearing, cleared, end_signalling, end_unlocking, polling, closing,
}

-- The `switch` of send. The worker of TCPSender gives none of the codes of TCPSenderZC.
abbrev pub code_message : ErrorCode → String
code_message cant_cpu_affinity = "Sender worker thread can't set CPU Affinity."
code_message cant_socket_timeout = "Sender worker thread can't set timeout on the socket."
code_message sending_error = "Sender worker thread, error while sending the data. "
code_message not_supported_data_type = "Sender worker thread can't send that type of packets."
code_message no_error = "Unknown error in sender worker thread."
code_message zc_poll_error = "Error during zero-copy transmission."
code_message zc_recvmsg_error = "Error during zero-copy transmission."
code_message zc_notification_error = "Error during zero-copy transmission."
code_message cant_socket_buffers = "Can't reserve the buffers needed for the socket."

-- The message of send when the worker has ended.
abbrev pub thread_message : Bool → ErrorCode → String
thread_message is_error code =
    if is_error then code_message code else "No Thread Available to execute the send operation"

-- pthread_cond_signal on the worker.
abbrev pub signalled : WorkerPc → WorkerPc
signalled pc = elim pc [ waiting ↦ woken | other ↦ other ]

-- A method that returns false with an error.
abbrev pub refused : String → State → State
refused msg s = record s {
  caller = idle;
  result = false;
  error_handler = set_error msg s.error_handler;
}

pub data CallerStep : State → State → Type 0 where
  -- The last loop of initialize.
  initialized :
      (s : State)
      → s.shared.thread_initialized ≡ true
      → CallerStep
          (record s { caller = initializing })
          (record s { caller = idle; initialized = true; result = true })
  send_uninitialized :
      (s : State)
      → s.initialized ≡ false
      → CallerStep
          (record s { caller = idle })
          (refused "You must initialize the sender object first" s)
  calls_send :
      (s : State) (list : ℕ)
      → s.initialized ≡ true
      → CallerStep (record s { caller = idle }) (record s { caller = sending list })
  finds_no_thread :
      (s : State) (list : ℕ)
      → s.shared.is_terminated_thread ≡ true
      → CallerStep (record s { caller = sending list }) (record s { caller = refusing })
  refuses :
      (s : State)
      → CallerStep
          (record s { caller = refusing })
          (refused (thread_message s.shared.is_error s.shared.error_code) s)
  finds_thread :
      (s : State) (list : ℕ)
      → s.shared.is_terminated_thread ≡ false
      → CallerStep (record s { caller = sending list }) (record s { caller = checking_done list })
  send_declined :
      (s : State) (list : ℕ)
      → s.shared.is_done ≡ false
      → CallerStep
          (record s { caller = checking_done list })
          (refused "system called send(DataPacketsList*) while on going send operation." s)
  send_accepted :
      (s : State) (list : ℕ)
      → s.shared.is_done ≡ true
      → CallerStep
          (record s { caller = checking_done list })
          (record s { caller = send_locking list })
  send_locks :
      (s : State) (list : ℕ)
      → s.shared.packets_mutex ≡ none
      → CallerStep
          (record s { caller = send_locking list })
          (record s {
            caller = filling list;
            shared = record s.shared { packets_mutex = some caller_thread };
          })
  fills :
      (s : State) (list : ℕ)
      → CallerStep
          (record s { caller = filling list })
          (record s {
            caller = filled;
            shared = record s.shared { packets_list = some list };
            handed = s.handed ++ s.lists list ∷ [];
          })
  send_lowers :
      (s : State)
      → CallerStep
          (record s { caller = filled })
          (record s { caller = send_signalling; shared = record s.shared { is_done = false } })
  send_signals :
      (s : State)
      → CallerStep
          (record s { caller = send_signalling })
          (record s { caller = send_unlocking; worker = signalled s.worker })
  send_unlocks :
      (s : State)
      → CallerStep
          (record s { caller = send_unlocking })
          (record s {
            caller = idle;
            result = true;
            shared = record s.shared { packets_mutex = none };
          })
  calls_end :
      (s : State)
      → CallerStep (record s { caller = idle }) (record s { caller = ending; initialized = false })
  already_ended :
      (s : State)
      → s.shared.is_terminated_thread ≡ true
      → CallerStep (record s { caller = ending }) (record s { caller = closing })
  terminates :
      (s : State)
      → s.shared.is_terminated_thread ≡ false
      → CallerStep
          (record s { caller = ending })
          (record s { caller = end_locking; shared = record s.shared { terminate_thread = true } })
  end_locks :
      (s : State)
      → s.shared.packets_mutex ≡ none
      → CallerStep
          (record s { caller = end_locking })
          (record s {
            caller = clearing;
            shared = record s.shared { packets_mutex = some caller_thread };
          })
  clears :
      (s : State)
      → CallerStep
          (record s { caller = clearing })
          (record s { caller = cleared; shared = record s.shared { packets_list = none } })
  end_lowers :
      (s : State)
      → CallerStep
          (record s { caller = cleared })
          (record s { caller = end_signalling; shared = record s.shared { is_done = false } })
  end_signals :
      (s : State)
      → CallerStep
          (record s { caller = end_signalling })
          (record s { caller = end_unlocking; worker = signalled s.worker })
  end_unlocks :
      (s : State)
      → CallerStep
          (record s { caller = end_unlocking })
          (record s { caller = polling; shared = record s.shared { packets_mutex = none } })
  finds_end :
      (s : State)
      → s.shared.is_terminated_thread ≡ true
      → CallerStep (record s { caller = polling }) (record s { caller = closing })
  closes :
      (s : State)
      → CallerStep (record s { caller = closing }) (record s { caller = idle; result = true })
  -- get_error.
  pulls_error :
      (s : State)
      → CallerStep
          (record s { caller = idle })
          (record s { caller = idle; error_handler = (pull_error s.error_handler).1 })
