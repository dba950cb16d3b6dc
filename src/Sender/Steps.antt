-- ===== src/Sender/Steps.antt =====
-- src/senders/tcp_sender.cpp: the interleavings of a sender and its worker, from pthread_create on.
use real_time_data_transfer.Base.{◌==◌, if◌then◌else◌, ℕ, ◌≡◌, true, false, Option, none, some, []}
use real_time_data_transfer.Errors.{Error, pull_error}
use real_time_data_transfer.Packets.{DataPacket, Packets}
use real_time_data_transfer.Sender.{
  SenderWorkerData, CallerPc, State, Transport, cant_cpu_affinity, starting, initializing, idle,
}
use real_time_data_transfer.Sender.Worker.{WorkerStep}
use real_time_data_transfer.Sender.Caller.{CallerStep, pulls_error}

-- What initialize stores before it creates the thread; `error_code = 0` is the first code.
-- `is_terminated_thread` is still true, as the last end_sender has left it.
abbrev pub fresh : Option ℕ → SenderWorkerData
fresh sock_fd = record {
  packets_list = none;
  is_done = true;
  is_error = false;
  sock_fd = sock_fd;
  terminate_thread = false;
  thread_initialized = false;
  is_terminated_thread = true;
  error_code = cant_cpu_affinity;
  packets_mutex = none;
}

-- After pthread_create, with the error handler that the calls before have left.
abbrev pub created : ℕ → Error → (ℕ → Packets) → State
created sock_fd error_handler lists = record {
  shared = fresh (some sock_fd);
  worker = starting;
  caller = initializing;
  initialized = false;
  error_handler = error_handler;
  result = false;
  lists = lists;
  wire = [];
  sending_counter = 0;
  last_sending_counter = 0;
  handed = [];
  taken = [];
}

-- The worker of TCPSender.
abbrev pub TcpWorkerStep : (DataPacket → ℕ → ℕ) → State → State → Type 0
TcpWorkerStep byte_at = WorkerStep (record { zero_copy = false; byte_at = byte_at })

-- The worker of TCPSenderZC. The lines that its source shares with that of TCPSender, word for
-- word, are the same steps.
abbrev pub TcpZcWorkerStep : (DataPacket → ℕ → ℕ) → State → State → Type 0
TcpZcWorkerStep byte_at = WorkerStep (record { zero_copy = true; byte_at = byte_at })

-- The calls of TCPSenderZC, whose code is that of TCPSender.
abbrev pub TcpZcCallerStep : State → State → Type 0
TcpZcCallerStep = CallerStep

-- The caller's memory after a list has been assigned.
abbrev pub assigned : ℕ → Packets → (ℕ → Packets) → ℕ → Packets
assigned a list lists b = if b == a then list else lists b

-- `Writable` says when the application may assign to a list between its calls.
module _ (tr : Transport) (Writable : State → Type 0) where
  pub data Step : State → State → Type 0 where
    worker_moves : {s t : State} → WorkerStep tr s t → Step s t
    caller_moves : {s t : State} → CallerStep s t → Step s t
    writes :
        (s : State) (a : ℕ) (list : Packets)
        → Writable (record s { caller = idle })
        → Step
            (record s { caller = idle })
            (record s { caller = idle; lists = assigned a list s.lists })

  -- The states that an interleaving leads to.
  pub data Reachable (lists : ℕ → Packets) : State → Type 0 where
    begins :
        (sock_fd : ℕ) (error_handler : Error)
        → Reachable lists (created sock_fd error_handler lists)
    then_step : {s t : State} → Reachable lists s → Step s t → Reachable lists t

  -- A step of the application from a state between two calls, whose `caller` need not be spelled
  -- out.
  pub writes_between :
      {lists : ℕ → Packets} (s : State) (a : ℕ) (list : Packets) (pc : CallerPc)
      → pc ≡ idle
      → Writable (record s { caller = pc })
      → Reachable lists (record s { caller = pc })
      → Reachable lists (record s { caller = pc; lists = assigned a list s.lists })
  writes_between s a list idle e w r = then_step r (writes s a list w)
  writes_between s a list pc e w r = cc

  pub pulls_between :
      {lists : ℕ → Packets} (s : State) (pc : CallerPc)
      → pc ≡ idle
      → Reachable lists (record s { caller = pc })
      → Reachable lists (record s { caller = pc; error_handler = (pull_error s.error_handler).1 })
  pulls_between s idle e r = then_step r (caller_moves (pulls_error s))
  pulls_between s pc e r = cc
