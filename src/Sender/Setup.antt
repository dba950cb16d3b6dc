-- ===== src/Sender/Setup.antt =====
-- src/senders/tcp_sender.cpp and src/senders/tcp_sender_zc.cpp: the constructors, initialize, and
-- the end of end_sender.
use real_time_data_transfer.Base.{
  ◌==◌, if◌then◌else◌, sprintf_d, ℕ, zero, suc, ◌+◌, String, text_append, Bool, true, false, not,
  Option, none, some,
}
use real_time_data_transfer.Sender.{SenderWorkerData, cant_cpu_affinity}
use real_time_data_transfer.Sender.Sockets.{Host, TcpSender, erring, create_server, get_client}
use real_time_data_transfer.Sender.Steps.{fresh}
use real_time_data_transfer.Errors.{new_error}

-- The constructor; the shared data has the values of its declaration.
abbrev pub tcp_sender : ℕ → TcpSender
tcp_sender port = record {
  zero_copy = false;
  port = port;
  server_sock_fd = none;
  client_sock_fd = none;
  shared_data = fresh none;
  error_handler = new_error "TCPSender";
  initialized = false;
}

abbrev pub tcp_sender_zc : ℕ → TcpSender
tcp_sender_zc port = record (tcp_sender port) {
  zero_copy = true;
  error_handler = new_error "TCPSenderZC";
}

module _ (h : Host) where
  open h use {
    World, shutdown, set_attribute, pthread_create, thread_initialized, milliseconds_sleep,
  }

  -- shutdown and close, when the descriptor is not -1.
  abbrev pub close_fd : Option ℕ → World → World
  close_fd none x = x
  close_fd (some fd) x = h.close fd (shutdown fd x)

  -- The end of end_sender, after the worker has ended.
  abbrev pub close_sockets : TcpSender → World → TcpSender × World
  close_sockets t x = (
    record t { server_sock_fd = none; client_sock_fd = none },
    close_fd t.client_sock_fd (close_fd t.server_sock_fd x),
  )

  -- The assignments of initialize; is_terminated_thread is left as it is.
  abbrev pub reset : SenderWorkerData → SenderWorkerData
  reset d = record d {
    packets_list = none;
    is_done = true;
    is_error = false;
    sock_fd = none;
    terminate_thread = false;
    thread_initialized = false;
    error_code = cant_cpu_affinity;
    packets_mutex = none;
  }

  -- The messages of the calls that set the attributes.
  abbrev pub attribute_message : ℕ → String
  attribute_message zero = "init pthread attributes failed"
  attribute_message (suc zero) = "pthread setstacksize failed"
  attribute_message (suc (suc zero)) = "pthread setschedpolicy failed"
  attribute_message (suc (suc (suc zero))) = "pthread setschedparam failed"
  attribute_message (suc (suc (suc (suc n)))) = "pthread setinheritsched failed"

  -- The calls from `call` on, `left` of them; the message of the first that fails.
  unfoldable pub set_attributes : ℕ → ℕ → World → Option String × World
  set_attributes zero call x = (none, x)
  set_attributes (suc left) call x =
      let (ret, x1) = set_attribute call x in
      let rest = set_attributes left (call + 1) x1 in
      if ret == 0 then rest else (some (attribute_message call), x1)

  -- `while(!shared_data_.thread_initialized)`; `none` when the fuel runs out.
  unfoldable pub await_thread : ℕ → World → Option World
  await_thread zero x = none
  await_thread (suc fuel) x =
      let (ready, x1) = thread_initialized x in
      let rest = await_thread fuel (milliseconds_sleep 5 x1) in if ready then some x1 else rest

  -- initialize from the attributes on.
  unfoldable pub start_thread : ℕ → TcpSender → World → Option (Bool × TcpSender × World)
  unfolding set_attributes await_thread
  start_thread fuel t x =
      let (failed, x1) = set_attributes 5 0 x in
      let (th_st, x2) = pthread_create x1 in
      elim failed [
        | some msg ↦ some (false, erring msg t, x1)
        | none ↦
            if th_st == 0
            then elim (await_thread fuel x2) [
              | none ↦ none
              | some x3 ↦ some (true, record t { initialized = true }, x3)
            ]
            else some (
              false,
              erring (text_append "pthread_create() return code: " (sprintf_d th_st)) t,
              x2,
            )
      ]

  -- initialize from the creation of the server on.
  unfoldable pub connect : ℕ → TcpSender → World → Option (Bool × TcpSender × World)
  unfolding create_server get_client start_thread
  connect fuel t2 x1 =
      let (served, t3, x2) = create_server h t2 x1 in
      let (met, t4, x3) = get_client h t3 x2 in
      let x4 = close_fd t4.server_sock_fd x3 in
      let t5 = record t4 {
        server_sock_fd = none;
        shared_data = record t4.shared_data { sock_fd = t4.client_sock_fd };
      } in
      if not served
      then some (false, t3, x2)
      else if not met
      then some (false, t4, x3)
      else start_thread fuel t5 x4

  -- initialize once the worker of the last time has ended, from the end of end_sender on.
  unfoldable pub initialize : ℕ → TcpSender → World → Option (Bool × TcpSender × World)
  unfolding connect
  initialize fuel t0 x0 =
      let (t1, x1) = close_sockets (record t0 { initialized = false }) x0 in
      connect fuel (record t1 { shared_data = reset t1.shared_data }) x1

  -- The initialize of TCPSenderZC.
  abbrev pub initialize_zc : ℕ → TcpSender → World → Option (Bool × TcpSender × World)
  initialize_zc fuel t x = initialize fuel (record t { zero_copy = true }) x
