-- ===== src/Sender/Worker.antt =====
-- src/senders/tcp_sender.cpp and src/senders/tcp_sender_zc.cpp: the steps of tcp_worker_function,
-- which the two files share but for the zero-copy send and the loop that waits for notifications.
-- The results of the system calls are those that the constructors allow. The counters are `int` in
-- the code, which holds them below 2 ^ 31.
use real_time_data_transfer.Base.{
  if◌then◌else◌, add64, ℕ, ◌+◌, ◌-◌, ◌≤◌, ◌<◌, ◌≡◌, ◌≢◌, Bool, true, false, ◌&&◌, none, some, [],
  ◌∷◌, ◌++◌,
}
use real_time_data_transfer.Packets.{
  DataPtrType, DataPacket, Packets, memory_location, file_descriptor, unknown_type,
}
use real_time_data_transfer.Sender.{
  ErrorCode, State, Transport, segment, cant_cpu_affinity, cant_socket_timeout, sending_error,
  not_supported_data_type, no_error, cant_socket_buffers, zc_poll_error, zc_recvmsg_error,
  zc_notification_error, worker_thread, starting, announcing, setting_affinity, setting_timeout,
  setting_send_buffer, setting_receive_buffer, checking, locking, looking, waiting, woken, taking,
  unlocking, next_packet, transmitting, transmitted, confirming, receiving, marking, failing,
  coding, releasing, flagging, ended,
}
use real_time_data_transfer.ZeroCopy.{Notification, read_notification_zc, acknowledged}

abbrev is_memory : DataPtrType → Bool
is_memory memory_location = true
is_memory file_descriptor = false
is_memory unknown_type = false

module _ (tr : Transport) where
  -- `sending_counter++` after a send with MSG_ZEROCOPY.
  abbrev pub counted : DataPacket → ℕ → ℕ
  counted p n = if tr.zero_copy && is_memory p.data_ptr_type then n + 1 else n

  pub data WorkerStep : State → State → Type 0 where
    starts :
        (s : State)
        → WorkerStep
            (record s { worker = starting })
            (record s {
              worker = announcing;
              shared = record s.shared { is_terminated_thread = false };
            })
    announces :
        (s : State)
        → WorkerStep
            (record s { worker = announcing })
            (record s {
              worker = setting_affinity;
              shared = record s.shared { thread_initialized = true };
            })
    affinity_set :
        (s : State)
        → WorkerStep
            (record s { worker = setting_affinity })
            (record s { worker = setting_timeout })
    affinity_fails :
        (s : State)
        → WorkerStep
            (record s { worker = setting_affinity })
            (record s { worker = failing false true cant_cpu_affinity })
    timeout_set :
        (s : State)
        → WorkerStep
            (record s { worker = setting_timeout })
            (record s { worker = setting_send_buffer })
    timeout_fails :
        (s : State)
        → WorkerStep
            (record s { worker = setting_timeout })
            (record s { worker = failing false true cant_socket_timeout })
    send_buffer_set :
        (s : State)
        → WorkerStep
            (record s { worker = setting_send_buffer })
            (record s { worker = setting_receive_buffer })
    send_buffer_fails :
        (s : State)
        → WorkerStep
            (record s { worker = setting_send_buffer })
            (record s { worker = failing false true cant_socket_buffers })
    receive_buffer_set :
        (s : State)
        → WorkerStep (record s { worker = setting_receive_buffer }) (record s { worker = checking })
    receive_buffer_fails :
        (s : State)
        → WorkerStep
            (record s { worker = setting_receive_buffer })
            (record s { worker = failing false true cant_socket_buffers })
    stops :
        (s : State)
        → s.shared.terminate_thread ≡ true
        → WorkerStep
            (record s { worker = checking })
            (record s { worker = failing false false no_error })
    goes_on :
        (s : State)
        → s.shared.terminate_thread ≡ false
        → WorkerStep (record s { worker = checking }) (record s { worker = locking })
    locks :
        (s : State)
        → s.shared.packets_mutex ≡ none
        → WorkerStep
            (record s { worker = locking })
            (record s {
              worker = looking;
              shared = record s.shared { packets_mutex = some worker_thread };
            })
    finds_list :
        (s : State) (a : ℕ)
        → s.shared.packets_list ≡ some a
        → WorkerStep (record s { worker = looking }) (record s { worker = taking })
    finds_end :
        (s : State)
        → s.shared.packets_list ≡ none
        → s.shared.terminate_thread ≡ true
        → WorkerStep
            (record s { worker = looking })
            (record s { worker = failing true false no_error })
    -- pthread_cond_wait releases the mutex, wakes up on a signal or without one, and locks again.
    waits :
        (s : State)
        → s.shared.packets_list ≡ none
        → s.shared.terminate_thread ≡ false
        → WorkerStep
            (record s { worker = looking })
            (record s { worker = waiting; shared = record s.shared { packets_mutex = none } })
    wakes_up :
        (s : State) → WorkerStep (record s { worker = waiting }) (record s { worker = woken })
    locks_again :
        (s : State)
        → s.shared.packets_mutex ≡ none
        → WorkerStep
            (record s { worker = woken })
            (record s {
              worker = looking;
              shared = record s.shared { packets_mutex = some worker_thread };
            })
    takes :
        (s : State) (a : ℕ)
        → s.shared.packets_list ≡ some a
        → WorkerStep
            (record s { worker = taking })
            (record s {
              worker = unlocking (s.lists a);
              shared = record s.shared { packets_list = none };
              taken = s.taken ++ s.lists a ∷ [];
            })
    unlocks :
        (s : State) (l : Packets)
        → WorkerStep
            (record s { worker = unlocking l })
            (record s { worker = next_packet l; shared = record s.shared { packets_mutex = none } })
    picks :
        (s : State) (p : DataPacket) (rest : Packets)
        → p.data_ptr_type ≢ unknown_type
        → WorkerStep
            (record s { worker = next_packet (p ∷ rest) })
            (record s { worker = transmitting p p.data_offset p.data_size rest })
    rejects :
        (s : State) (p : DataPacket) (rest : Packets)
        → p.data_ptr_type ≡ unknown_type
        → WorkerStep
            (record s { worker = next_packet (p ∷ rest) })
            (record s { worker = failing false true not_supported_data_type })
    -- send or sendfile accepts `n` bytes, none perhaps.
    transmits :
        (s : State) (p : DataPacket) (data_sent remaining_data n : ℕ) (rest : Packets)
        → remaining_data ≢ 0
        → n ≤ remaining_data
        → WorkerStep
            (record s { worker = transmitting p data_sent remaining_data rest })
            (record s {
              worker = transmitted p data_sent remaining_data n rest;
              wire = s.wire ++ segment tr p data_sent n;
              sending_counter = counted p s.sending_counter;
            })
    transmission_fails :
        (s : State) (p : DataPacket) (data_sent remaining_data : ℕ) (rest : Packets)
        → remaining_data ≢ 0
        → WorkerStep
            (record s { worker = transmitting p data_sent remaining_data rest })
            (record s {
              worker = failing false true sending_error;
              sending_counter = counted p s.sending_counter;
            })
    interrupted :
        (s : State) (p : DataPacket) (data_sent remaining_data n : ℕ) (rest : Packets)
        → s.shared.terminate_thread ≡ true
        → WorkerStep
            (record s { worker = transmitted p data_sent remaining_data n rest })
            (record s { worker = failing false false no_error })
    resumes :
        (s : State) (p : DataPacket) (data_sent remaining_data n : ℕ) (rest : Packets)
        → s.shared.terminate_thread ≡ false
        → WorkerStep
            (record s { worker = transmitted p data_sent remaining_data n rest })
            (record s { worker = transmitting p (add64 data_sent n) (remaining_data - n) rest })
    packet_sent :
        (s : State) (p : DataPacket) (data_sent : ℕ) (rest : Packets)
        → WorkerStep
            (record s { worker = transmitting p data_sent 0 rest })
            (record s { worker = next_packet rest })
    all_sent :
        (s : State)
        → tr.zero_copy ≡ false
        → WorkerStep (record s { worker = next_packet [] }) (record s { worker = marking })
    -- TCPSenderZC waits for the notifications of what it has sent: one round of its loop each.
    confirms :
        (s : State)
        → tr.zero_copy ≡ true
        → WorkerStep (record s { worker = next_packet [] }) (record s { worker = confirming })
    confirmed :
        (s : State)
        → s.sending_counter ≤ s.last_sending_counter
        → WorkerStep (record s { worker = confirming }) (record s { worker = marking })
    polls :
        (s : State)
        → s.last_sending_counter < s.sending_counter
        → WorkerStep (record s { worker = confirming }) (record s { worker = receiving })
    poll_fails :
        (s : State)
        → s.last_sending_counter < s.sending_counter
        → WorkerStep
            (record s { worker = confirming })
            (record s { worker = failing false true zc_poll_error })
    recvmsg_fails :
        (s : State)
        → WorkerStep
            (record s { worker = receiving })
            (record s { worker = failing false true zc_recvmsg_error })
    notification_fails :
        (s : State) (n : Notification)
        → acknowledged (read_notification_zc n) ≡ none
        → WorkerStep
            (record s { worker = receiving })
            (record s { worker = failing false true zc_notification_error })
    acknowledges :
        (s : State) (n : Notification) (ret : ℕ)
        → acknowledged (read_notification_zc n) ≡ some ret
        → WorkerStep
            (record s { worker = receiving })
            (record s { worker = confirming; last_sending_counter = s.last_sending_counter + ret })
    marks :
        (s : State)
        → WorkerStep
            (record s { worker = marking })
            (record s { worker = checking; shared = record s.shared { is_done = true } })
    flags_error :
        (s : State) (held error : Bool) (code : ErrorCode)
        → WorkerStep
            (record s { worker = failing held error code })
            (record s { worker = coding held code; shared = record s.shared { is_error = error } })
    stores_code :
        (s : State) (held : Bool) (code : ErrorCode)
        → WorkerStep
            (record s { worker = coding held code })
            (record s { worker = releasing held; shared = record s.shared { error_code = code } })
    releases :
        (s : State)
        → WorkerStep
            (record s { worker = releasing true })
            (record s { worker = flagging; shared = record s.shared { packets_mutex = none } })
    releases_nothing :
        (s : State)
        → WorkerStep (record s { worker = releasing false }) (record s { worker = flagging })
    flags_end :
        (s : State)
        → WorkerStep
            (record s { worker = flagging })
            (record s { worker = ended; shared = record s.shared { is_terminated_thread = true } })
