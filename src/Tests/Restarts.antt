-- ===== src/Tests/Restarts.antt =====
-- src/senders/tcp_sender.cpp: an object that is initialised twice.
use real_time_data_transfer.Base.{ℕ, ◌≡◌, refl, inr, true, false, some, [], ◌∷◌}
use real_time_data_transfer.Sender.Sockets.{Host, TcpSender}
use real_time_data_transfer.Sender.Setup.{tcp_sender, initialize}
use real_time_data_transfer.Sender.Steps.{fresh, created}
use real_time_data_transfer.Sender.Account.{Untaken}
use real_time_data_transfer.Sender.Lifetimes.{constructed, lived, initialize-created}
use real_time_data_transfer.Tests.Sending.{lists, bytes}
use real_time_data_transfer.Sender.Objects
use real_time_data_transfer.Tests.Stopping.{stopped, stopped-Reachable}

-- All calls succeed, the server's descriptor is 3 and the client's 4.
abbrev pub plain_host : Host
plain_host = record {
  World = Unit {0};
  Address = ℕ;
  getaddrinfo = λ p x. (inr (1 ∷ []), x);
  freeaddrinfo = λ x. x;
  socket = λ a x. (some 3, x);
  set_reuse_address = λ s x. (true, x);
  set_zero_copy = λ s x. (true, x);
  bind = λ s a x. (true, x);
  listen = λ s x. (true, x);
  ignore_sigpipe = λ x. x;
  accept = λ s x. (some 4, x);
  shutdown = λ s x. x;
  close = λ s x. x;
  set_attribute = λ n x. (0, x);
  pthread_create = λ x. (0, x);
  thread_initialized = λ x. (true, x);
  milliseconds_sleep = λ n x. x;
}

abbrev pub first_start : TcpSender
first_start = record (tcp_sender 4000) {
  client_sock_fd = some 4;
  shared_data = fresh (some 4);
  initialized = true;
}

-- The object when its first worker has sent a list and has been ended.
abbrev after_first : TcpSender
after_first = record first_start {
  shared_data = stopped.shared;
  error_handler = stopped.error_handler;
  initialized = stopped.initialized;
}

abbrev second_start : TcpSender
second_start = record first_start { error_handler = stopped.error_handler }

pub starts_first : initialize plain_host 1 (tcp_sender 4000) tt ≡ some (true, first_start, tt)
unfolding initialize
starts_first = refl

starts_second : initialize plain_host 1 after_first tt ≡ some (true, second_start, tt)
unfolding initialize
starts_second = refl

initialize-created_example :
    (fd : ℕ) × (second_start.client_sock_fd ≡ some fd)
    × (second_start.shared_data ≡ (created fd second_start.error_handler lists).shared)
initialize-created_example =
    initialize-created plain_host bytes Untaken 1 tt lists
      (lived 1 tt tt (constructed 4000) starts_first stopped-Reachable refl) starts_second

-- A sender whose descriptor 4 is open, in its field.
abbrev connected : TcpSender
connected = record first_start { initialized = false }
