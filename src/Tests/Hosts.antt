-- ===== src/Tests/Hosts.antt =====
-- src/senders/tcp_sender.cpp: a host on which the theorem about initialize is applied.
use real_time_data_transfer.Base.{
  ◌==◌, Bool-cases, true_not_false, false_not_true, ℕ, ◌≡◌, refl, sym, ap, ◌∙◌, ◌≢◌, ◌⊎◌, inl, inr,
  Bool, true, false, not, ◌&&◌, ◌||◌, some, [], ◌∷◌, arith,
}
use real_time_data_transfer.Sender.Sockets.{Host, TcpSender, create_server}
use real_time_data_transfer.Sender.Setup.{tcp_sender_zc, initialize_zc}
use real_time_data_transfer.Sender.Steps.{fresh}
use real_time_data_transfer.Sender.Descriptors.{IsHost}
use real_time_data_transfer.Sender.Start.{IsStart, initialize-IsStart}

-- The state is the test for open descriptors. The server gets 3, the client 4; bind fails at the
-- address 0.
abbrev pub opening : ℕ → (ℕ → Bool) → ℕ → Bool
opening g x f = (f == g) || x f

abbrev pub closing_fd : ℕ → (ℕ → Bool) → ℕ → Bool
closing_fd g x f = not (f == g) && x f

abbrev pub host : Host
host = record {
  World = ℕ → Bool;
  Address = ℕ;
  getaddrinfo = λ p x. (inr (0 ∷ 1 ∷ []), x);
  freeaddrinfo = λ x. x;
  socket = λ a x. (some 3, opening 3 x);
  set_reuse_address = λ s x. (true, x);
  set_zero_copy = λ s x. (true, x);
  bind = λ s a x. (not (a == 0), x);
  listen = λ s x. (true, x);
  ignore_sigpipe = λ x. x;
  accept = λ s x. (some 4, opening 4 x);
  shutdown = λ s x. x;
  close = closing_fd;
  set_attribute = λ n x. (0, x);
  pthread_create = λ x. (0, x);
  thread_initialized = λ x. (true, x);
  milliseconds_sleep = λ n x. x;
}

abbrev pub IsOpen : (ℕ → Bool) → ℕ → Type 0
IsOpen x f = x f ≡ true

==_true : (a b : ℕ) → (a == b) ≡ true → a ≡ b
==_true a b e = ground arith

==_self : (a b : ℕ) → a ≡ b → (a == b) ≡ true
==_self a b e = ground arith

or_false : (b : Bool) → (b || false) ≡ true → b ≡ true
or_false true e = refl
or_false false e = e

opened : (g : ℕ) (x : ℕ → Bool) (f : ℕ) → opening g x f ≡ true → (x f ≡ true) ⊎ (some g ≡ some f)
opened g x f h = elim (Bool-cases (f == g)) [
  | inl e ↦ inr (ap some (sym (==_true f g e)))
  | inr e ↦ inl (rw e at h)
]

closed : (g : ℕ) (x : ℕ → Bool) (f : ℕ) → closing_fd g x f ≡ true → (x f ≡ true) × (f ≢ g)
closed g x f h = elim (Bool-cases (f == g)) [
  | inl e ↦ absurd (false_not_true (rw e at h))
  | inr e ↦ (rw e at h, λ k. true_not_false (sym (==_self f g k) ∙ e))
]

pub host-IsHost : IsHost host IsOpen
host-IsHost = record {
  socket_opens = λ a x f o. opened 3 x f o;
  accept_opens = λ s x f o. opened 4 x f o;
  close_closes = closed;
  getaddrinfo_keeps = λ p x f o. o;
  freeaddrinfo_keeps = λ x f o. o;
  reuse_keeps = λ s x f o. o;
  zero_copy_keeps = λ s x f o. o;
  bind_keeps = λ s a x f o. o;
  listen_keeps = λ s x f o. o;
  signal_keeps = λ x f o. o;
  shutdown_keeps = λ s x f o. o;
  attribute_keeps = λ n x f o. o;
  create_keeps = λ x f o. o;
  polls_keep = λ x f o. o;
  sleep_keeps = λ n x f o. o;
}

-- A sender that has a client from an earlier time.
abbrev used_sender : TcpSender
used_sender = record (tcp_sender_zc 4000) {
  client_sock_fd = some 4;
  shared_data = fresh (some 4);
  initialized = true;
}

initialize-IsStart_example :
    IsStart host IsOpen 1 (initialize_zc host 1 used_sender (opening 4 (λ f. false)))
initialize-IsStart_example =
    initialize-IsStart host IsOpen host-IsHost 1 used_sender (opening 4 (λ f. false))
      (λ f o. inr (ap some (sym (==_true f 4 (or_false (f == 4) o)))))

-- No address can be bound: the closed descriptor is still in the field.
abbrev full_host : Host
full_host = record host { getaddrinfo = λ p x. (inr (0 ∷ []), x) }

create_server_stale :
    ((create_server full_host used_sender (λ f. false)).1.server_sock_fd ≡ some 3)
    × ((create_server full_host used_sender (λ f. false)).2 3 ≡ false)
unfolding create_server
create_server_stale = (refl, refl)
