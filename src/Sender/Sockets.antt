-- ===== src/Sender/Sockets.antt =====
-- src/senders/tcp_sender.cpp and src/senders/tcp_sender_zc.cpp: the sockets of create_server and
-- get_client.
use real_time_data_transfer.Base.{
  if◌then◌else◌, ℕ, String, text_append, ◌⊎◌, inl, inr, Bool, true, false, not, ◌&&◌, Option, none,
  some, List, [], ◌∷◌,
}
use real_time_data_transfer.Errors.{Error, set_error}
use real_time_data_transfer.Sender.{SenderWorkerData}

-- The operating system that initialize calls. A string is gai_strerror's message, a descriptor of
-- -1 is `none`, and a Boolean says whether a call succeeds. The five calls that set the attributes
-- of the thread are numbered from 0; a code of 0 is success.
pub record Host : Type 1 where
  pub World : Type 0
  pub Address : Type 0
  pub getaddrinfo : ℕ → World → (String ⊎ List Address) × World
  pub freeaddrinfo : World → World
  pub socket : Address → World → Option ℕ × World
  pub set_reuse_address : ℕ → World → Bool × World
  pub set_zero_copy : ℕ → World → Bool × World
  pub bind : ℕ → Address → World → Bool × World
  pub listen : ℕ → World → Bool × World
  pub ignore_sigpipe : World → World
  pub accept : ℕ → World → Option ℕ × World
  pub shutdown : ℕ → World → World
  pub close : ℕ → World → World
  pub set_attribute : ℕ → World → ℕ × World
  pub pthread_create : World → ℕ × World
  pub thread_initialized : World → Bool × World
  pub milliseconds_sleep : ℕ → World → World

-- `zero_copy` says that the object is a TCPSenderZC, whose code differs in one call.
pub record TcpSender : Type 0 where
  pub zero_copy : Bool
  pub port : ℕ
  pub server_sock_fd : Option ℕ
  pub client_sock_fd : Option ℕ
  pub shared_data : SenderWorkerData
  pub error_handler : Error
  pub initialized : Bool

-- How the loop over the addresses ends.
pub data Binding : Type 0 where
  bound option_refused zero_copy_refused exhausted : Binding

abbrev pub erring : String → TcpSender → TcpSender
erring msg t = record t { error_handler = set_error msg t.error_handler }

module _ (h : Host) where
  open h use {
    World, Address, getaddrinfo, freeaddrinfo, socket, set_reuse_address, set_zero_copy, bind,
    listen, ignore_sigpipe, accept,
  }

  -- `for(p = servinfo; p != NULL; p = p->ai_next)`.
  unfoldable pub bind_first : List Address → TcpSender → World → Binding × TcpSender × World
  bind_first [] t x = (exhausted, t, x)
  bind_first (p ∷ rest) t x =
      let (fd, x1) = socket p x in
      elim fd [
        | none ↦ bind_first rest (record t { server_sock_fd = none }) x1
        | some fd' ↦
            let t1 = record t { server_sock_fd = some fd' } in
            let (reused, x2) = set_reuse_address fd' x1 in
            let (copies, x3) = set_zero_copy fd' x2 in
            let x4 = if t.zero_copy then x3 else x2 in
            let (is_bound, x5) = bind fd' p x4 in
            let next = bind_first rest t1 (h.close fd' x5) in
            if not reused
            then (option_refused, t1, x2)
            else if t.zero_copy && not copies
            then (zero_copy_refused, t1, x3)
            else if is_bound
            then (bound, t1, x5)
            else next
      ]

  -- What follows the loop. The descriptor that listen is given is the field.
  unfoldable pub listen_on : Binding → TcpSender → World → Bool × TcpSender × World
  listen_on option_refused t x =
      (false, erring "error in setsockopt while setting SO_REUSEADDR flag" t, x)
  listen_on zero_copy_refused t x =
      (false, erring "error in setsockopt while setting SO_ZEROCOPY flag" t, x)
  listen_on exhausted t x = (false, erring "server: failed to bind" t, freeaddrinfo x)
  listen_on bound t x = elim t.server_sock_fd [
    | none ↦ (false, erring "error in listen to the port" t, freeaddrinfo x)
    | some fd ↦
        let (ok, x1) = listen fd (freeaddrinfo x) in
        if ok
        then (true, t, ignore_sigpipe x1)
        else (false, erring "error in listen to the port" t, x1)
  ]

  unfoldable pub create_server : TcpSender → World → Bool × TcpSender × World
  unfolding bind_first listen_on
  create_server t x =
      let (found, x1) = getaddrinfo t.port x in
      elim found [
        | inl msg ↦ (false, erring (text_append "getaddrinfo: " msg) t, x1)
        | inr infos ↦ let (b, t1, x2) = bind_first infos t x1 in listen_on b t1 x2
      ]

  -- The server's descriptor; accept of -1 fails.
  unfoldable pub get_client : TcpSender → World → Bool × TcpSender × World
  get_client t x = elim t.server_sock_fd [
    | none ↦ (false, erring "error in accepting the client" (record t { client_sock_fd = none }), x)
    | some server ↦
        let (fd, x1) = accept server x in
        elim fd [
          | none ↦ (
            false,
            erring "error in accepting the client" (record t { client_sock_fd = none }),
            x1,
          )
          | some fd' ↦ (true, record t { client_sock_fd = some fd' }, x1)
        ]
  ]
