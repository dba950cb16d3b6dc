-- ===== src/Sender/Connection.antt =====
-- src/senders/tcp_sender.cpp: create_server and get_client, and the descriptors that they leave.
use real_time_data_transfer.Base.{
  Option-cases, if_elim, some_not_none, ℕ, ◌≡◌, refl, sym, subst, ◌∙◌, ◌⊎◌, inl, inr, Bool, true,
  false, none, some,
}
use real_time_data_transfer.Sender.Sockets.{
  Host, TcpSender, Binding, bind_first, listen_on, create_server, get_client, bound, option_refused,
  zero_copy_refused, exhausted,
}
use real_time_data_transfer.Sender.Descriptors.{
  IsHost, Tracked, Closed, Serving, bind_first-Serving,
}

pub sum_cases : {A B : Type 0} (s : A ⊎ B) → ((a : A) × (s ≡ inl a)) ⊎ ((b : B) × (s ≡ inr b))
sum_cases (inl a) = inl (a, refl)
sum_cases (inr b) = inr (b, refl)

module _ (h : Host) (Open : h.World → ℕ → Type 0) (k : IsHost h Open) where
  -- After create_server: only the server's descriptor can be open, and a failure has set the error.
  pub record Served (r : Bool × TcpSender × h.World) : Type 0 where
    pub server_only : (f : ℕ) → Open r.2 f → r.1.server_sock_fd ≡ some f
    pub no_client : r.1.client_sock_fd ≡ none
    pub not_initialised : r.1.initialized ≡ false
    pub server_error : r.0 ≡ false → r.1.error_handler.is_error_flag ≡ true

  listen_on-Served :
      (b : Binding) (t : TcpSender) (x : h.World)
      → Serving h Open none (b, t, x)
      → Served (listen_on h b t x)
  unfolding listen_on
  listen_on-Served option_refused t x v = record {
    server_only = v.only;
    no_client = v.client_kept;
    not_initialised = v.uninitialised;
    server_error = λ e. refl;
  }
  listen_on-Served zero_copy_refused t x v = record {
    server_only = v.only;
    no_client = v.client_kept;
    not_initialised = v.uninitialised;
    server_error = λ e. refl;
  }
  listen_on-Served exhausted t x v = record {
    server_only = λ f o. v.only f (k.freeaddrinfo_keeps x f o);
    no_client = v.client_kept;
    not_initialised = v.uninitialised;
    server_error = λ e. refl;
  }
  listen_on-Served bound t x v = elim (Option-cases t.server_sock_fd) [
    | inl e ↦
        rw (e, listen_on)
          (record {
            server_only = λ f o. v.only f (k.freeaddrinfo_keeps x f o);
            no_client = v.client_kept;
            not_initialised = v.uninitialised;
            server_error = λ e. refl;
          })
    | inr (fd, e) ↦
        let x1 = h.freeaddrinfo x in
        let only : (f : ℕ) → Open (h.listen fd x1).1 f → t.server_sock_fd ≡ some f =
          λ f o. v.only f (k.freeaddrinfo_keeps x f (k.listen_keeps fd x1 f o)) in
        rw (e, listen_on)
          (if_elim Served (h.listen fd x1).0
            (λ _. record {
              server_only = λ f o. only f (k.signal_keeps (h.listen fd x1).1 f o);
              no_client = v.client_kept;
              not_initialised = v.uninitialised;
              server_error = λ e. cc;
            })
            (λ _. record {
              server_only = only;
              no_client = v.client_kept;
              not_initialised = v.uninitialised;
              server_error = λ e. refl;
            }))
  ]

  pub create_server-Served :
      (t : TcpSender) (x : h.World)
      → Closed h Open x
      → t.client_sock_fd ≡ none
      → t.initialized ≡ false
      → Served (create_server h t x)
  unfolding create_server
  create_server-Served t x c n i =
      let x1 = (h.getaddrinfo t.port x).1 in
      let closed : Closed h Open x1 = λ f o. c f (k.getaddrinfo_keeps t.port x f o) in
      elim (sum_cases (h.getaddrinfo t.port x).0) [
        | inl (msg, e) ↦
            rw (e, create_server)
              (record {
                server_only = λ f o. absurd (closed f o);
                no_client = n;
                not_initialised = i;
                server_error = λ e. refl;
              })
        | inr (infos, e) ↦
            let r = bind_first h infos t x1 in
            rw (e, create_server)
              (listen_on-Served r.0 r.1 r.2 (
                subst (λ z. Serving h Open z r) n
                  (bind_first-Serving h Open k infos t x1 closed i)))
      ]

  -- After get_client: all that is open is the sender's, and success has a client.
  pub record Met (r : Bool × TcpSender × h.World) : Type 0 where
    pub tracked : Tracked h Open r.1 r.2
    pub not_started : r.1.initialized ≡ false
    pub client_error : r.0 ≡ false → r.1.error_handler.is_error_flag ≡ true
    pub has_client : r.0 ≡ true → (fd : ℕ) × (r.1.client_sock_fd ≡ some fd)

  pub get_client-Met : (t : TcpSender) (x : h.World) → Served (true, t, x) → Met (get_client h t x)
  unfolding get_client
  get_client-Met t x v = elim (Option-cases t.server_sock_fd) [
    | inl e ↦
        rw (e, get_client)
          (record {
            tracked = λ f o. inl (v.server_only f o);
            not_started = v.not_initialised;
            client_error = λ e. refl;
            has_client = λ e. cc;
          })
    | inr (server, e) ↦
        let x1 = (h.accept server x).1 in
        elim (Option-cases (h.accept server x).0) [
          | inl a ↦
              rw (e, a, get_client)
                (record {
                  tracked = λ f o. elim (k.accept_opens server x f o) [
                    | inl o' ↦ inl (v.server_only f o')
                    | inr e' ↦ absurd (some_not_none (sym e' ∙ a))
                  ];
                  not_started = v.not_initialised;
                  client_error = λ e. refl;
                  has_client = λ e. cc;
                })
          | inr (fd, a) ↦
              rw (e, a, get_client)
                (record {
                  tracked = λ f o. elim (k.accept_opens server x f o) [
                    | inl o' ↦ inl (v.server_only f o')
                    | inr e' ↦ inr (sym a ∙ e')
                  ];
                  not_started = v.not_initialised;
                  client_error = λ e. cc;
                  has_client = λ e. (fd, refl);
                })
        ]
  ]
