-- ===== src/Sender/Start.antt =====
-- src/senders/tcp_sender.cpp: what initialize leaves.
use real_time_data_transfer.Base.{
  ◌==◌, Option-cases, if_elim, some_not_none, not-true, not-false, some_injective, ℕ, zero, suc,
  ◌+◌, String, ◌≡◌, refl, sym, ap, subst, ◌∙◌, ◌≢◌, inl, inr, Bool, true, false, not, Option, none,
  some,
}
use real_time_data_transfer.Sender.Sockets.{Host, TcpSender, create_server, get_client}
use real_time_data_transfer.Sender.Setup.{
  close_fd, close_sockets, reset, set_attributes, await_thread, start_thread, connect, initialize,
}
use real_time_data_transfer.Sender.Descriptors.{IsHost, Tracked, Closed}
use real_time_data_transfer.Sender.Connection.{create_server-Served, get_client-Met}

module _ (h : Host) (Open : h.World → ℕ → Type 0) where
  -- The ends of initialize: a failure with an error and no descriptor lost; a sender with a client,
  -- whose descriptor is the only one that is open; or a thread that is still not there.
  pub data IsStart (fuel : ℕ) : Option (Bool × TcpSender × h.World) → Type 0 where
    refused :
        {t : TcpSender} {x : h.World}
        → Tracked h Open t x
        → t.initialized ≡ false
        → t.error_handler.is_error_flag ≡ true
        → IsStart fuel (some (false, t, x))
    ready :
        {t : TcpSender} {x : h.World} (fd : ℕ)
        → t.server_sock_fd ≡ none
        → t.client_sock_fd ≡ some fd
        → t.shared_data.sock_fd ≡ some fd
        → t.initialized ≡ true
        → ((f : ℕ) → Open x f → f ≡ fd)
        → IsStart fuel (some (true, t, x))
    unready : (x : h.World) → await_thread h fuel x ≡ none → IsStart fuel none

  module _ (k : IsHost h Open) where
    close_fd-closes :
        (s : Option ℕ) (x : h.World) (f : ℕ) → Open (close_fd h s x) f → Open x f × (s ≢ some f)
    close_fd-closes none x f o = (o, λ e. some_not_none (sym e))
    close_fd-closes (some s) x f o =
        let (o', n) = k.close_closes s (h.shutdown s x) f o in
        (k.shutdown_keeps s x f o', λ e. n (some_injective (sym e)))

    set_attributes-keeps :
        (left call : ℕ) (x : h.World) (f : ℕ) → Open (set_attributes h left call x).1 f → Open x f
    unfolding set_attributes
    set_attributes-keeps zero call x f = λ o. o
    set_attributes-keeps (suc left) call x f =
        let x1 = (h.set_attribute call x).1 in
        if_elim (λ (r : Option String × h.World). Open r.1 f → Open x f)
          ((h.set_attribute call x).0 == 0)
          (λ _ o. k.attribute_keeps call x f (set_attributes-keeps left (call + 1) x1 f o))
          (λ _ o. k.attribute_keeps call x f o)

    await_thread-keeps :
        (fuel : ℕ) (x x' : h.World) (f : ℕ) → await_thread h fuel x ≡ some x' → Open x' f → Open x f
    unfolding await_thread
    await_thread-keeps zero x x' f = λ e. absurd (some_not_none (sym e))
    await_thread-keeps (suc fuel) x x' f =
        let x1 = (h.thread_initialized x).1 in
        if_elim (λ (r : Option h.World). r ≡ some x' → Open x' f → Open x f)
          (h.thread_initialized x).0
          (λ _ e o. k.polls_keep x f (subst (λ y. Open y f) (sym (some_injective e)) o))
          (λ _ e o.
            k.polls_keep x f
              (k.sleep_keeps 5 x1 f (await_thread-keeps fuel (h.milliseconds_sleep 5 x1) x' f e o)))

    start_thread-IsStart :
        (fuel fd : ℕ) (t : TcpSender) (x : h.World)
        → t.server_sock_fd ≡ none
        → t.client_sock_fd ≡ some fd
        → t.shared_data.sock_fd ≡ some fd
        → t.initialized ≡ false
        → ((f : ℕ) → Open x f → f ≡ fd)
        → IsStart fuel (start_thread h fuel t x)
    unfolding start_thread
    start_thread-IsStart fuel fd t x n c d i only =
        let x1 = (set_attributes h 5 0 x).1 in
        let only1 : (f : ℕ) → Open x1 f → f ≡ fd = λ f o. only f (set_attributes-keeps 5 0 x f o) in
        let x2 = (h.pthread_create x1).1 in
        let only2 : (f : ℕ) → Open x2 f → f ≡ fd = λ f o. only1 f (k.create_keeps x1 f o) in
        elim (Option-cases (set_attributes h 5 0 x).0) [
          | inr (msg, e) ↦
              rw (e, start_thread) (refused (λ f o. inr (c ∙ ap some (sym (only1 f o)))) i refl)
          | inl e ↦
              rw (e, start_thread)
                (if_elim (IsStart fuel) ((h.pthread_create x1).0 == 0)
                  (λ _. elim (Option-cases (await_thread h fuel x2)) [
                    | inl a ↦ rw a (unready x2 a)
                    | inr (x3, a) ↦
                        rw a (
                          ready fd n c d refl
                            (λ f o. only2 f (await_thread-keeps fuel x2 x3 f a o)))
                  ])
                  (λ _. refused (λ f o. inr (c ∙ ap some (sym (only2 f o)))) i refl))
        ]

    connect-IsStart :
        (fuel : ℕ) (t : TcpSender) (x : h.World)
        → Closed h Open x
        → t.client_sock_fd ≡ none
        → t.initialized ≡ false
        → IsStart fuel (connect h fuel t x)
    unfolding connect
    connect-IsStart fuel t x closed n i =
        let v = create_server-Served h Open k t x closed n i in
        let r = create_server h t x in
        let m = get_client-Met h Open k r.1 r.2 (record {
          server_only = v.server_only;
          no_client = v.no_client;
          not_initialised = v.not_initialised;
          server_error = λ e. cc;
        }) in
        let q = get_client h r.1 r.2 in
        if_elim (IsStart fuel) (not r.0)
          (λ e.
            refused (λ f o. inl (v.server_only f o)) v.not_initialised
              (v.server_error (not-true r.0 e)))
          (λ _.
            if_elim (IsStart fuel) (not q.0)
              (λ e. refused m.tracked m.not_started (m.client_error (not-true q.0 e)))
              (λ e.
                let (fd, c) = m.has_client (not-false q.0 e) in
                start_thread-IsStart fuel fd
                  (record q.1 {
                    server_sock_fd = none;
                    shared_data = record q.1.shared_data { sock_fd = q.1.client_sock_fd };
                  })
                  (close_fd h q.1.server_sock_fd q.2) refl c c m.not_started
                  (λ f o.
                    let (o', d) = close_fd-closes q.1.server_sock_fd q.2 f o in
                    elim (m.tracked f o') [
                      | inl e' ↦ absurd (d e')
                      | inr e' ↦ some_injective (sym e' ∙ c)
                    ])))

    -- When the sender has every open descriptor in its fields, none is open after its sockets have
    -- been closed.
    pub close_sockets-Closed :
        (t : TcpSender) (x : h.World) → Tracked h Open t x → Closed h Open (close_sockets h t x).1
    close_sockets-Closed t x tracked f o =
        let (o1, n1) = close_fd-closes t.client_sock_fd (close_fd h t.server_sock_fd x) f o in
        let (o2, n2) = close_fd-closes t.server_sock_fd x f o1 in
        elim (tracked f o2) [ inl e ↦ n2 e | inr e ↦ n1 e ]

    -- For every host whose calls open and close the descriptors that their manual pages say, and a
    -- sender that has in its fields every descriptor that is open: when initialize returns false,
    -- it has set an error, the sender is not initialised, and every descriptor that is open is
    -- still in its fields, for the next end_sender to close; when it returns true, the client's
    -- descriptor is the only one open, and the worker has it. It does not return only while the
    -- created thread does not announce itself in `fuel` polls.
    pub initialize-IsStart :
        (fuel : ℕ) (t : TcpSender) (x : h.World)
        → Tracked h Open t x
        → IsStart fuel (initialize h fuel t x)
    unfolding initialize
    initialize-IsStart fuel t0 x0 tracked =
        let closed = close_sockets-Closed t0 x0 tracked in
        let t2 : TcpSender = record t0 {
          server_sock_fd = none;
          client_sock_fd = none;
          initialized = false;
          shared_data = reset h t0.shared_data;
        } in
        connect-IsStart fuel t2 _ closed refl refl
