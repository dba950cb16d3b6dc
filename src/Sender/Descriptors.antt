-- ===== src/Sender/Descriptors.antt =====
-- src/senders/tcp_sender.cpp: the file descriptors that initialize opens and closes.
use real_time_data_transfer.Base.{
  if◌then◌else◌, Option-cases, if_elim, some_not_none, some_injective, ℕ, ◌≡◌, refl, sym, ◌∙◌, ◌≢◌,
  ◌⊎◌, inl, inr, false, not, ◌&&◌, Option, none, some, List, [], ◌∷◌,
}
use real_time_data_transfer.Sender.Sockets.{Host, TcpSender, Binding, bind_first}

module _ (h : Host) (Open : h.World → ℕ → Type 0) where
  -- What the manual pages say of the descriptors: socket and accept open the one that they return,
  -- close closes its own, and the other calls open none.
  pub record IsHost : Type 0 where
    pub socket_opens :
        (a : h.Address) (x : h.World) (f : ℕ)
        → Open (h.socket a x).1 f
        → Open x f ⊎ ((h.socket a x).0 ≡ some f)
    pub accept_opens :
        (s : ℕ) (x : h.World) (f : ℕ)
        → Open (h.accept s x).1 f
        → Open x f ⊎ ((h.accept s x).0 ≡ some f)
    pub close_closes : (g : ℕ) (x : h.World) (f : ℕ) → Open (h.close g x) f → Open x f × (f ≢ g)
    pub getaddrinfo_keeps : (p : ℕ) (x : h.World) (f : ℕ) → Open (h.getaddrinfo p x).1 f → Open x f
    pub freeaddrinfo_keeps : (x : h.World) (f : ℕ) → Open (h.freeaddrinfo x) f → Open x f
    pub reuse_keeps : (s : ℕ) (x : h.World) (f : ℕ) → Open (h.set_reuse_address s x).1 f → Open x f
    pub zero_copy_keeps : (s : ℕ) (x : h.World) (f : ℕ) → Open (h.set_zero_copy s x).1 f → Open x f
    pub bind_keeps :
        (s : ℕ) (a : h.Address) (x : h.World) (f : ℕ) → Open (h.bind s a x).1 f → Open x f
    pub listen_keeps : (s : ℕ) (x : h.World) (f : ℕ) → Open (h.listen s x).1 f → Open x f
    pub signal_keeps : (x : h.World) (f : ℕ) → Open (h.ignore_sigpipe x) f → Open x f
    pub shutdown_keeps : (s : ℕ) (x : h.World) (f : ℕ) → Open (h.shutdown s x) f → Open x f
    pub attribute_keeps : (n : ℕ) (x : h.World) (f : ℕ) → Open (h.set_attribute n x).1 f → Open x f
    pub create_keeps : (x : h.World) (f : ℕ) → Open (h.pthread_create x).1 f → Open x f
    pub polls_keep : (x : h.World) (f : ℕ) → Open (h.thread_initialized x).1 f → Open x f
    pub sleep_keeps : (n : ℕ) (x : h.World) (f : ℕ) → Open (h.milliseconds_sleep n x) f → Open x f

  -- Every open descriptor is one of the sender's.
  abbrev pub Tracked : TcpSender → h.World → Type 0
  Tracked t x = (f : ℕ) → Open x f → (t.server_sock_fd ≡ some f) ⊎ (t.client_sock_fd ≡ some f)

  abbrev pub Closed : h.World → Type 0
  Closed x = (f : ℕ) → Open x f → ⊥

  -- Only the server's descriptor is open, and the rest of the sender is as it was.
  pub record Serving (client : Option ℕ) (r : Binding × TcpSender × h.World) : Type 0 where
    pub only : (f : ℕ) → Open r.2 f → r.1.server_sock_fd ≡ some f
    pub client_kept : r.1.client_sock_fd ≡ client
    pub uninitialised : r.1.initialized ≡ false

  module _ (k : IsHost) where
    pub bind_first-Serving :
        (infos : List h.Address) (t : TcpSender) (x : h.World)
        → Closed x
        → t.initialized ≡ false
        → Serving t.client_sock_fd (bind_first h infos t x)
    unfolding bind_first
    bind_first-Serving [] t x c i = record {
      only = λ f o. absurd (c f o);
      client_kept = refl;
      uninitialised = i;
    }
    bind_first-Serving (p ∷ rest) t x c i = elim (Option-cases (h.socket p x).0) [
      | inl e ↦
          rw (e, bind_first)
            (bind_first-Serving rest (record t { server_sock_fd = none }) (h.socket p x).1
              (λ f o. elim (k.socket_opens p x f o) [
                | inl o' ↦ c f o'
                | inr e' ↦ some_not_none (sym e' ∙ e)
              ])
              i)
      | inr (fd, e) ↦
          let only : (f : ℕ) → Open (h.socket p x).1 f → some fd ≡ some f = λ f o.
            (elim (k.socket_opens p x f o) [ inl o' ↦ absurd (c f o') | inr e' ↦ sym e ∙ e' ]) in
          let x2 = (h.set_reuse_address fd (h.socket p x).1).1 in
          let back : (f : ℕ) → Open x2 f → some fd ≡ some f =
            λ f o. only f (k.reuse_keeps fd (h.socket p x).1 f o) in
          let x3 = (h.set_zero_copy fd x2).1 in
          let copied : (f : ℕ) → Open x3 f → some fd ≡ some f =
            λ f o. back f (k.zero_copy_keeps fd x2 f o) in
          let x4 = if t.zero_copy then x3 else x2 in
          let set : (f : ℕ) → Open x4 f → some fd ≡ some f = λ f.
            if_elim (λ (y : h.World). Open y f → some fd ≡ some f) t.zero_copy (λ _. copied f)
              (λ _. back f) in
          let x5 = (h.bind fd p x4).1 in
          let rest' =
            bind_first-Serving rest (record t { server_sock_fd = some fd }) (h.close fd x5)
              (λ f o.
                let (o', n) = k.close_closes fd x5 f o in
                n (some_injective (sym (set f (k.bind_keeps fd p x4 f o')))))
              i in
          rw (e, bind_first)
            (if_elim (Serving t.client_sock_fd) (not (h.set_reuse_address fd (h.socket p x).1).0)
              (λ _. record { only = back; client_kept = refl; uninitialised = i })
              (λ _.
                if_elim (Serving t.client_sock_fd) (t.zero_copy && not (h.set_zero_copy fd x2).0)
                  (λ _. record { only = copied; client_kept = refl; uninitialised = i })
                  (λ _.
                    if_elim (Serving t.client_sock_fd) (h.bind fd p x4).0
                      (λ _. record {
                        only = λ f o. set f (k.bind_keeps fd p x4 f o);
                        client_kept = refl;
                        uninitialised = i;
                      })
                      (λ _. rest'))))
    ]
