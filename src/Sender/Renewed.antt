-- ===== src/Sender/Renewed.antt =====
-- src/senders/tcp_sender.cpp and tcp_sender_zc.cpp: what initialize does to the data that the
-- worker shares with its caller.
use real_time_data_transfer.Base.{
  ◌==◌, if◌then◌else◌, Option-cases, if_elim, false_not_true, not-false, ℕ, ◌≡◌, refl, ap, subst,
  ◌∙◌, inl, inr, Bool, true, false, not, ◌&&◌, Option, none, some, List, [], ◌∷◌,
}
use real_time_data_transfer.Sender.{SenderWorkerData}
use real_time_data_transfer.Sender.Sockets.{
  Host, TcpSender, Binding, bind_first, listen_on, create_server, get_client, bound, option_refused,
  zero_copy_refused, exhausted,
}
use real_time_data_transfer.Sender.Setup.{
  reset, set_attributes, await_thread, start_thread, connect, initialize, close_fd,
}
use real_time_data_transfer.Sender.Connection.{sum_cases}

module _ (h : Host) where
  -- A call of create_server or get_client leaves the data of the worker as it is.
  abbrev Same : SenderWorkerData → Bool × TcpSender × h.World → Type 0
  Same d r = r.1.shared_data ≡ d

  bind_first-Same :
      (l : List h.Address) (t : TcpSender) (x : h.World)
      → (bind_first h l t x).1.shared_data ≡ t.shared_data
  unfolding bind_first
  bind_first-Same [] t x = refl
  bind_first-Same (p ∷ rest) t x = elim (Option-cases (h.socket p x).0) [
    | inl e ↦
        rw (e, bind_first)
          (bind_first-Same rest (record t { server_sock_fd = none }) (h.socket p x).1)
    | inr (fd, e) ↦
        let t1 : TcpSender = record t { server_sock_fd = some fd } in
        let (reused, x2) = h.set_reuse_address fd (h.socket p x).1 in
        let (copies, x3) = h.set_zero_copy fd x2 in
        let x4 = if t.zero_copy then x3 else x2 in
        let (is_bound, x5) = h.bind fd p x4 in
        let P : Binding × TcpSender × h.World → Type 0 = λ r. r.1.shared_data ≡ t.shared_data in
        rw (e, bind_first)
          (if_elim P (not reused) (λ _. refl)
            (λ _.
              if_elim P (t.zero_copy && not copies) (λ _. refl)
                (λ _.
                  if_elim P is_bound (λ _. refl) (λ _. bind_first-Same rest t1 (h.close fd x5)))))
  ]

  listen_on-Same :
      (b : Binding) (t : TcpSender) (x : h.World) → Same t.shared_data (listen_on h b t x)
  unfolding listen_on
  listen_on-Same option_refused t x = refl
  listen_on-Same zero_copy_refused t x = refl
  listen_on-Same exhausted t x = refl
  listen_on-Same bound t x = elim (Option-cases t.server_sock_fd) [
    | inl e ↦ rw (e, listen_on) refl
    | inr (fd, e) ↦
        rw (e, listen_on)
          (if_elim (Same t.shared_data) (h.listen fd (h.freeaddrinfo x)).0 (λ _. refl) (λ _. refl))
  ]

  create_server-Same : (t : TcpSender) (x : h.World) → Same t.shared_data (create_server h t x)
  unfolding create_server
  create_server-Same t x = elim (sum_cases (h.getaddrinfo t.port x).0) [
    | inl (msg, e) ↦ rw (e, create_server) refl
    | inr (infos, e) ↦
        let r = bind_first h infos t (h.getaddrinfo t.port x).1 in
        rw (e, create_server)
          (listen_on-Same r.0 r.1 r.2 ∙ bind_first-Same infos t (h.getaddrinfo t.port x).1)
  ]

  get_client-Same : (t : TcpSender) (x : h.World) → Same t.shared_data (get_client h t x)
  unfolding get_client
  get_client-Same t x = elim (Option-cases t.server_sock_fd) [
    | inl e ↦ rw (e, get_client) refl
    | inr (server, e) ↦ elim (Option-cases (h.accept server x).0) [
      | inl a ↦ rw (e, a, get_client) refl
      | inr (fd, a) ↦ rw (e, a, get_client) refl
    ]
  ]

  -- The data before and after a call of initialize: a call that fails has not touched the mark of
  -- the worker's end, and one that succeeds has made the data anew but for that mark.
  pub data Renews (d : SenderWorkerData) : Option (Bool × TcpSender × h.World) → Type 0 where
    fails :
        {t : TcpSender} {x : h.World}
        → t.shared_data.is_terminated_thread ≡ d.is_terminated_thread
        → Renews d (some (false, t, x))
    starts :
        {t : TcpSender} {x : h.World} (fd : ℕ)
        → t.client_sock_fd ≡ some fd
        → t.shared_data ≡ record (reset h d) { sock_fd = some fd }
        → Renews d (some (true, t, x))
    waits_on : Renews d none

  start_thread-Renews :
      (fuel fd : ℕ) (d : SenderWorkerData) (t : TcpSender) (x : h.World)
      → t.client_sock_fd ≡ some fd
      → t.shared_data ≡ record (reset h d) { sock_fd = some fd }
      → Renews d (start_thread h fuel t x)
  unfolding start_thread
  start_thread-Renews fuel fd d t x c e =
      let (failed, x1) = set_attributes h 5 0 x in
      let x2 = (h.pthread_create x1).1 in
      let kept = ap (λ (v : SenderWorkerData). v.is_terminated_thread) e in
      elim (Option-cases (set_attributes h 5 0 x).0) [
        | inr (msg, a) ↦ rw (a, start_thread) (fails kept)
        | inl a ↦
            rw (a, start_thread)
              (if_elim (Renews d) ((h.pthread_create x1).0 == 0)
                (λ _. elim (Option-cases (await_thread h fuel x2)) [
                  | inl b ↦ rw b waits_on
                  | inr (x3, b) ↦ rw b (starts fd c e)
                ])
                (λ _. fails kept))
      ]

  get_client-client :
      (t : TcpSender) (x : h.World)
      → (get_client h t x).0 ≡ true
      → (fd : ℕ) × ((get_client h t x).1.client_sock_fd ≡ some fd)
  unfolding get_client
  get_client-client t x = elim (Option-cases t.server_sock_fd) [
    | inl e ↦ rw (e, get_client) (λ f. absurd (false_not_true f))
    | inr (server, e) ↦ elim (Option-cases (h.accept server x).0) [
      | inl a ↦ rw (e, a, get_client) (λ f. absurd (false_not_true f))
      | inr (fd, a) ↦ rw (e, a, get_client) (λ f. (fd, refl))
    ]
  ]

  connect-Renews :
      (fuel : ℕ) (d : SenderWorkerData) (t : TcpSender) (x : h.World)
      → t.shared_data ≡ reset h d
      → Renews d (connect h fuel t x)
  unfolding connect
  connect-Renews fuel d t x e =
      let r = create_server h t x in
      let q = get_client h r.1 r.2 in
      let served : r.1.shared_data ≡ reset h d = create_server-Same t x ∙ e in
      let met : q.1.shared_data ≡ reset h d = get_client-Same r.1 r.2 ∙ served in
      if_elim (Renews d) (not r.0)
        (λ _. fails (ap (λ (v : SenderWorkerData). v.is_terminated_thread) served))
        (λ _.
          if_elim (Renews d) (not q.0)
            (λ _. fails (ap (λ (v : SenderWorkerData). v.is_terminated_thread) met))
            (λ f.
              let (fd, c) = get_client-client r.1 r.2 (not-false q.0 f) in
              start_thread-Renews fuel fd d
                (record q.1 {
                  server_sock_fd = none;
                  shared_data = record q.1.shared_data { sock_fd = q.1.client_sock_fd };
                })
                (close_fd h q.1.server_sock_fd q.2) c
                (ap (λ (v : SenderWorkerData). record v { sock_fd = q.1.client_sock_fd }) met
                  ∙ ap (λ (o : Option ℕ). record (reset h d) { sock_fd = o }) c)))

  pub initialize-Renews :
      (fuel : ℕ) (t : TcpSender) (x : h.World) → Renews t.shared_data (initialize h fuel t x)
  unfolding initialize
  initialize-Renews fuel t x = connect-Renews fuel t.shared_data _ _ refl

  pub Renews-some :
      {d : SenderWorkerData} {o : Option (Bool × TcpSender × h.World)} {b : Bool} {t : TcpSender}
      {x : h.World}
      → Renews d o
      → o ≡ some (b, t, x)
      → Renews d (some (b, t, x))
  Renews-some {d} r e = subst (Renews d) e r

  pub failed-same :
      {d : SenderWorkerData} {t : TcpSender} {x : h.World}
      → Renews d (some (false, t, x))
      → t.shared_data.is_terminated_thread ≡ d.is_terminated_thread
  failed-same (fails e) = e

  pub started-renewed :
      {d : SenderWorkerData} {t : TcpSender} {x : h.World}
      → Renews d (some (true, t, x))
      → (fd : ℕ) × (t.client_sock_fd ≡ some fd)
        × (t.shared_data ≡ record (reset h d) { sock_fd = some fd })
  started-renewed (starts fd c e) = (fd, c, e)
