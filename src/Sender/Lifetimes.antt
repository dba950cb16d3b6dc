-- ===== src/Sender/Lifetimes.antt =====
-- src/senders/tcp_sender.cpp and tcp_sender_zc.cpp: an object through several workers, each made by
-- a call of initialize.
use real_time_data_transfer.Base.{ℕ, String, ◌≡◌, refl, ap, ◌∙◌, Bool, true, false, some}
use real_time_data_transfer.Packets.{Packets}
use real_time_data_transfer.Sender.{State, Transport, closing}
use real_time_data_transfer.Errors.{pull_error}
use real_time_data_transfer.Sender.Sockets.{Host, TcpSender, erring}
use real_time_data_transfer.Sender.Setup.{tcp_sender, tcp_sender_zc, initialize, close_sockets}
use real_time_data_transfer.Sender.Steps.{fresh, created, Reachable}
use real_time_data_transfer.Sender.Life.{has_seen_end, Reachable-Told}
use real_time_data_transfer.Sender.Renewed.{
  initialize-Renews, Renews-some, failed-same, started-renewed,
}

module _ (h : Host) where
  module _ (tr : Transport) (Writable : State → Type 0) where
    -- The object between two lifetimes of a worker, as the last call of initialize finds it: just
    -- constructed, after a call of initialize that failed, or at the end of end_sender, where the
    -- state `s` of the worker and its caller has been reached from the creation of the worker; and
    -- then end_sender, send and get_error may have been called, which do not change the data of the
    -- worker.
    pub data Idle : TcpSender → Type 0 where
      constructed : (port : ℕ) → Idle (tcp_sender port)
      constructed_zc : (port : ℕ) → Idle (tcp_sender_zc port)
      failed :
          {t t' : TcpSender} (fuel : ℕ) (x x' : h.World)
          → Idle t
          → initialize h fuel t x ≡ some (false, t', x')
          → Idle t'
      lived :
          {t t' : TcpSender} {lists : ℕ → Packets} {s : State} (fuel : ℕ) (x x' : h.World)
          → Idle t
          → initialize h fuel t x ≡ some (true, t', x')
          → Reachable tr Writable lists s
          → s.caller ≡ closing
          → Idle (record t' {
            shared_data = s.shared;
            error_handler = s.error_handler;
            initialized = s.initialized;
          })
      ended :
          {t : TcpSender} (x : h.World)
          → Idle t
          → Idle (close_sockets h (record t { initialized = false }) x).0
      refused : {t : TcpSender} (msg : String) → Idle t → Idle (erring msg t)
      pulled :
          {t : TcpSender}
          → Idle t
          → Idle (record t { error_handler = (pull_error t.error_handler).1 })

    Idle-terminated : {t : TcpSender} → Idle t → t.shared_data.is_terminated_thread ≡ true
    Idle-terminated (constructed port) = refl
    Idle-terminated (constructed_zc port) = refl
    Idle-terminated (ended x i) = Idle-terminated i
    Idle-terminated (refused msg i) = Idle-terminated i
    Idle-terminated (pulled i) = Idle-terminated i
    Idle-terminated (failed {t = t} fuel x x' i e) =
        failed-same h (Renews-some h (initialize-Renews h fuel t x) e) ∙ Idle-terminated i
    Idle-terminated (lived fuel x x' i e r c) =
        let v = Reachable-Told tr Writable r in v.terminated ∙ v.seen (ap has_seen_end c)

    -- However many workers an object has had, and whatever became of them: a call of initialize
    -- that returns true has created its worker on data that are again those of a new object with
    -- the client's descriptor, so that each lifetime of a worker starts in the state `created`,
    -- from which the theorems on the interleavings start.
    pub initialize-created :
        {t t' : TcpSender} (fuel : ℕ) (x : h.World) {x' : h.World} (lists : ℕ → Packets)
        → Idle t
        → initialize h fuel t x ≡ some (true, t', x')
        → (fd : ℕ) × (t'.client_sock_fd ≡ some fd)
          × (t'.shared_data ≡ (created fd t'.error_handler lists).shared)
    initialize-created {t} fuel x lists i e =
        let (fd, c, d) = started-renewed h (Renews-some h (initialize-Renews h fuel t x) e) in
        let mark : t.shared_data.is_terminated_thread ≡ true = Idle-terminated i in
        (fd, c, d ∙ ap (λ (b : Bool). record (fresh (some fd)) { is_terminated_thread = b }) mark)
