-- ===== src/System/Run/Delivers.antt =====
-- src/systems/real_time_system.cpp with src/senders/tcp_sender.cpp and tcp_sender_zc.cpp: run sends
-- what the user's function gives.
use real_time_data_transfer.Base.{
  ℕ, ◌≡◌, sym, ap, ◌∙◌, true, false, none, List, [], ◌++◌, append-nil,
}
use real_time_data_transfer.Packets.{Packets}
use real_time_data_transfer.Sender.{Transport, State as SenderState, idle, payloads}
use real_time_data_transfer.Sender.Steps.{Reachable}
use real_time_data_transfer.Sender.Account.{Untaken}
use real_time_data_transfer.Sender.Calls.{Alone-keeps}
use real_time_data_transfer.Sender.Delivery.{done-delivered, wire-IsPrefix}
use real_time_data_transfer.System.{RealTimeSystem, World}
use real_time_data_transfer.System.Run.{Counters, Parts, Goes}
use real_time_data_transfer.System.Run.Log.{Call, logged}
use real_time_data_transfer.System.Run.Served.{IsServed, packets_given, Goes-IsLogged}
use real_time_data_transfer.System.Run.Concrete.{
  IsTcp, Alone-none, Steady, Works-Steady, done-none, writes-Steady, sends-Steady, assigned-same,
}

module _ (w : World) (parts : Parts) (tr : Transport) (list : ℕ) (view : w.State → SenderState)
    (k : IsTcp w parts tr list view) (lists : ℕ → Packets) (before : List Packets) where
  abbrev Kept : List Packets → w.State → Type 0
  Kept given x = Steady tr lists before (view x) given

  -- A TCPSender serves run.
  IsTcp-IsServed :
      IsServed w parts Kept
        (λ x. (view x).shared.packets_list ≡ none)
        (λ l x. (view x).lists list ≡ l)
  IsTcp-IsServed = record {
    polls = λ x v.
        let (m, to_m, done_m, from_m) = k.polls x in
        let m_v = Works-Steady tr lists before to_m v in
        (
          Works-Steady tr lists before from_m m_v,
          λ e. Alone-none from_m.1 (done-none tr lists before m_v (done_m ∙ e)),
          λ n. Alone-none from_m.1 (Alone-none to_m.1 n),
        );
    naps = λ n x v. Works-Steady tr lists before (k.naps n x) v;
    ticks = λ x v. Works-Steady tr lists before (k.ticks x) v;
    asks = λ i x v n. (Works-Steady tr lists before (k.asks i x) v, Alone-none (k.asks i x).1 n);
    assigns = λ l x v n.
        let (m, (j, to_m), (j', from_m)) = k.assigns l x in
        (
          Works-Steady tr lists before (j', from_m)
              (writes-Steady tr lists before list l m (Alone-none to_m n)
                (Works-Steady tr lists before (j, to_m) v)),
          ap (λ f. f list) (Alone-keeps tr from_m).2 ∙ assigned-same tr lists before list l m.lists,
        );
    sends = λ x v there e.
        let (call, told) = k.sends x in sends-Steady tr lists before call there (told ∙ e) v;
  }

module _ (w : World) (parts : Parts) (tr : Transport) (list : ℕ) (view : w.State → SenderState)
    (k : IsTcp w parts tr list view) (lists : ℕ → Packets) (before : List Packets)
    (s : RealTimeSystem) (no_skip : s.allow_skip_mode ≡ false) where
  -- The system and its sender together. In a world whose sender is a TCPSender or a TCPSenderZC
  -- with its worker, which may move in every call, without skip mode: if the sender starts between
  -- two calls, in a reachable state, then after any number of rounds of run the lists handed over
  -- are those of the start and after them exactly the packets that the user's function has
  -- returned, each round's once and in order; what the socket has been given is a beginning of
  -- their bytes, and all of their bytes when is_done is true.
  pub run-delivers :
      {n : ℕ} {c c' : Counters} {x x' : w.State} {l : List Call}
      → Reachable tr Untaken lists (view x)
      → (view x).caller ≡ idle
      → (view x).handed ≡ before
      → Goes (logged w) parts s n (c, (x, [])) (c', (x', l))
      → ((view x').handed ≡ before ++ packets_given l)
        × ((missing : List ℕ) × ((view x').wire ++ missing
              ≡ payloads tr (before ++ packets_given l)))
        × ((view x').shared.is_done ≡ true
            → (view x').wire ≡ payloads tr (before ++ packets_given l))
  run-delivers r i e g =
      let v =
        Goes-IsLogged w parts (IsTcp-IsServed w parts tr list view k lists before) s no_skip g
          (record { reachable = r; between = i; held = e ∙ sym (append-nil before) }) in
      let (missing, p) = wire-IsPrefix tr v.reachable in
      (
        v.held,
        (missing, p ∙ ap (payloads tr) v.held),
        λ d. done-delivered tr v.reachable v.between d ∙ ap (payloads tr) v.held,
      )
