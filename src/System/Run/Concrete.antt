-- ===== src/System/Run/Concrete.antt =====
-- src/systems/real_time_system.cpp with src/senders/tcp_sender.cpp and tcp_sender_zc.cpp: a system
-- whose sender is one of these.
use real_time_data_transfer.Base.{
  ◌==◌, if◌then◌else◌, true_not_false, ℕ, ◌≡◌, refl, sym, ap, ◌∙◌, inl, inr, true, none, List, [],
  ◌∷◌, ◌++◌, append_assoc, arith,
}
use real_time_data_transfer.Packets.{Packets}
use real_time_data_transfer.Sender.{Transport, State as SenderState, idle}
use real_time_data_transfer.Sender.Steps.{assigned, Reachable, writes_between}
use real_time_data_transfer.Sender.Ending.{Alone, rests, moves}
use real_time_data_transfer.Sender.Calls.{
  Works, SendCall, Alone-keeps, SendCall-handed, Alone-Reachable, SendCall-Reachable,
}
use real_time_data_transfer.Sender.Worker.{WorkerStep, takes}
use real_time_data_transfer.Sender.Account.{Untaken}
use real_time_data_transfer.Sender.Queue.{is_filled, Reachable-Ordered}
use real_time_data_transfer.System.{World}
use real_time_data_transfer.System.Info.{RealTimeInfo}
use real_time_data_transfer.System.Run.{Parts}

-- What makes the sender of a world a TCPSender with its worker: `view` is its state, `list` the
-- address of `user_packets_list`. In each call that run makes the worker may take any steps, and
-- of the calls, is_send_done reads is_done, send goes through its steps, and the assignment writes
-- the list. The user's function and the timer do not touch the sender.
pub record IsTcp (w : World) (parts : Parts) (tr : Transport) (list : ℕ)
    (view : w.State → SenderState) : Type 0 where
  pub polls :
      (x : w.State)
      → (m : SenderState) × Works tr (view x) m
        × (m.shared.is_done ≡ (w.sender_is_send_done parts.sender x).0)
        × Works tr m (view (w.sender_is_send_done parts.sender x).1)
  pub naps : (n : ℕ) (x : w.State) → Works tr (view x) (view (w.microseconds_sleep n x))
  pub ticks : (x : w.State) → Works tr (view x) (view (w.timer_sleep_to_next_tick parts.timer x).1)
  pub asks :
      (i : RealTimeInfo) (x : w.State)
      → Works tr (view x) (view (w.user_function parts.user_app_func i x).2)
  pub assigns :
      (l : Packets) (x : w.State)
      → (m : SenderState) × Works tr (view x) m
        × Works tr (record m { lists = assigned list l m.lists }) (view (w.assign_packets l x))
  pub sends :
      (x : w.State)
      → SendCall tr list (view x) (view (w.sender_send parts.sender x).1)
        × ((view (w.sender_send parts.sender x).1).result ≡ (w.sender_send parts.sender x).0)

WorkerStep-none :
    {tr : Transport} {s t : SenderState}
    → WorkerStep tr s t
    → s.shared.packets_list ≡ none
    → t.shared.packets_list ≡ none
WorkerStep-none (takes s a h) n = refl
WorkerStep-none x n = n

pub Alone-none :
    {tr : Transport} {n : ℕ} {s t : SenderState}
    → Alone tr n s t
    → s.shared.packets_list ≡ none
    → t.shared.packets_list ≡ none
Alone-none rests e = e
Alone-none (moves x xs) e = Alone-none xs (WorkerStep-none x e)

module _ (tr : Transport) (lists : ℕ → Packets) (before : List Packets) where
  -- Between two calls of the sender, `given` lists have been handed over since the start.
  pub record Steady (s : SenderState) (given : List Packets) : Type 0 where
    pub reachable : Reachable tr Untaken lists s
    pub between : s.caller ≡ idle
    pub held : s.handed ≡ before ++ given

  pub Works-Steady :
      {s t : SenderState} {given : List Packets} → Works tr s t → Steady s given → Steady t given
  Works-Steady (n, w) v =
      let (c, h, m) = Alone-keeps tr w in
      record {
        reachable = Alone-Reachable tr Untaken w v.reachable;
        between = c ∙ v.between;
        held = h ∙ v.held;
      }

  -- A sender that is done has no list, and gets none from its worker.
  pub done-none :
      {s : SenderState} {given : List Packets}
      → Steady s given
      → s.shared.is_done ≡ true
      → s.shared.packets_list ≡ none
  done-none v d = elim ((Reachable-Ordered tr Untaken v.reachable).listed d) [
    | inl n ↦ n
    | inr f ↦ absurd (true_not_false (sym f ∙ ap is_filled v.between))
  ]

  -- The application's assignment to its list, while the sender has none.
  pub writes-Steady :
      (list : ℕ) (l : Packets) (s : SenderState) {given : List Packets}
      → s.shared.packets_list ≡ none
      → Steady s given
      → Steady (record s { lists = assigned list l s.lists }) given
  writes-Steady list l s n v = record {
    reachable = writes_between tr Untaken s list l s.caller v.between n v.reachable;
    between = v.between;
    held = v.held;
  }

  -- A call of send that returns true hands over the list that stands at the address.
  pub sends-Steady :
      {list : ℕ} {l : Packets} {s t : SenderState} {given : List Packets}
      → SendCall tr list s t
      → s.lists list ≡ l
      → t.result ≡ true
      → Steady s given
      → Steady t (given ++ l ∷ [])
  sends-Steady {l = l} {s} {t} {given} call e d v =
      let (c, h) = SendCall-handed tr call e in
      record {
        reachable = SendCall-Reachable tr Untaken call v.reachable;
        between = c;
        held =
            h
            ∙ ap (λ b. if b then s.handed ++ l ∷ [] else s.handed) d
            ∙ ap (λ z. z ++ l ∷ []) v.held
            ∙ append_assoc before given (l ∷ []);
      }

  pub assigned-same : (list : ℕ) (l : Packets) (f : ℕ → Packets) → assigned list l f list ≡ l
  assigned-same list l f = let e : (list == list) ≡ true = ground arith in rw e refl
