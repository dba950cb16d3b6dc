-- ===== src/System/Run/Skipped.antt =====
-- src/systems/real_time_system.cpp with src/senders/tcp_sender.cpp and tcp_sender_zc.cpp: what a
-- round that skips its packets does to the sender.
use real_time_data_transfer.Base.{
  if_elim, add64, ℕ, ◌/◌, ◌≡◌, ap, subst, ◌∙◌, true, false, List, [],
}
use real_time_data_transfer.Packets.{Packets}
use real_time_data_transfer.Sender.{Transport, State as SenderState}
use real_time_data_transfer.Sender.Calls.{Works, Alone-keeps}
use real_time_data_transfer.System.{RealTimeSystem, World}
use real_time_data_transfer.System.Info.{real_time_info, is_system_stopped}
use real_time_data_transfer.System.Setup.{Returned}
use real_time_data_transfer.System.Run.{
  Counters, Round, Parts, next_round, skip_round, again, return,
}
use real_time_data_transfer.System.Run.Concrete.{IsTcp, assigned-same}

module _ (w : World) (parts : Parts) (tr : Transport) (list : ℕ) (view : w.State → SenderState)
    (k : IsTcp w parts tr list view) where
  abbrev Kept : Packets → List Packets → w.State → Type 0
  Kept l held x = ((view x).lists list ≡ l) × ((view x).handed ≡ held)

  -- A round that goes on leaves this list at the address, and these lists handed over.
  data Leaves (l : Packets) (held : List Packets)
      : Round (Counters × w.State) (Returned w) → Type 0 where
    goes_on : {c : Counters} {x : w.State} → Kept l held x → Leaves l held (again (c, x))
    ends : {r : Returned w} → Leaves l held (return r)

  Leaves-again :
      {l : Packets} {held : List Packets} {c : Counters} {x : w.State}
      → Leaves l held (again (c, x))
      → Kept l held x
  Leaves-again (goes_on v) = v

  Works-Kept :
      {l : Packets} {held : List Packets} (x y : w.State)
      → Works tr (view x) (view y)
      → Kept l held x
      → Kept l held y
  Works-Kept x y (n, v) (e, h) =
      let (c, h', m) = Alone-keeps tr v in (ap (λ f. f list) m ∙ e, h' ∙ h)

  next_round-Leaves :
      (s : RealTimeSystem) (c : Counters) (l : Packets) (held : List Packets) (x : w.State)
      → Kept l held x
      → Leaves l held (next_round w parts s c x)
  unfolding next_round
  next_round-Leaves s c l held x v =
      if_elim (Leaves l held) (w.timer_sleep_to_next_tick parts.timer x).0
        (λ _. goes_on (Works-Kept x (w.timer_sleep_to_next_tick parts.timer x).1 (k.ticks x) v))
        (λ _. ends)

  -- In a world whose sender is a TCPSender or a TCPSenderZC with its worker: a round that skips its
  -- packets and goes on has handed nothing over, and yet afterwards the list at the address that
  -- run gives to send holds the packets that were to be skipped.
  pub skip_round-overwrites :
      (s : RealTimeSystem) (c : Counters) (used : ℕ) (x : w.State) {c' : Counters} {x' : w.State}
      → skip_round w parts s c used x ≡ again (c', x')
      → ((view x').lists list
          ≡ (w.user_function parts.user_app_func
              (real_time_info c.sequence_number true (used / 2) false)
              x).1)
        × ((view x').handed ≡ (view x).handed)
  unfolding skip_round
  skip_round-overwrites s c used x e =
      let i = real_time_info c.sequence_number true (used / 2) false in
      let q = w.user_function parts.user_app_func i x in
      let (m, (n, to_m), (n', from_m)) = k.assigns q.1 q.2 in
      let z = w.assign_packets q.1 q.2 in
      let (a, h, b) = Alone-keeps tr (k.asks i x).1 in
      let (a1, h1, b1) = Alone-keeps tr to_m in
      let (a2, h2, b2) = Alone-keeps tr from_m in
      let there : (view z).lists list ≡ q.1 =
        ap (λ f. f list) b2 ∙ assigned-same tr (λ a. []) [] list q.1 m.lists in
      let kept : (view z).handed ≡ (view x).handed = h2 ∙ h1 ∙ h in
      Leaves-again (
        subst (Leaves q.1 (view x).handed) e (
          if_elim (Leaves q.1 (view x).handed) (is_system_stopped q.0) (λ _. ends)
            (λ _.
              next_round-Leaves s (record c { skipped_count = add64 c.skipped_count 1 }) q.1
                (view x).handed z (there, kept))))
