-- ===== src/System/Run/Promised.antt =====
-- src/systems/real_time_system.cpp with includes/sender.h: a system whose sender is of any class
-- that keeps what the abstract class promises.
use real_time_data_transfer.Base.{
  ℕ, ◌≡◌, sym, ap, subst, ◌∙◌, true, false, List, [], ◌∷◌, ◌++◌, append-nil, append_assoc,
}
use real_time_data_transfer.Packets.{Packets}
use real_time_data_transfer.Sender.Interface.{SenderClass, IsSender, Transfer}
use real_time_data_transfer.System.{RealTimeSystem, World}
use real_time_data_transfer.System.Info.{RealTimeInfo}
use real_time_data_transfer.System.Run.{Counters, Parts, Goes}
use real_time_data_transfer.System.Run.Log.{Call, logged}
use real_time_data_transfer.System.Run.Served.{IsServed, packets_given, Goes-IsLogged}

-- What makes the sender of a world an object of a class: `object` is the object, `list` the address
-- of `user_packets_list`. In each call that run makes the object may run; is_send_done and send are
-- its methods, and the assignment writes the list when the object is done with it. The user's
-- function and the timer do not touch the sender.
pub record IsOfClass (w : World) (parts : Parts) (m : SenderClass) (view : m.Object → Transfer)
    (list : ℕ) (object : w.State → m.Object) : Type 0 where
  pub polls :
      (x : w.State)
      → (o : m.Object) × m.Runs (object x) o
        × (m.is_send_done o ≡ (w.sender_is_send_done parts.sender x).0)
        × m.Runs o (object (w.sender_is_send_done parts.sender x).1)
  pub naps : (n : ℕ) (x : w.State) → m.Runs (object x) (object (w.microseconds_sleep n x))
  pub ticks :
      (x : w.State) → m.Runs (object x) (object (w.timer_sleep_to_next_tick parts.timer x).1)
  pub asks :
      (i : RealTimeInfo) (x : w.State)
      → m.Runs (object x) (object (w.user_function parts.user_app_func i x).2)
  pub assigns :
      (l : Packets) (x : w.State)
      → m.is_send_done (object x) ≡ true
      → m.Runs (object x) (object (w.assign_packets l x))
        × ((view (object (w.assign_packets l x))).lists list ≡ l)
  pub sends :
      (x : w.State)
      → m.Sends list
          (object x)
          (w.sender_send parts.sender x).0
          (object (w.sender_send parts.sender x).1)

module _ (w : World) (parts : Parts) (m : SenderClass) (payloads : List Packets → List ℕ)
    (Valid : m.Object → Type 0) (view : m.Object → Transfer)
    (Tracked : m.Object → m.Machine → Type 0) (Clean : m.Machine → Type 0)
    (promise : IsSender m payloads Valid view Tracked Clean) (list : ℕ)
    (object : w.State → m.Object) (k : IsOfClass w parts m view list object)
    (before : List Packets) where
  -- The object has accepted `given` since the start.
  pub record Holds (given : List Packets) (x : w.State) : Type 0 where
    pub valid : Valid (object x)
    pub accepted : (view (object x)).accepted ≡ before ++ given

  runs-Holds :
      {given : List Packets} {x y : w.State}
      → m.Runs (object x) (object y)
      → Holds given x
      → Holds given y
  runs-Holds r v =
      let (valid, same) = promise.runs v.valid r in
      record { valid = valid; accepted = same ∙ v.accepted }

  IsOfClass-IsServed :
      IsServed w parts Holds
        (λ x. m.is_send_done (object x) ≡ true)
        (λ l x. (view (object x)).lists list ≡ l)
  IsOfClass-IsServed = record {
    polls = λ x v.
        let (o, to_o, done_o, from_o) = k.polls x in
        let (valid, same) = promise.runs v.valid to_o in
        let (valid', same') = promise.runs valid from_o in
        (
          record { valid = valid'; accepted = same' ∙ same ∙ v.accepted },
          λ e. promise.stays_done valid from_o (done_o ∙ e),
          λ d. promise.stays_done valid from_o (promise.stays_done v.valid to_o d),
        );
    naps = λ n x v. runs-Holds (k.naps n x) v;
    ticks = λ x v. runs-Holds (k.ticks x) v;
    asks = λ i x v d. (runs-Holds (k.asks i x) v, promise.stays_done v.valid (k.asks i x) d);
    assigns = λ l x v d. let (r, there) = k.assigns l x d in (runs-Holds r v, there);
    sends = λ {given} {l} x v there e.
        let x' = (w.sender_send parts.sender x).1 in
        let call = subst (λ b. m.Sends list (object x) b (object x')) e (k.sends x) in
        let (valid, more) = promise.accepts v.valid call in
        record {
          valid = valid;
          accepted =
              more
              ∙ ap (λ z. z ++ (view (object x)).lists list ∷ []) v.accepted
              ∙ ap (λ z. (before ++ given) ++ z ∷ []) there
              ∙ append_assoc before given (l ∷ []);
        };
  }

  module _ (s : RealTimeSystem) (no_skip : s.allow_skip_mode ≡ false) where
    -- The system with any sender that keeps the contract IsSender. In a world whose
    -- sender is an object of such a class, without skip mode: after any number of rounds of run the
    -- object has accepted exactly the packets that the user's function has returned, each round's
    -- once and in order, after those from before run; what it has sent is a beginning of their
    -- bytes, and all of their bytes when is_send_done.
    pub run-promised :
        {n : ℕ} {c c' : Counters} {x x' : w.State} {l : List Call}
        → Valid (object x)
        → (view (object x)).accepted ≡ before
        → Goes (logged w) parts s n (c, (x, [])) (c', (x', l))
        → ((view (object x')).accepted ≡ before ++ packets_given l)
          × ((missing : List ℕ) × ((view (object x')).sent ++ missing
                ≡ payloads (before ++ packets_given l)))
          × (m.is_send_done (object x') ≡ true
              → (view (object x')).sent ≡ payloads (before ++ packets_given l))
    run-promised i e g =
        let v =
          Goes-IsLogged w parts IsOfClass-IsServed s no_skip g
            (record { valid = i; accepted = e ∙ sym (append-nil before) }) in
        let (missing, p) = promise.partial v.valid in
        (
          v.accepted,
          (missing, p ∙ ap payloads v.accepted),
          λ d. promise.done v.valid d ∙ ap payloads v.accepted,
        )
