-- ===== src/System/Run/Timed.antt =====
-- src/systems/real_time_system.cpp with the timers of src/timers: a system whose timer is one of
-- these, and what its rounds do to the timer.
use real_time_data_transfer.Base.{
  ◌==◌, if_elim, add64, mul64, ℕ, zero, suc, ◌+◌, ◌/◌, ◌≤◌, ◌≡◌, refl, ◌∙◌, true, false, not, ◌&&◌,
  some, arith,
}
use real_time_data_transfer.Packets.{Packets}
use real_time_data_transfer.Time.{Timespec}
use real_time_data_transfer.Time.Sleep.{Process}
use real_time_data_transfer.Timer.Interface.{TimerClass}
use real_time_data_transfer.System.{RealTimeSystem, World}
use real_time_data_transfer.System.Info.{RealTimeInfo, real_time_info, is_system_stopped}
use real_time_data_transfer.System.Setup.{Returned}
use real_time_data_transfer.System.Run.{
  Counters, Round, Parts, use_tolerance, next_round, ask_user, skip_round, send_round, serve_round,
  round, again, return,
}

-- The timer's members are the same, and the clock has been read as often or more often.
abbrev pub Lapses : {M : Type 0} → M × Process → M × Process → Type 0
Lapses x y = (y.0 ≡ x.0) × (x.1.reads ≤ y.1.reads)

-- What makes the timer of a world an object of a class: `view` is its members and the process. The
-- calls that run makes of others leave the timer alone, and sleep_to_next_tick is the method's.
pub record IsTimed (w : World) (parts : Parts) (m : TimerClass) (clock : ℕ → Timespec)
    (view : w.State → m.Members × Process) : Type 0 where
  pub polls : (x : w.State) → Lapses (view x) (view (w.sender_is_send_done parts.sender x).1)
  pub naps : (n : ℕ) (x : w.State) → Lapses (view x) (view (w.microseconds_sleep n x))
  pub asks :
      (i : RealTimeInfo) (x : w.State)
      → Lapses (view x) (view (w.user_function parts.user_app_func i x).2)
  pub assigns : (l : Packets) (x : w.State) → Lapses (view x) (view (w.assign_packets l x))
  pub sends : (x : w.State) → Lapses (view x) (view (w.sender_send parts.sender x).1)
  pub ticks :
      (x : w.State)
      → (w.timer_sleep_to_next_tick parts.timer x).0 ≡ true
      → (fuel : ℕ) × (m.sleep_to_next_tick clock fuel (view x).0 (view x).1
          ≡ some (
            true,
            (view (w.timer_sleep_to_next_tick parts.timer x).1).0,
            (view (w.timer_sleep_to_next_tick parts.timer x).1).1,
          ))

module _ (w : World) (parts : Parts) (m : TimerClass) (clock : ℕ → Timespec)
    (view : w.State → m.Members × Process) (k : IsTimed w parts m clock view)
    (s : RealTimeSystem) where
  abbrev pub Later : w.State → w.State → Type 0
  Later x y = Lapses (view x) (view y)

  Later-then : {x y z : w.State} → Later x y → Later y z → Later x z
  Later-then (e, le) (e', le') = (e' ∙ e, omega arith)

  -- A round that goes on ends with a call of sleep_to_next_tick that returns true.
  pub data Ticked (x : w.State) : Round (Counters × w.State) (Returned w) → Type 0 where
    ticked :
        {c : Counters} (y : w.State)
        → Later x y
        → (w.timer_sleep_to_next_tick parts.timer y).0 ≡ true
        → Ticked x (again (c, (w.timer_sleep_to_next_tick parts.timer y).1))
    ended : {r : Returned w} → Ticked x (return r)

  use_tolerance-Later :
      (left used : ℕ) (x y : w.State) → Later x y → Later x (use_tolerance w parts left used y).1
  unfolding use_tolerance
  use_tolerance-Later zero used x y h = h
  use_tolerance-Later (suc left) used x y h =
      let z = (w.sender_is_send_done parts.sender y).1 in
      let g : Later x z = Later-then h (k.polls y) in
      if_elim (λ (r : ℕ × w.State). Later x r.1) (w.sender_is_send_done parts.sender y).0 (λ _. g)
        (λ _.
          use_tolerance-Later left (used + 1) x (w.microseconds_sleep 500 z)
            (Later-then g (k.naps 500 z)))

  next_round-Ticked :
      (s' : RealTimeSystem) (c : Counters) (x y : w.State)
      → Later x y
      → Ticked x (next_round w parts s' c y)
  unfolding next_round
  next_round-Ticked s' c x y h =
      if_elim (Ticked x) (w.timer_sleep_to_next_tick parts.timer y).0 (λ e. ticked y h e)
        (λ _. ended)

  ask_user-Later : (i : RealTimeInfo) (x y : w.State) → Later x y → Later x (ask_user w parts i y).1
  ask_user-Later i x y h =
      let q = w.user_function parts.user_app_func i y in
      Later-then h (Later-then (k.asks i y) (k.assigns q.1 q.2))

  skip_round-Ticked :
      (c : Counters) (used : ℕ) (x y : w.State)
      → Later x y
      → Ticked x (skip_round w parts s c used y)
  unfolding skip_round
  skip_round-Ticked c used x y h =
      let i = real_time_info c.sequence_number true (used / 2) false in
      if_elim (Ticked x) (is_system_stopped (ask_user w parts i y).0) (λ _. ended)
        (λ _. next_round-Ticked s _ x _ (ask_user-Later i x y h))

  send_round-Ticked :
      (c : Counters) (used : ℕ) (x y : w.State)
      → Later x y
      → Ticked x (send_round w parts s c used y)
  unfolding send_round
  send_round-Ticked c used x y h =
      let i = real_time_info c.sequence_number false used false in
      let z = (ask_user w parts i y).1 in
      if_elim (Ticked x) (is_system_stopped (ask_user w parts i y).0) (λ _. ended)
        (λ _.
          if_elim (Ticked x) (not (w.sender_send parts.sender z).0) (λ _. ended)
            (λ _. next_round-Ticked s _ x _ (Later-then (ask_user-Later i x y h) (k.sends z))))

  pub round-Ticked : (c : Counters) (x : w.State) → Ticked x (round w parts s c x)
  unfolding round serve_round
  round-Ticked c x =
      let c1 = record c { sequence_number = add64 c.sequence_number 1 } in
      let r = use_tolerance w parts (mul64 s.ms_tolerance 2) 0 x in
      let (done1, x2) = w.sender_is_send_done parts.sender r.1 in
      let (done2, x3) = w.sender_is_send_done parts.sender x2 in
      let h : Later x x3 =
        Later-then (use_tolerance-Later (mul64 s.ms_tolerance 2) 0 x x (refl, omega arith))
          (Later-then (k.polls r.1) (k.polls x2)) in
      if_elim (Ticked x) (c.skipped_count == mul64 s.frequency 3) (λ _. ended)
        (λ _.
          if_elim (Ticked x) (not done1 && not s.allow_skip_mode) (λ _. ended)
            (λ _.
              if_elim (Ticked x) (not done2 && s.allow_skip_mode)
                (λ _. skip_round-Ticked c1 r.0 x x3 h) (λ _. send_round-Ticked c1 r.0 x x3 h)))

  pub Ticked-again :
      {x : w.State} {c : Counters} {x' : w.State}
      → Ticked x (again (c, x'))
      → (y : w.State) × Later x y
        × ((w.timer_sleep_to_next_tick parts.timer y).0 ≡ true)
        × (x' ≡ (w.timer_sleep_to_next_tick parts.timer y).1)
  Ticked-again (ticked y h e) = (y, h, e, refl)
