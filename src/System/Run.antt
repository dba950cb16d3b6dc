-- ===== src/System/Run.antt =====
-- src/systems/real_time_system.cpp: run, a tick at a time.
pub mod Ends
pub mod Disconnect
pub mod Log
pub mod Protocol
pub mod Concrete
pub mod Served
pub mod Delivers
pub mod Promised
pub mod Received
pub mod Timed
pub mod Pace
pub mod Skipped
pub mod Healthy
use real_time_data_transfer.Base.{
  ℕ, zero, suc, ◌+◌, ◌-◌, ◌/◌, ◌^◌, Bool, true, false, not, ◌&&◌, Option, none, some, ◌==◌,
  if◌then◌else◌, ◌≡◌, add64, mul64,
}
use real_time_data_transfer.System.{RealTimeSystem, World, with_error}
use real_time_data_transfer.System.Info.{RealTimeInfo, real_time_info, is_system_stopped}
use real_time_data_transfer.System.Setup.{Returned, fail, fail_with}

-- The local variables of the loop that outlive a round. The system's fields do not change in it,
-- but for the error handler on the way out.
pub record Counters : Type 0 where
  pub sequence_number : ℕ
  pub skipped_count : ℕ

-- A round ends in another round or in a return.
pub data Round (A B : Type 0) : Type 0 where
  again : A → Round A B
  return : B → Round A B

-- The objects that the system points to.
pub record Parts : Type 0 where
  pub timer : ℕ
  pub sender : ℕ
  pub user_app_func : ℕ

module _ (w : World) (parts : Parts) where
  open w use {
    State, timer_start, timer_sleep_to_next_tick, timer_get_error, sender_send, sender_is_send_done,
    sender_end, sender_get_error, assign_packets, user_function, microseconds_sleep,
  }
  open parts use {timer, sender, user_app_func}

  -- `for(; used_tolerated_time < ms_tolerance_*2; used_tolerated_time++)`, with the rounds left.
  unfoldable pub use_tolerance : ℕ → ℕ → State → ℕ × State
  use_tolerance zero used w0 = (used, w0)
  use_tolerance (suc left) used w0 =
      let (done, w1) = sender_is_send_done sender w0 in
      let rest = use_tolerance left (used + 1) (microseconds_sleep 500 w1) in
      if done then (used, w1) else rest

  abbrev pub end_round : Bool → RealTimeSystem → State → Round (Counters × State) (Returned w)
  end_round value s w0 = return (value, s, sender_end sender w0)

  -- `sleep_to_next_tick` at the end of a round.
  unfoldable pub next_round :
      RealTimeSystem → Counters → State → Round (Counters × State) (Returned w)
  next_round s c w0 =
      let (in_time, w1) = timer_sleep_to_next_tick timer w0 in
      if in_time
      then again (c, w1)
      else end_round false
          (with_error
            "Failed to return from the sender object in the needed time - this bug related to the sender object not to the size of the payload"
            s)
          w1

  -- The call of the user's function, whose packets go to `user_packets_list`.
  abbrev pub ask_user : RealTimeInfo → State → RealTimeInfo × State
  ask_user info w0 =
      let (info', packets, w1) = user_function user_app_func info w0 in
      (info', assign_packets packets w1)

  -- The round in which the packets are skipped.
  unfoldable pub skip_round :
      RealTimeSystem → Counters → ℕ → State → Round (Counters × State) (Returned w)
  unfolding next_round
  skip_round s c used w0 =
      let (info, w1) = ask_user (real_time_info c.sequence_number true (used / 2) false) w0 in
      if is_system_stopped info
      then end_round true s w1
      else next_round s (record c { skipped_count = add64 c.skipped_count 1 }) w1

  -- The round in which the packets are sent.
  unfoldable pub send_round :
      RealTimeSystem → Counters → ℕ → State → Round (Counters × State) (Returned w)
  unfolding next_round
  send_round s c used w0 =
      let (info, w1) = ask_user (real_time_info c.sequence_number false used false) w0 in
      let (sent, w2) = sender_send sender w1 in
      let (msg, w3) = sender_get_error sender w2 in
      if is_system_stopped info
      then end_round true s w1
      else if not sent
      then end_round false (with_error msg s) w3
      else next_round s (record c { skipped_count = 0 }) w2

  -- What follows the test of the skip counter.
  unfoldable pub serve_round :
      RealTimeSystem → Counters → State → Round (Counters × State) (Returned w)
  unfolding skip_round send_round
  serve_round s c w0 =
      let (used, w1) = use_tolerance (mul64 s.ms_tolerance 2) 0 w0 in
      let (done1, w2) = sender_is_send_done sender w1 in
      let (done2, w3) = sender_is_send_done sender w2 in
      if not done1 && not s.allow_skip_mode
      then end_round false (with_error "Failed to send the data in the required time" s) w2
      else if not done2 && s.allow_skip_mode
      then skip_round s c used w3
      else send_round s c used w3

  -- One round of `while(1)`.
  unfoldable pub round : RealTimeSystem → Counters → State → Round (Counters × State) (Returned w)
  unfolding serve_round
  round s c0 w0 =
      let c = record c0 { sequence_number = add64 c0.sequence_number 1 } in
      if c.skipped_count == mul64 s.frequency 3
      then end_round false (with_error "The client disconnected." s) w0
      else serve_round s c w0

  -- `n` rounds that all go on.
  pub data Goes (s : RealTimeSystem) : ℕ → Counters × State → Counters × State → Type 0 where
    stands : {p : Counters × State} → Goes s 0 p p
    goes_round :
        {n : ℕ} {c c' : Counters} {x x' : State} {q : Counters × State}
        → round s c x ≡ again (c', x')
        → Goes s n (c', x') q
        → Goes s (suc n) (c, x) q

  -- The loop; `none` when it is still going after `fuel` rounds.
  unfoldable pub rounds : ℕ → RealTimeSystem → Counters → State → Option (Returned w)
  rounds zero s c w0 = none
  rounds (suc fuel) s c w0 = elim (round s c w0) [
    | again (c', w1) ↦ rounds fuel s c' w1
    | return r ↦ some r
  ]

  -- `sequence_number = -1`.
  abbrev pub first_counters : Counters
  first_counters = record { sequence_number = 2 ^ 64 - 1; skipped_count = 0 }

  unfoldable pub run : ℕ → RealTimeSystem → State → Option (Returned w)
  unfolding rounds
  run fuel s0 w0 =
      let s = record s0 { initialized = false } in
      let (started, w1) = timer_start timer w0 in
      if not s0.initialized
      then some (fail w "System not initialized yet." s0 w0)
      else if not started
      then some (fail_with w (timer_get_error timer w1) s)
      else rounds fuel s first_counters w1
