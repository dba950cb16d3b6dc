-- ===== src/System/Setup.antt =====
-- src/systems/real_time_system.cpp: initialize and convert_rt_thread.
pub mod Outcome
use real_time_data_transfer.Base.{
  ℕ, ◌/◌, Bool, true, false, not, String, Option, none, some, ◌==◌, leb, if◌then◌else◌, sub64,
}
use real_time_data_transfer.System.{RealTimeSystem, World, with_error}

-- std::min: the first argument where the two are equal.
abbrev pub std_min : ℕ → ℕ → ℕ
std_min a b = if leb a b then a else b

-- adjust tolerance: `min(ms_tolerance_, (1000/frequency_) - 5)`.
abbrev pub adjust_tolerance : RealTimeSystem → ℕ
adjust_tolerance s = std_min s.ms_tolerance (sub64 (1000 / s.frequency) 5)

module _ (w : World) where
  open w use {
    State, mlockall, sched_setscheduler, sched_setaffinity, timer_initialize, timer_set_frequency,
    timer_get_error, sender_initialize, sender_get_error,
  }

  -- The value that a method returns, the system and the world after it.
  abbrev pub Returned : Type 0
  Returned = Bool × RealTimeSystem × State

  abbrev pub fail : String → RealTimeSystem → State → Returned
  fail msg s world = (false, with_error msg s, world)

  -- `error_handler_.set_error(x->get_error()); return false;`
  abbrev pub fail_with : String × State → RealTimeSystem → Returned
  fail_with (msg, world) s = fail msg s world

  unfoldable pub convert_rt_thread : RealTimeSystem → State → Returned
  convert_rt_thread s w0 =
      let (locked, w1) = mlockall w0 in
      let (scheduled, w2) = sched_setscheduler w1 in
      let (pinned, w3) = sched_setaffinity w2 in
      if not locked
      then fail "mlockall failed" s w1
      else if not scheduled
      then fail "Can't set the process scheduler to FIFO / set priority to 99" s w2
      else if not pinned
      then fail "Can't stick the process to CPU0" s w3
      else (true, s, w3)

  -- The part of initialize behind the checks for data not given.
  unfoldable pub initialize_components : ℕ → ℕ → RealTimeSystem → State → Returned
  initialize_components timer sender s w0 =
      let (converted, s1, w1) = convert_rt_thread s w0 in
      let (timer_ready, w2) = timer_initialize timer w1 in
      let (supported, w3) = timer_set_frequency timer s.frequency w2 in
      let (sender_ready, w4) = sender_initialize sender w3 in
      if not converted
      then (false, s1, w1)
      else if not timer_ready
      then fail_with (timer_get_error timer w2) s1
      else if not supported
      then fail_with (timer_get_error timer w3) s1
      else if not sender_ready
      then fail_with (sender_get_error sender w4) s1
      else (true, record s1 { ms_tolerance = adjust_tolerance s1; initialized = true }, w4)

  -- The checks for data not given, of the function, the timer and the sender in this order.
  unfoldable pub check_given : Option ℕ → Option ℕ → Option ℕ → RealTimeSystem → State → Returned
  check_given none timer sender s w0 = fail "Null user Function provided" s w0
  check_given (some fn) none sender s w0 = fail "Null Timer provided" s w0
  check_given (some fn) (some timer) none s w0 = fail "Null Sender provided" s w0
  check_given (some fn) (some timer) (some sender) s w0 =
      if s.frequency == 0
      then fail "Not provided frequency" s w0
      else initialize_components timer sender s w0

  unfoldable pub initialize : RealTimeSystem → State → Returned
  unfolding check_given
  initialize s w0 = check_given s.user_app_func s.timer s.sender s w0
