-- ===== src/Tests/Worlds.antt =====
-- Worlds for the tests on src/systems: the state is the time slept, where a sleep
-- adds its argument, in whatever unit.
use real_time_data_transfer.Base.{ℕ, ◌+◌, Bool, true, some, []}
use real_time_data_transfer.System.{RealTimeSystem, World, real_time_system}
use real_time_data_transfer.System.Run.{Parts}

-- All calls succeed, but for the sender: `done` is what its poll says, `accepts` what send returns.
-- The user's function gives no packets and never stops the system.
abbrev pub world : Bool → Bool → World
world done accepts = record {
  State = ℕ;
  mlockall = λ x. (true, x);
  sched_setscheduler = λ x. (true, x);
  sched_setaffinity = λ x. (true, x);
  timer_initialize = λ t x. (true, x);
  timer_set_frequency = λ t f x. (true, x);
  timer_start = λ t x. (true, x);
  timer_sleep_to_next_tick = λ t x. (true, x);
  timer_get_error = λ t x. ("", x);
  sender_initialize = λ s x. (true, x);
  sender_send = λ s x. (accepts, x);
  sender_is_send_done = λ s x. (done, x);
  sender_end = λ s x. x;
  sender_get_error = λ s x. ("refused", x);
  assign_packets = λ l x. x;
  user_function = λ f i x. (i, [], x);
  milliseconds_sleep = λ n x. x + n;
  microseconds_sleep = λ n x. x + n;
}

abbrev pub parts : Parts
parts = record { timer = 1; sender = 2; user_app_func = 3 }

-- A system at 2 ticks a second that skips packets.
abbrev pub slow_system : RealTimeSystem
slow_system = record real_time_system {
  timer = some 1;
  sender = some 2;
  user_app_func = some 3;
  frequency = 2;
  allow_skip_mode = true;
  initialized = true;
  ms_tolerance = 1;
}
