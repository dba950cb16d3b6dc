-- ===== src/Tests/Clock.antt =====
-- A clock for the tests on src/timers: a millisecond from reading to reading, for one second.
use Prim.Native.Nat.{min}
use real_time_data_transfer.Base.{ℕ, ◌*◌, [], refl, false, true, arith}
use real_time_data_transfer.Errors.{new_error}
use real_time_data_transfer.Time.{Timespec}
use real_time_data_transfer.Time.Sleep.{Process}
use real_time_data_transfer.Time.Sleep.Laws.{IsClock}
use real_time_data_transfer.Timer.{Timer}
use real_time_data_transfer.Timer.Tick.{IsRunning}
use real_time_data_transfer.Timer.Waking.{IsPaced}

abbrev pub clock : ℕ → Timespec
clock i = record { tv_sec = 0; tv_nsec = min (i * 1000000) 999999999 }

pub clock-IsClock : IsClock clock
clock-IsClock = record {
  reading = λ i. record { normal = omega arith; range = omega arith };
  monotonic = λ i. omega arith;
}

-- A process that has read the clock `n` times.
abbrev pub process : ℕ → Process
process n = record { reads = n; naps = [] }

abbrev pub stopped_timer : Timer
stopped_timer = record {
  start_time = clock 0;
  frequency = 65535;
  original_sleep_time_ps = 0;
  sleep_time_ns = 0;
  timer_started = false;
  sleep_counter = 0;
  error_handler = new_error "FreeWaitTimer";
}

-- A timer at 100 ticks a second, started at reading 0.
abbrev pub running_timer : Timer
running_timer = record {
  start_time = clock 0;
  frequency = 100;
  original_sleep_time_ps = 10000000000;
  sleep_time_ns = 10000001;
  timer_started = true;
  sleep_counter = 1;
  error_handler = new_error "FreeWaitTimer";
}

pub running_timer-IsRunning : IsRunning running_timer
running_timer-IsRunning = record {
  supported = omega arith;
  period = refl;
  counter = omega arith;
  target = refl;
  started = refl;
  start_valid = clock-IsClock.reading 0;
}

pub running_timer-IsPaced : IsPaced clock running_timer (process 1)
running_timer-IsPaced = record { running = running_timer-IsRunning; begun = omega arith }
