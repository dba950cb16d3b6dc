-- ===== src/Tests/Paces.antt =====
-- src/systems/real_time_system.cpp with src/timers/busy_wait_timer.cpp: two rounds of a system at
-- 100 ticks a second.
use real_time_data_transfer.Base.{
  ℕ, ◌+◌, ◌*◌, ◌≤◌, ◌≡◌, refl, ap, Bool, true, false, Option, none, some, [], arith,
}
use real_time_data_transfer.Time.{timespec_diff_ns, total_ns}
use real_time_data_transfer.Time.Sleep.{Process}
use real_time_data_transfer.Timer.{Timer, next_tick}
use real_time_data_transfer.Timer.Tick.{deadline}
use real_time_data_transfer.Timer.Waking.{busy_wait}
use real_time_data_transfer.Timer.BusyWait
use real_time_data_transfer.Timer.Classes.{busy_wait_class, classes-IsTimer}
use real_time_data_transfer.Timer.Shared.{put_result}
use real_time_data_transfer.System.{World}
use real_time_data_transfer.System.Run.{
  Counters, use_tolerance, round, first_counters, again, stands, goes_round,
}
use real_time_data_transfer.System.Run.Timed.{IsTimed}
use real_time_data_transfer.System.Run.Pace.{run-paced}
use real_time_data_transfer.Tests.Clock.{
  clock, clock-IsClock, process, running_timer, running_timer-IsPaced,
}
use real_time_data_transfer.Tests.Worlds.{parts, slow_system}

abbrev rested : Timer × Process → Option (Bool × Timer × Process) → Bool × (Timer × Process)
rested x none = (false, x)
rested x (some (b, t, p)) = (b, (t, p))

rested-true :
    (x : Timer × Process) (o : Option (Bool × Timer × Process))
    → (rested x o).0 ≡ true
    → put_result Timer (λ t. t) (λ t s. t) BusyWait.sleep_to_next_tick x.0 o
      ≡ some (true, (rested x o).1.0, (rested x o).1.1)
rested-true x none e = cc
rested-true x (some (b, t, p)) e = ap (λ (d : Bool). some (d, t, p)) e

abbrev slept : Timer × Process → Bool × (Timer × Process)
slept (t, p) = rested (t, p) (BusyWait.sleep_to_next_tick clock 100 t p)

-- The sender is done at each poll, and takes every list.
abbrev timed : World
timed = record {
  State = Timer × Process;
  mlockall = λ x. (true, x);
  sched_setscheduler = λ x. (true, x);
  sched_setaffinity = λ x. (true, x);
  timer_initialize = λ t x. (true, x);
  timer_set_frequency = λ t f x. (true, x);
  timer_start = λ t x. (true, x);
  timer_sleep_to_next_tick = λ t x. slept x;
  timer_get_error = λ t x. ("", x);
  sender_initialize = λ s x. (true, x);
  sender_send = λ s x. (true, x);
  sender_is_send_done = λ s x. (true, x);
  sender_end = λ s x. x;
  sender_get_error = λ s x. ("", x);
  assign_packets = λ l x. x;
  user_function = λ f i x. (i, [], x);
  milliseconds_sleep = λ n x. x;
  microseconds_sleep = λ n x. x;
}

timed-IsTimed : IsTimed timed parts busy_wait_class clock (λ x. x)
timed-IsTimed = record {
  polls = λ x. (refl, omega arith);
  naps = λ n x. (refl, omega arith);
  asks = λ i x. (refl, omega arith);
  assigns = λ l x. (refl, omega arith);
  sends = λ x. (refl, omega arith);
  ticks = λ x e. (100, rested-true x (BusyWait.sleep_to_next_tick clock 100 x.0 x.1) e);
}

abbrev second_timer : Timer
second_timer = record running_timer { sleep_counter = 2; sleep_time_ns = 20000001 }

abbrev third_timer : Timer
third_timer = record running_timer { sleep_counter = 3; sleep_time_ns = 30000001 }

abbrev numbered : ℕ → Counters
numbered n = record { sequence_number = n; skipped_count = 0 }

first_round :
    round timed parts slow_system (first_counters timed parts) (running_timer, process 1)
    ≡ again (numbered 0, (second_timer, process 12))
unfolding round use_tolerance BusyWait.sleep_to_next_tick busy_wait timespec_diff_ns next_tick
first_round = refl

second_round :
    round timed parts slow_system (numbered 0) (second_timer, process 12)
    ≡ again (numbered 1, (third_timer, process 22))
unfolding round use_tolerance BusyWait.sleep_to_next_tick busy_wait timespec_diff_ns next_tick
second_round = refl

run-paced_example :
    (y : Timer × Process) × (slept y ≡ (true, (third_timer, process 22)))
    × (last : ℕ) × (22 ≡ last + 1)
    × (total_ns (clock y.1.reads) ≤ deadline y.0)
    × (deadline y.0 ≤ total_ns (clock last))
    × (10000001 + 1 * 10000000 ≤ deadline y.0)
    × (deadline y.0 ≤ 10000001 + 1 * 10000001)
    × (deadline y.0 + 10000000 ≤ deadline third_timer)
    × (deadline third_timer ≤ deadline y.0 + 10000000 + 1)
    × (10000001 + 2 * 10000000 ≤ deadline third_timer)
    × (deadline third_timer ≤ 10000001 + 2 * 10000001)
run-paced_example =
    run-paced timed parts busy_wait_class clock (λ x. x) timed-IsTimed slow_system (λ t. t)
      classes-IsTimer.0 clock-IsClock running_timer-IsPaced
      (goes_round first_round (goes_round second_round stands))
