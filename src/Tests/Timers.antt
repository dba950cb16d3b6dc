-- ===== src/Tests/Timers.antt =====
-- Runs and instances of the theorems on src/timers.
use real_time_data_transfer.Base.{ℕ, ◌^◌, ◌+◌, ◌*◌, ◌/◌, ◌<◌, ◌≤◌, ◌≡◌, refl, some, arith}
use real_time_data_transfer.Time.{Timespec, IsTime, timespec_diff_ns, add_ns_to_timespec, total_ns}
use real_time_data_transfer.Time.Laws.{timespec_diff-add_ns}
use real_time_data_transfer.Time.Sleep.{Process, nap, nanoseconds_sleep}
use real_time_data_transfer.Time.Sleep.Requests.{nap-IsRequest}
use real_time_data_transfer.Time.Sleep.Laws.{Slept, nanoseconds_sleep-returns}
use real_time_data_transfer.Timer.{next_tick, ticks, reset_count}
use real_time_data_transfer.Timer.Tick.{deadline, IsPeriod, next_tick-IsPeriod}
use real_time_data_transfer.Timer.Cycle.{ticks-cycle}
use real_time_data_transfer.Tests.Clock.{
  clock, clock-IsClock, process, running_timer, running_timer-IsRunning,
}

abbrev before_second : Timespec
before_second = record { tv_sec = 4; tv_nsec = 999999000 }

abbrev after_second : Timespec
after_second = record { tv_sec = 5; tv_nsec = 500 }

timespec_diff-add_ns_example :
    ((ns : ℕ)
      → total_ns before_second + ns < 2 ^ 64
      → timespec_diff_ns before_second (add_ns_to_timespec before_second ns) ≡ ns)
    × (total_ns before_second ≤ total_ns after_second
        → add_ns_to_timespec before_second (timespec_diff_ns before_second after_second)
          ≡ after_second)
timespec_diff-add_ns_example =
    timespec_diff-add_ns before_second after_second
      (record { normal = omega arith; range = omega arith })
      (record { normal = omega arith; range = omega arith })

nanoseconds_sleep-returns_example :
    (p' : Process) × (nanoseconds_sleep clock 20 5000000 (process 3) ≡ some p')
    × Slept clock (clock 3) 5000000 (process 3).naps p'
nanoseconds_sleep-returns_example =
    nanoseconds_sleep-returns clock-IsClock 8 20 5000000 (process 3) (omega arith) (omega arith)
      (omega arith)

-- A second and a half.
nap-IsRequest_example :
    IsTime (record { tv_sec = 1; tv_nsec = 500000000 })
    × (total_ns (record { tv_sec = 1; tv_nsec = 500000000 }) ≡ 1500000000)
    × ((t : Timespec)
        → IsTime t
        → total_ns t ≡ 1500000000
        → t ≡ record { tv_sec = 1; tv_nsec = 500000000 })
    × ((t : Timespec) → IsTime t → nap (total_ns t) ≡ t)
nap-IsRequest_example = nap-IsRequest 1500000000 (omega arith)

next_tick-IsPeriod_example : IsPeriod running_timer (next_tick running_timer)
next_tick-IsPeriod_example = next_tick-IsPeriod running_timer running_timer-IsRunning (omega arith)

ticks-cycle_example :
    ((ticks 8388608 running_timer).sleep_counter ≡ 1)
    × (total_ns (ticks 8388608 running_timer).start_time ≡ 0 + 10000000000 * reset_count / 1000 + 1)
    × (deadline (ticks 8388608 running_timer) ≡ 10000001 + 10000000000 * reset_count / 1000 + 1)
ticks-cycle_example =
    ticks-cycle running_timer running_timer-IsRunning refl 8388607 refl (omega arith)
