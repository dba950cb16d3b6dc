-- ===== src/Tests/Naps.antt =====
-- src/systems/real_time_system.cpp: a system whose sender is done with a list after two naps.
use real_time_data_transfer.Base.{◌==◌, ℕ, ◌-◌, ◌≤◌, ◌≡◌, refl, true, false, none, [], arith}
use real_time_data_transfer.System.{World}
use real_time_data_transfer.System.Run.{Counters, Goes, first_counters, run}
use real_time_data_transfer.System.Run.Healthy.{IsHealthy, run-lasts}
use real_time_data_transfer.Tests.Worlds.{parts, slow_system}

-- The state is the number of naps that the sender still needs.
abbrev napping : World
napping = record {
  State = ℕ;
  mlockall = λ x. (true, x);
  sched_setscheduler = λ x. (true, x);
  sched_setaffinity = λ x. (true, x);
  timer_initialize = λ t x. (true, x);
  timer_set_frequency = λ t f x. (true, x);
  timer_start = λ t x. (true, x);
  timer_sleep_to_next_tick = λ t x. (true, x);
  timer_get_error = λ t x. ("", x);
  sender_initialize = λ s x. (true, x);
  sender_send = λ s x. (true, 2);
  sender_is_send_done = λ s x. (x == 0, x);
  sender_end = λ s x. x;
  sender_get_error = λ s x. ("", x);
  assign_packets = λ l x. x;
  user_function = λ f i x. (i, [], x);
  milliseconds_sleep = λ n x. x - 1;
  microseconds_sleep = λ n x. x - 1;
}

none_left : (x : ℕ) → (x == 0) ≡ true → x ≤ 0
none_left x e = ground arith

is_done : (x : ℕ) → x ≤ 0 → (x == 0) ≡ true
is_done x h = ground arith

napping-IsHealthy : IsHealthy napping parts 2 (λ n x. x ≤ n)
napping-IsHealthy = record {
  polls = λ n x h. (h, none_left x);
  done = is_done;
  naps = λ n x h. omega arith;
  asks = λ i x e h. (e, h);
  assigns = λ l x h. h;
  sends = λ x h. (refl, omega arith);
  ticks = λ x h. (refl, h);
}

run-lasts_example :
    ((fuel : ℕ) → run napping parts fuel slow_system 0 ≡ none)
    × ((n : ℕ)
        → (c' : Counters) × (x' : ℕ) × Goes napping parts
            (record slow_system { initialized = false })
            n
            (first_counters napping parts, 0)
            (c', x')
          × (c'.skipped_count ≡ 0))
run-lasts_example =
    run-lasts napping parts slow_system (λ n x. x ≤ n) napping-IsHealthy 0 refl (omega arith)
      (omega arith) refl (omega arith)
