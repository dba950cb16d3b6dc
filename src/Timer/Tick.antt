-- ===== src/Timer/Tick.antt =====
-- src/timers: the schedule of a running timer. Every target stays exact and within 64 bits, and
-- successive targets are one period apart, the reset of the counter included.
use real_time_data_transfer.Base.{
  ℕ, false, ◌==◌, ◌+◌, ◌*◌, ◌/◌, ◌^◌, ◌≤◌, ◌<◌, ◌≡◌, refl, inl, inr, true, some, arith, Bool-cases,
  add64, ==_iff,
}
use real_time_data_transfer.Time.{Timespec, total_ns, IsTime}
use real_time_data_transfer.Time.Sleep.{Process, clock_gettime}
use real_time_data_transfer.Time.Sleep.Laws.{IsClock}
use real_time_data_transfer.Time.Laws.{add_ns_to_timespec-exact}
use real_time_data_transfer.Timer.{
  Timer, target_ns, set_frequency, start_timer, prevent_overflow, next_tick, reset_count,
}

-- A timer that runs at a supported frequency.
pub record IsRunning (t : Timer) : Type 0 where
  pub supported : (1 ≤ t.frequency) × (t.frequency ≤ 100)
  pub period : t.original_sleep_time_ps ≡ 1000000000000 / t.frequency
  pub counter : (1 ≤ t.sleep_counter) × (t.sleep_counter ≤ reset_count)
  pub target : t.sleep_time_ns ≡ t.original_sleep_time_ps * t.sleep_counter / 1000 + 1
  pub started : t.timer_started ≡ true
  pub start_valid : IsTime t.start_time

-- The instant of the tick that the timer waits for.
abbrev pub deadline : Timer → ℕ
deadline t = total_ns t.start_time + t.sleep_time_ns

product-le : (ps c : ℕ) → ps ≤ 1000000000000 → c ≤ 8388608 → ps * c ≤ 8388608000000000000
product-le ps c h k = grind arith

-- A target is computed without overflow up to the reset of the counter.
pub target_ns-exact :
    (ps c : ℕ) → ps ≤ 1000000000000 → c ≤ 8388608 → target_ns ps c ≡ ps * c / 1000 + 1
target_ns-exact ps c h k = omega (arith, product-le ps c h k)

pub period-le : (f : ℕ) → 1 ≤ f → 1000000000000 / f ≤ 1000000000000
period-le f h = grind arith

-- The time to sleep fits a word.
pub sleep-fits : {t : Timer} → IsRunning t → t.sleep_time_ns < 2 ^ 64
sleep-fits {t} r =
    let ps_le : t.original_sleep_time_ps ≤ 1000000000000 =
      omega (arith, period-le t.frequency r.supported.0, r.period) in
    omega (arith, r.target, product-le t.original_sleep_time_ps t.sleep_counter ps_le r.counter.1)

-- The next state of a running timer keeps the invariant, and its deadline is one period later:
-- `original_sleep_time_ps / 1000` nanoseconds, or one more for rounding.
pub record IsPeriod (t next : Timer) : Type 0 where
  pub running : IsRunning next
  pub earliest : deadline t + t.original_sleep_time_ps / 1000 ≤ deadline next
  pub latest : deadline next ≤ deadline t + t.original_sleep_time_ps / 1000 + 1
  pub begun : total_ns next.start_time ≤ deadline t

module _ (t : Timer) (r : IsRunning t) (fits : deadline t < 2 ^ 64) where
  open t use {original_sleep_time_ps as ps, sleep_counter as count}

  ps-le : ps ≤ 1000000000000
  ps-le = omega (arith, period-le t.frequency r.supported.0, r.period)

  next_target : (c : ℕ) → c ≤ 8388608 → target_ns ps c ≡ ps * c / 1000 + 1
  next_target c h = target_ns-exact ps c ps-le h

  counted : (t.sleep_counter == reset_count) ≡ false → IsPeriod t (next_tick t)
  unfolding next_tick
  counted e =
      let below : count ≤ 8388607 = ground (arith, e, r.counter) in
      let step : add64 count 1 ≡ count + 1 = omega arith in
      let target = next_target (count + 1) (omega arith) in
      rw (e, prevent_overflow)
        (rw step (record {
          running = record {
            supported = r.supported;
            period = r.period;
            counter = omega arith;
            target = omega (arith, target);
            started = r.started;
            start_valid = r.start_valid;
          };
          earliest = omega (arith, target, r.target);
          latest = omega (arith, target, r.target);
          begun = omega arith;
        }))

  restarted : (t.sleep_counter == reset_count) ≡ true → IsPeriod t (next_tick t)
  unfolding next_tick
  restarted e =
      let full : count ≡ 8388608 = (==_iff count reset_count).0 e in
      let target = next_target 1 (omega arith) in
      let (moved, valid) =
        add_ns_to_timespec-exact t.start_time t.sleep_time_ns r.start_valid fits in
      rw (e, prevent_overflow)
        (record {
          running = record {
            supported = r.supported;
            period = r.period;
            counter = omega arith;
            target = omega (arith, target);
            started = r.started;
            start_valid = valid;
          };
          earliest = omega (arith, target, moved);
          latest = omega (arith, target, moved);
          begun = omega (arith, moved);
        })

  -- One step of the schedule, the reset of the counter at 2 ^ 23 included, keeps a running timer
  -- valid, so that no product ever wraps, and moves its deadline by one period of
  -- `original_sleep_time_ps / 1000` nanoseconds, or one more for rounding; the deadline it leaves
  -- is below 2 ^ 64 nanoseconds.
  pub next_tick-IsPeriod : IsPeriod t (next_tick t)
  next_tick-IsPeriod = elim (Bool-cases (t.sleep_counter == reset_count)) [
    | inl e ↦ restarted e
    | inr e ↦ counted e
  ]

-- What set_frequency and start_timer make of a timer.
abbrev pub with_frequency : ℕ → Timer → Timer
with_frequency f t = record t { frequency = f; original_sleep_time_ps = 1000000000000 / f }

abbrev pub started_at : Timespec → Timer → Timer
started_at start t = record t {
  start_time = start;
  timer_started = true;
  sleep_counter = 1;
  sleep_time_ns = t.original_sleep_time_ps / 1000 + 1;
}

first_target : (ps : ℕ) → ps ≤ 1000000000000 → target_ns ps 1 ≡ ps / 1000 + 1
first_target ps h = omega arith

-- For a frequency from 1 to 100, on a timer that is not started: set_frequency and then start_timer
-- succeed and leave a running timer, whose first deadline is one period, rounded up to the next
-- nanosecond, after the reading that start_timer took.
pub start_timer-IsRunning :
    {clock : ℕ → Timespec}
    → IsClock clock
    → (f : ℕ) (t : Timer) (p : Process) → 1 ≤ f
    → f ≤ 100
    → t.timer_started ≡ false
    → (v : Timer) × (set_frequency f t ≡ some (true, with_frequency f t))
      × (start_timer clock (with_frequency f t) p ≡ (true, v, (clock_gettime clock p).1))
      × IsRunning v
      × (v.frequency ≡ f)
      × (v.start_time ≡ clock p.reads)
      × (deadline v ≡ total_ns (clock p.reads) + 1000000000000 / f / 1000 + 1)
unfolding set_frequency start_timer
start_timer-IsRunning {clock} c f t p lo hi idle = (
  started_at (clock p.reads) (with_frequency f t),
  ground arith,
  rw idle (rw (first_target _ (period-le f lo))),
  record {
    supported = (lo, hi);
    period = refl;
    counter = omega arith;
    target = omega arith;
    started = refl;
    start_valid = c.reading p.reads;
  },
  refl,
  refl,
  omega arith,
)
