-- ===== src/Timer/Waking.antt =====
-- src/timers: what the three versions of sleep_to_next_tick share: the test for a tick that is
-- already over, the busy wait, and what it means to wake on time.
use real_time_data_transfer.Base.{
  ℕ, zero, suc, ◌+◌, ◌-◌, ◌≤◌, ◌<◌, ◌≡◌, refl, inl, inr, Bool, true, false, Option, none, some,
  arith, ltb, dec_lt, sub64, ◌↔◌, ltb→lt, ltb→ge, ge→ltb, lt→ltb, Bool-cases,
}
use real_time_data_transfer.Time.{Timespec, timespec_diff_ns, total_ns}
use real_time_data_transfer.Time.Laws.{timespec_diff-eq-sub}
use real_time_data_transfer.Time.Sleep.{Process, clock_gettime}
use real_time_data_transfer.Time.Sleep.Laws.{IsClock, clock_le, clock_past}
use real_time_data_transfer.Timer.{Timer, next_tick, already_ticked}
use real_time_data_transfer.Timer.Tick.{IsRunning, deadline, sleep-fits, next_tick-IsPeriod}

-- `while(TIMESPEC_DIFF_NS(start_time_, current_time) < sleep_time_ns_)` around clock_gettime;
-- `none` when the fuel runs out.
unfoldable pub busy_wait : (ℕ → Timespec) → ℕ → Timespec → Timespec → ℕ → Process → Option Process
busy_wait clock zero start_time current_time sleep_time_ns p = none
busy_wait clock (suc fuel) start_time current_time sleep_time_ns p =
    elim (ltb (timespec_diff_ns start_time current_time) sleep_time_ns) [
      | true ↦
          busy_wait clock fuel start_time (clock_gettime clock p).0 sleep_time_ns
            (clock_gettime clock p).1
      | false ↦ some p
    ]

-- A running timer in a process whose clock has not been read before the timer's start.
pub record IsPaced (clock : ℕ → Timespec) (t : Timer) (p : Process) : Type 0 where
  pub running : IsRunning t
  pub begun : total_ns t.start_time ≤ total_ns (clock p.reads)

-- A call of sleep_to_next_tick that returns true, at or after the deadline, with the timer set for
-- the next tick.
pub record IsWoken (clock : ℕ → Timespec) (t : Timer) (r : Option (Bool × Timer × Process))
    : Type 0 where
  pub after : Process
  pub returns : r ≡ some (true, next_tick t, after)
  pub last : ℕ
  pub counted : after.reads ≡ last + 1
  pub on_time : deadline t ≤ total_ns (clock last)
  pub paced : IsPaced clock (next_tick t) after

module _ {clock : ℕ → Timespec} (c : IsClock clock) (t : Timer) where
  -- After a sleep that ended past the deadline the timer is paced again.
  pub next_tick-IsPaced :
      IsRunning t
      → (p : Process) (last : ℕ) → p.reads ≡ last + 1
      → deadline t ≤ total_ns (clock last)
      → IsPaced clock (next_tick t) p
  next_tick-IsPaced r p last e on_time =
      let reading = c.reading last in
      let next = next_tick-IsPeriod t r (omega (arith, reading.range)) in
      record {
        running = next.running;
        begun = omega (arith, next.begun, clock_le c last 1 p.reads (omega arith));
      }

  module _ (r : IsRunning t) where
    open t use {start_time as start, sleep_time_ns as sleep}

    -- The number of nanoseconds since the start, at a reading.
    pub elapsed :
        (i : ℕ)
        → total_ns start ≤ total_ns (clock i)
        → timespec_diff_ns start (clock i) ≡ total_ns (clock i) - total_ns start
    elapsed i h = timespec_diff-eq-sub _ _ r.start_valid (c.reading i) h

    -- The readings from number `now` up to the last are before the deadline, and the last is not.
    pub record Waited (now : ℕ) (p : Process) : Type 0 where
      pub last : ℕ
      pub counted : p.reads ≡ last + 1
      pub on_time : deadline t ≤ total_ns (clock last)
      pub later : now ≤ last
      pub prompt : (i : ℕ) → now ≤ i → i < last → total_ns (clock i) < deadline t

    -- The loop returns once a reading has passed the deadline, and takes the first such reading:
    -- `current` is reading number `now`, and a reading `k` later is past the deadline.
    busy_wait_steps :
        (k fuel now end : ℕ) (p : Process)
        → k < fuel
        → now + k ≡ end
        → total_ns start ≤ total_ns (clock now)
        → deadline t ≤ total_ns (clock end)
        → p.reads ≡ now + 1
        → (p' : Process) × (busy_wait clock fuel start (clock now) sleep p ≡ some p')
          × Waited now p'
    unfolding busy_wait
    busy_wait_steps k zero now end p f e begun reach count = absurd (omega arith)
    busy_wait_steps zero (suc fuel) now end p f e begun reach count =
        let due = clock_le c end 0 now (omega arith) in
        let over =
          ge→ltb (timespec_diff_ns start (clock now)) sleep
            (omega (arith, elapsed now begun, due)) in
        rw (over, busy_wait)
          (
            p,
            refl,
            record {
              last = now;
              counted = count;
              on_time = omega (arith, due);
              later = omega arith;
              prompt = λ i lo hi. absurd (omega arith);
            },
          )
    busy_wait_steps (suc k) (suc fuel) now end p f e begun reach count =
        elim (Bool-cases (ltb (timespec_diff_ns start (clock now)) sleep)) [
          | inr over ↦
              rw (over, busy_wait)
                (
                  p,
                  refl,
                  record {
                    last = now;
                    counted = count;
                    on_time = omega (arith, elapsed now begun, ltb→ge _ _ over);
                    later = omega arith;
                    prompt = λ i lo hi. absurd (omega arith);
                  },
                )
          | inl early ↦
              let before : total_ns (clock now) < deadline t =
                omega (arith, elapsed now begun, ltb→lt _ _ early) in
              let next = clock_le c now 1 p.reads (omega arith) in
              let (p', same, w) =
                busy_wait_steps k fuel p.reads end _ (omega arith) (omega arith)
                  (omega (arith, next)) reach refl in
              rw (early, busy_wait)
                (
                  p',
                  same,
                  record {
                    last = w.last;
                    counted = w.counted;
                    on_time = w.on_time;
                    later = omega (arith, w.later);
                    prompt = λ i lo hi. elim (dec_lt now i) [
                      | yes past ↦ w.prompt i (omega arith) hi
                      | no upto ↦ omega (arith, before, clock_le c i (now - i) now (omega arith))
                    ];
                  },
                )
        ]

    -- The busy wait returns once reading number `n` of the clock is past the deadline, with fuel
    -- above `n`, and stops at the first such reading.
    pub busy_wait-Waited :
        (n fuel now : ℕ) (p : Process)
        → n < fuel
        → total_ns start ≤ total_ns (clock now)
        → deadline t ≤ total_ns (clock n)
        → p.reads ≡ now + 1
        → (p' : Process) × (busy_wait clock fuel start (clock now) sleep p ≡ some p')
          × Waited now p'
    busy_wait-Waited n fuel now p f begun reach count =
        busy_wait_steps (n - now) fuel now (now + (n - now)) p (omega arith) refl begun
          (clock_past c n now _ reach) count

    -- The test at the top of sleep_to_next_tick.
    pub ticked_iff :
        (i : ℕ)
        → total_ns start ≤ total_ns (clock i)
        → (ltb sleep (timespec_diff_ns start (clock i)) ≡ true) ↔ (deadline t < total_ns (clock i))
    ticked_iff i begun =
        let e = elapsed i begun in
        (λ h. omega (arith, e, ltb→lt _ _ h), λ h. lt→ltb _ _ (omega (arith, e)))

    pub not_ticked :
        (i : ℕ)
        → total_ns start ≤ total_ns (clock i)
        → total_ns (clock i) ≤ deadline t
        → ltb sleep (timespec_diff_ns start (clock i)) ≡ false
    not_ticked i begun h = ge→ltb _ _ (omega (arith, elapsed i begun))

    -- What is left of the wait at a reading before the deadline, as the code computes it.
    pub time_left :
        (i : ℕ)
        → total_ns start ≤ total_ns (clock i)
        → total_ns (clock i) ≤ deadline t
        → sub64 sleep (timespec_diff_ns start (clock i)) ≡ deadline t - total_ns (clock i)
    time_left i begun early = omega (arith, elapsed i begun, sleep-fits r)

-- A call of sleep_to_next_tick that finds the tick over: it returns false after one reading of the
-- clock, and changes nothing but the error handler.
abbrev pub IsLate : (ℕ → Timespec) → Timer → Process → Option (Bool × Timer × Process) → Type 0
IsLate clock t p r = r ≡ some (false, already_ticked t, (clock_gettime clock p).1)
