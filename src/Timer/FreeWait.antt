-- ===== src/Timer/FreeWait.antt =====
-- src/timers/free_wait_timer.cpp: the timer that gives up the processor until its next tick.
use real_time_data_transfer.Base.{
  ℕ, ◌+◌, ◌-◌, ◌≤◌, ◌<◌, refl, Bool, true, false, Option, none, some, arith, ltb, sub64,
  if◌then◌else◌,
}
use real_time_data_transfer.Time.{Timespec, timespec_diff_ns, total_ns}
use real_time_data_transfer.Time.Sleep.{Process, clock_gettime, nanoseconds_sleep}
use real_time_data_transfer.Time.Sleep.Laws.{IsClock, nanoseconds_sleep-returns}
use real_time_data_transfer.Timer.{Timer, next_tick, already_ticked}
use real_time_data_transfer.Timer
use real_time_data_transfer.Timer.Tick.{deadline}
use real_time_data_transfer.Timer.Waking.{
  IsPaced, IsWoken, IsLate, next_tick-IsPaced, time_left, ticked_iff, not_ticked,
}

-- The members, which are those of BusyWaitTimer.
abbrev pub FreeWaitTimer : Type 0
FreeWaitTimer = Timer

-- The constructor.
abbrev pub free_wait_timer : FreeWaitTimer → FreeWaitTimer
free_wait_timer = Timer.construct "FreeWaitTimer"

-- The result, the timer and the process after a call; `none` when the sleep runs out of fuel.
unfoldable pub sleep_to_next_tick :
    (ℕ → Timespec) → ℕ → FreeWaitTimer → Process → Option (Bool × FreeWaitTimer × Process)
sleep_to_next_tick clock fuel t p =
    let (current_time, p1) = clock_gettime clock p in
    let passed = timespec_diff_ns t.start_time current_time in
    if ltb t.sleep_time_ns passed
    then some (false, already_ticked t, p1)
    else elim (nanoseconds_sleep clock fuel (sub64 t.sleep_time_ns passed) p1) [
      | none ↦ none
      | some p2 ↦ some (true, next_tick t, p2)
    ]

module _ {clock : ℕ → Timespec} (c : IsClock clock) (t : Timer) (p : Process)
    (h : IsPaced clock t p) where
  -- A call before the deadline returns true, never before the deadline, with the timer set for the
  -- next tick, provided that by reading number `n` the clock has passed the deadline by as much as
  -- the first two readings of the call are apart, and the fuel is above `n`.
  pub free_wait-IsWoken :
      (n fuel : ℕ)
      → n < fuel
      → total_ns (clock p.reads) ≤ deadline t
      → total_ns (clock (p.reads + 1)) + (deadline t - total_ns (clock p.reads))
        ≤ total_ns (clock n)
      → IsWoken clock t (sleep_to_next_tick clock fuel t p)
  unfolding sleep_to_next_tick
  free_wait-IsWoken n fuel f early reach =
      let reading = c.reading n in
      let left = time_left c t h.running p.reads h.begun early in
      let p1 = (clock_gettime clock p).1 in
      let (p', same, s) =
        nanoseconds_sleep-returns c n fuel (deadline t - total_ns (clock p.reads)) p1 f
          (omega (arith, reading.range)) reach in
      let on_time : deadline t ≤ total_ns (clock s.last) =
        omega (arith, s.enough, early, c.monotonic p.reads) in
      record {
        after = p';
        returns = rw (not_ticked c t h.running p.reads h.begun early) (rw left (rw same refl));
        last = s.last;
        counted = s.counted;
        on_time = on_time;
        paced = next_tick-IsPaced c t h.running p' s.last s.counted on_time;
      }

  -- A call after the deadline returns false, with the error set and the timer otherwise unchanged.
  pub free_wait-IsLate :
      (fuel : ℕ)
      → deadline t < total_ns (clock p.reads)
      → IsLate clock t p (sleep_to_next_tick clock fuel t p)
  unfolding sleep_to_next_tick
  free_wait-IsLate fuel late = rw ((ticked_iff c t h.running p.reads h.begun).1 late)
