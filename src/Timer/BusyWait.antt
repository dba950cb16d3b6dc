-- ===== src/Timer/BusyWait.antt =====
-- src/timers/busy_wait_timer.cpp: the timer that waits in a loop around clock_gettime.
use real_time_data_transfer.Base.{
  ℕ, ◌≤◌, ◌<◌, refl, Bool, true, false, Option, none, some, ltb, if◌then◌else◌,
}
use real_time_data_transfer.Time.{Timespec, timespec_diff_ns, total_ns}
use real_time_data_transfer.Time.Sleep.{Process, clock_gettime}
use real_time_data_transfer.Time.Sleep.Laws.{IsClock}
use real_time_data_transfer.Timer.{Timer, next_tick, already_ticked}
use real_time_data_transfer.Timer
use real_time_data_transfer.Timer.Tick.{deadline}
use real_time_data_transfer.Timer.Waking.{
  busy_wait, IsPaced, IsWoken, IsLate, next_tick-IsPaced, busy_wait-Waited, ticked_iff, not_ticked,
}

-- The constructor.
abbrev pub busy_wait_timer : Timer → Timer
busy_wait_timer = Timer.construct "BusyWaitTimer"

-- The result, the timer and the process after a call; `none` when the wait runs out of fuel.
unfoldable pub sleep_to_next_tick :
    (ℕ → Timespec) → ℕ → Timer → Process → Option (Bool × Timer × Process)
sleep_to_next_tick clock fuel t p =
    let (current_time, p1) = clock_gettime clock p in
    if ltb t.sleep_time_ns (timespec_diff_ns t.start_time current_time)
    then some (false, already_ticked t, p1)
    else elim (busy_wait clock fuel t.start_time current_time t.sleep_time_ns p1) [
      | none ↦ none
      | some p2 ↦ some (true, next_tick t, p2)
    ]

module _ {clock : ℕ → Timespec} (c : IsClock clock) (t : Timer) (p : Process)
    (h : IsPaced clock t p) where
  -- A call before the deadline returns true at the first reading of the clock that is at or past
  -- the deadline, with the timer set for the next tick, provided that reading number `n` is past
  -- the deadline and the fuel is above `n`.
  pub busy_timer-IsWoken :
      (n fuel : ℕ)
      → n < fuel
      → total_ns (clock p.reads) ≤ deadline t
      → deadline t ≤ total_ns (clock n)
      → (w : IsWoken clock t (sleep_to_next_tick clock fuel t p)) × ((i : ℕ)
          → p.reads ≤ i
          → i < w.last
          → total_ns (clock i) < deadline t)
  unfolding sleep_to_next_tick
  busy_timer-IsWoken n fuel f early reach =
      let (p', same, w) =
        busy_wait-Waited c t h.running n fuel p.reads (clock_gettime clock p).1 f h.begun reach
          refl in
      (
        record {
          after = p';
          returns = rw (not_ticked c t h.running p.reads h.begun early) (rw same refl);
          last = w.last;
          counted = w.counted;
          on_time = w.on_time;
          paced = next_tick-IsPaced c t h.running p' w.last w.counted w.on_time;
        },
        w.prompt,
      )

  -- A call after the deadline returns false, with the error set and the timer otherwise unchanged.
  pub busy_timer-IsLate :
      (fuel : ℕ)
      → deadline t < total_ns (clock p.reads)
      → IsLate clock t p (sleep_to_next_tick clock fuel t p)
  unfolding sleep_to_next_tick
  busy_timer-IsLate fuel late = rw ((ticked_iff c t h.running p.reads h.begun).1 late)
