-- ===== src/Timer/WorstCase.antt =====
-- src/timers/worst_case_timer.cpp and includes/worst_case_timer.h: the timer that gives up the
-- processor for all but the worst delay of the scheduler, and waits in a loop for the rest.
use real_time_data_transfer.Base.{
  ℕ, zero, suc, ◌+◌, ◌-◌, ◌≤◌, ◌<◌, ◌≡◌, refl, inl, inr, Bool, true, false, Option, none, some,
  arith, ltb, sub64, if◌then◌else◌, Bool-cases, ltb→ge,
}
use real_time_data_transfer.Time.{Timespec, timespec_diff_ns, us_to_ns, total_ns}
use real_time_data_transfer.Time.Sleep.{Process, clock_gettime, nanoseconds_sleep}
use real_time_data_transfer.Time.Sleep.Laws.{IsClock, clock_le, nanoseconds_sleep-returns}
use real_time_data_transfer.Timer.{Timer, next_tick, already_ticked}
use real_time_data_transfer.Timer
use real_time_data_transfer.Timer.Tick.{IsRunning, deadline}
use real_time_data_transfer.Timer.Waking.{
  busy_wait, IsPaced, IsWoken, IsLate, next_tick-IsPaced, busy_wait-Waited, elapsed, time_left,
  ticked_iff, not_ticked,
}

pub record WorstCaseTimer : Type 0 where
  pub timer : Timer
  pub worst_timer_delay_ns : ℕ

-- The constructor, from a delay in microseconds.
abbrev pub worst_case_timer : ℕ → Timer → WorstCaseTimer
worst_case_timer worst_timer_delay_us memory = record {
  timer = Timer.construct "WorstCaseTimer" memory;
  worst_timer_delay_ns = us_to_ns worst_timer_delay_us;
}

-- The end of a successful call, after the last wait.
abbrev pub ticked : Timer → Option Process → Option (Bool × Timer × Process)
ticked t none = none
ticked t (some p) = some (true, next_tick t, p)

-- The result, the timer and the process after a call; `none` when a wait runs out of fuel.
unfoldable pub sleep_to_next_tick :
    (ℕ → Timespec) → ℕ → WorstCaseTimer → Process → Option (Bool × Timer × Process)
sleep_to_next_tick clock fuel w p =
    let t = w.timer in
    let (current_time, p1) = clock_gettime clock p in
    let passed = timespec_diff_ns t.start_time current_time in
    let left = sub64 t.sleep_time_ns passed in
    if ltb t.sleep_time_ns passed
    then some (false, already_ticked t, p1)
    else if ltb left w.worst_timer_delay_ns
    then ticked t (busy_wait clock fuel t.start_time current_time t.sleep_time_ns p1)
    else elim (nanoseconds_sleep clock fuel (sub64 left w.worst_timer_delay_ns) p1) [
      | none ↦ none
      | some p2 ↦ ticked t (busy_wait clock fuel t.start_time current_time t.sleep_time_ns p2)
    ]

module _ {clock : ℕ → Timespec} (c : IsClock clock) (t : Timer) (r : IsRunning t) where
  -- A wait that has passed the deadline.
  record Done (waited : Option Process) : Type 0 where
    after : Process
    same : waited ≡ some after
    last : ℕ
    counted : after.reads ≡ last + 1
    on_time : deadline t ≤ total_ns (clock last)

  Done-IsWoken : {waited : Option Process} → Done waited → IsWoken clock t (ticked t waited)
  Done-IsWoken d = record {
    after = d.after;
    returns = rw d.same refl;
    last = d.last;
    counted = d.counted;
    on_time = d.on_time;
    paced = next_tick-IsPaced c t r d.after d.last d.counted d.on_time;
  }

  -- The second loop starts from the reading taken before the sleep.
  busy_wait-Done :
      (n fuel now latest : ℕ) (p : Process)
      → n + 1 < fuel
      → total_ns t.start_time ≤ total_ns (clock now)
      → deadline t ≤ total_ns (clock n)
      → total_ns (clock now) ≤ total_ns (clock latest)
      → p.reads ≡ latest + 1
      → Done (busy_wait clock fuel t.start_time (clock now) t.sleep_time_ns p)
  unfolding busy_wait
  busy_wait-Done n zero now latest p f begun reach old count = absurd (omega arith)
  busy_wait-Done n (suc fuel) now latest p f begun reach old count =
      let e = elapsed c t r now begun in
      let fresh = clock_le c latest 1 p.reads (omega arith) in
      elim (Bool-cases (ltb (timespec_diff_ns t.start_time (clock now)) t.sleep_time_ns)) [
        | inr over ↦
            rw (over, busy_wait)
              (record {
                after = p;
                same = refl;
                last = latest;
                counted = count;
                on_time = omega (arith, e, old, ltb→ge _ _ over);
              })
        | inl early ↦
            let (p', same, w) =
              busy_wait-Waited c t r n fuel p.reads (clock_gettime clock p).1 (omega arith)
                (omega (arith, fresh, old)) reach refl in
            rw (early, busy_wait)
              (record {
                after = p';
                same = same;
                last = w.last;
                counted = w.counted;
                on_time = w.on_time;
              })
      ]

module _ {clock : ℕ → Timespec} (c : IsClock clock) (w : WorstCaseTimer) (p : Process)
    (h : IsPaced clock w.timer p) where
  open w use {timer as t, worst_timer_delay_ns as delay}

  abbrev left : ℕ
  left = sub64 t.sleep_time_ns (timespec_diff_ns t.start_time (clock p.reads))

  -- A call before the deadline returns true, never before the deadline, with the timer set for the
  -- next tick, whatever the worst delay is, provided that by reading number `n` the clock has
  -- passed the deadline by as much as the first two readings of the call are apart, and the fuel is
  -- above `n + 1`.
  pub worst_case-IsWoken :
      (n fuel : ℕ)
      → n + 1 < fuel
      → total_ns (clock p.reads) ≤ deadline w.timer
      → total_ns (clock (p.reads + 1)) + (deadline w.timer - total_ns (clock p.reads))
        ≤ total_ns (clock n)
      → IsWoken clock w.timer (sleep_to_next_tick clock fuel w p)
  unfolding sleep_to_next_tick
  worst_case-IsWoken n fuel f early reach =
      let reading = c.reading n in
      let step = c.monotonic p.reads in
      let due : deadline t ≤ total_ns (clock n) = omega arith in
      let exact = time_left c t h.running p.reads h.begun early in
      let p1 = (clock_gettime clock p).1 in
      elim (Bool-cases (ltb left delay)) [
        | inl short ↦
            rw (not_ticked c t h.running p.reads h.begun early, short)
              (Done-IsWoken c t h.running (
                busy_wait-Done c t h.running n fuel p.reads p.reads p1 f h.begun due (omega arith)
                  refl))
        | inr long ↦
            let (p2, same, s) =
              nanoseconds_sleep-returns c n fuel (sub64 left delay) p1 (omega arith) (omega arith)
                (omega (arith, exact, ltb→ge _ _ long)) in
            rw (not_ticked c t h.running p.reads h.begun early, long)
              (rw same (
                Done-IsWoken c t h.running (
                  busy_wait-Done c t h.running n fuel p.reads s.last p2 f h.begun due
                    (omega (arith, s.enough, step)) s.counted)))
      ]

  -- A call after the deadline returns false, with the error set and the timer otherwise unchanged.
  pub worst_case-IsLate :
      (fuel : ℕ)
      → deadline w.timer < total_ns (clock p.reads)
      → IsLate clock w.timer p (sleep_to_next_tick clock fuel w p)
  unfolding sleep_to_next_tick
  worst_case-IsLate fuel late = rw ((ticked_iff c w.timer h.running p.reads h.begun).1 late)
