-- ===== src/Time/Sleep/Past.antt =====
-- src/timers/timers_utils.cpp: a sleep that returns has not ended early.
use real_time_data_transfer.Base.{
  ltb, ltb→ge, Bool-cases, some_injective, ℕ, zero, suc, ◌+◌, ◌≤◌, ◌≡◌, refl, subst, inl, inr, some,
  arith,
}
use real_time_data_transfer.Time.{Timespec, timespec_diff_ns, total_ns}
use real_time_data_transfer.Time.Laws.{timespec_diff-eq-sub}
use real_time_data_transfer.Time.Sleep.{Process, sleep_loop, nanoseconds_sleep}
use real_time_data_transfer.Time.Sleep.Laws.{IsClock, clock_le}

module _ {clock : ℕ → Timespec} (c : IsClock clock) where
  -- The last reading of a process has passed an instant.
  pub record Past (instant : ℕ) (p : Process) : Type 0 where
    pub last : ℕ
    pub counted : p.reads ≡ last + 1
    pub on_time : instant ≤ total_ns (clock last)

  pub Past-some :
      {instant : ℕ} {p p' : Process} → Past instant p → some p ≡ some p' → Past instant p'
  Past-some {instant} h e = subst (Past instant) (some_injective e) h

  sleep_loop-Past :
      (fuel s now ns : ℕ) (p : Process) {p' : Process}
      → total_ns (clock s) ≤ total_ns (clock now)
      → p.reads ≡ now + 1
      → sleep_loop clock fuel (clock s) (clock now) ns p ≡ some p'
      → Past (total_ns (clock s) + ns) p'
  unfolding sleep_loop
  sleep_loop-Past zero s now ns p old count e = cc
  sleep_loop-Past (suc fuel) s now ns p old count e =
      let exact = timespec_diff-eq-sub _ _ (c.reading s) (c.reading now) old in
      elim (Bool-cases (ltb (timespec_diff_ns (clock s) (clock now)) ns)) [
        | inr over ↦
            Past-some
              (record {
                last = now;
                counted = count;
                on_time = omega (arith, exact, ltb→ge _ _ over);
              })
              (rw (over, sleep_loop) at e)
        | inl early ↦
            sleep_loop-Past fuel s p.reads ns _
              (omega (arith, clock_le c now 1 p.reads (omega arith))) refl
              (rw (early, sleep_loop) at e)
      ]

  -- A sleep of `ns` nanoseconds does not end early.
  pub nanoseconds_sleep-Past :
      (fuel ns : ℕ) (p : Process) {p' : Process}
      → nanoseconds_sleep clock fuel ns p ≡ some p'
      → Past (total_ns (clock p.reads) + ns) p'
  unfolding nanoseconds_sleep
  nanoseconds_sleep-Past fuel ns p e =
      sleep_loop-Past fuel p.reads (p.reads + 1) ns _ (c.monotonic p.reads) refl e
