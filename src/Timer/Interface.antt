-- ===== src/Timer/Interface.antt =====
-- includes/timer.h: the abstract class Timer, and what its comments promise of the classes that
-- inherit from it.
use real_time_data_transfer.Base.{
  ℕ, ◌+◌, ◌-◌, ◌/◌, ◌≤◌, ◌<◌, String, ◌≡◌, Bool, true, false, Option, some,
}
use real_time_data_transfer.Time.{Timespec, total_ns}
use real_time_data_transfer.Time.Sleep.{Process, clock_gettime}
use real_time_data_transfer.Time.Sleep.Laws.{IsClock}
use real_time_data_transfer.Timer.{Timer, timer_max_frequency, timer_frequency_error}
use real_time_data_transfer.Timer.Tick.{deadline}
use real_time_data_transfer.Timer.Waking.{IsPaced}
use real_time_data_transfer.Timer.Sound.{Rests}

-- The virtual methods, on the members of the class that inherits. Those that read the clock are
-- given it; a method that waits has fuel, and no result when that runs out.
pub record TimerClass : Type 1 where
  pub Members : Type 0
  pub initialize : Members → Bool × Members
  pub set_frequency : ℕ → Members → Option (Bool × Members)
  pub get_frequency : Members → ℕ
  pub start_timer : (ℕ → Timespec) → Members → Process → Bool × Members × Process
  pub stop_timer : Members → Members
  pub sleep_to_next_tick :
      (ℕ → Timespec) → ℕ → Members → Process → Option (Bool × Members × Process)
  pub get_error : Members → String × Members
  pub is_error : Members → Bool

-- The frequency was set to `f`.
abbrev pub HasFrequency : ℕ → Timer → Type 0
HasFrequency f t = (t.frequency ≡ f) × (t.original_sleep_time_ps ≡ 1000000000000 / f)

-- What a class keeps of the promises of includes/timer.h. Two of these are not kept by the classes
-- and not part of this: that set_frequency is refused while the timer runs, where `accepts` says
-- that it is not; and that start_timer and sleep_to_next_tick are refused before a frequency is
-- set. `schedule` is the abstract view of its members: the frequency, and when the timer runs the
-- deadline of its next tick.
pub record IsTimer (m : TimerClass) (schedule : m.Members → Timer) : Type 0 where
  pub initializes :
      (s : m.Members)
      → ((m.initialize s).0 ≡ true)
        × (m.get_frequency (m.initialize s).1 ≡ timer_frequency_error)
        × ((schedule (m.initialize s).1).timer_started ≡ false)
  -- A frequency within the limit is set, on a running timer too.
  pub accepts :
      (f : ℕ) (s : m.Members)
      → 1 ≤ f
      → f ≤ timer_max_frequency
      → (s' : m.Members) × (m.set_frequency f s ≡ some (true, s'))
        × (m.get_frequency s' ≡ f)
        × HasFrequency f (schedule s')
        × ((schedule s').timer_started ≡ (schedule s).timer_started)
  -- A frequency above it is reported, and the old one stays.
  pub rejects :
      (f : ℕ) (s : m.Members)
      → timer_max_frequency < f
      → (s' : m.Members) × (m.set_frequency f s ≡ some (false, s'))
        × (m.get_frequency s' ≡ m.get_frequency s)
        × (m.is_error s' ≡ true)
  -- A timer that is stopped and has a frequency starts at the reading that start_timer takes, and
  -- its first deadline is one period later.
  pub starts :
      {clock : ℕ → Timespec}
      → IsClock clock
      → (f : ℕ) (s : m.Members) (p : Process) → 1 ≤ f
      → f ≤ timer_max_frequency
      → HasFrequency f (schedule s)
      → (schedule s).timer_started ≡ false
      → (s' : m.Members) × (m.start_timer clock s p ≡ (true, s', (clock_gettime clock p).1))
        × IsPaced clock (schedule s') (clock_gettime clock p).1
        × (deadline (schedule s') ≡ total_ns (clock p.reads) + 1000000000000 / f / 1000 + 1)
  -- One that runs is not started again.
  pub runs_already :
      (clock : ℕ → Timespec) (s : m.Members) (p : Process)
      → (schedule s).timer_started ≡ true
      → (s' : m.Members) × (m.start_timer clock s p ≡ (false, s', p)) × (m.is_error s' ≡ true)
  -- stop_timer does not clear the frequency, so the timer can start again.
  pub stops :
      (s : m.Members)
      → ((schedule (m.stop_timer s)).timer_started ≡ false)
        × (m.get_frequency (m.stop_timer s) ≡ m.get_frequency s)
        × ((f : ℕ) → HasFrequency f (schedule s) → HasFrequency f (schedule (m.stop_timer s)))
  -- Whenever sleep_to_next_tick returns: true if it was called by the deadline, and then it has
  -- slept until the deadline at least; false and an error otherwise.
  pub rests :
      {clock : ℕ → Timespec}
      → IsClock clock
      → (s : m.Members) (p : Process) → IsPaced clock (schedule s) p
      → (fuel : ℕ) {b : Bool} {s' : m.Members} {p' : Process}
      → m.sleep_to_next_tick clock fuel s p ≡ some (b, s', p')
      → Rests clock (schedule s) p b (schedule s') p' × (b ≡ false → m.is_error s' ≡ true)
  -- It returns, with fuel above `n + 1`, when by reading number `n` the clock has passed the
  -- deadline by as much as the first two readings of the call are apart.
  pub wakes :
      {clock : ℕ → Timespec}
      → IsClock clock
      → (s : m.Members) (p : Process) → IsPaced clock (schedule s) p
      → (n fuel : ℕ) → n + 1 < fuel
      → total_ns (clock (p.reads + 1)) + (deadline (schedule s) - total_ns (clock p.reads))
        ≤ total_ns (clock n)
      → (b : Bool) × (s' : m.Members) × (p' : Process) × (m.sleep_to_next_tick clock fuel s p
          ≡ some (b, s', p'))
  -- get_error hands the error over and removes it.
  pub reports :
      (s : m.Members)
      → (m.is_error (m.get_error s).1 ≡ false) × ((m.get_error (m.get_error s).1).0 ≡ "")
