-- ===== src/Time/Sleep.antt =====
-- src/timers/timers_utils.cpp: the sleep functions.
-- The monotonic clock is the system's: `clock i` is what the i-th call of clock_gettime reads. A
-- process is how many calls it has made, and what it has asked of nanosleep, latest first.
pub mod Laws
pub mod Past
pub mod Requests
use real_time_data_transfer.Base.{
  ℕ, zero, suc, ◌+◌, ◌%◌, true, false, Option, none, some, List, ◌∷◌, ltb, sub64,
}
use real_time_data_transfer.Time.{
  Timespec, timespec_diff_ns, ns_to_sec, sec_to_ns, us_to_ns, ms_to_ns,
}

pub record Process : Type 0 where
  pub reads : ℕ
  pub naps : List Timespec

abbrev pub nanosleep : Timespec → Process → Process
nanosleep t p = record p { naps = t ∷ p.naps }

-- What the loop asks of nanosleep when `remaining` nanoseconds are left.
abbrev pub nap : ℕ → Timespec
nap remaining = record { tv_sec = ns_to_sec remaining; tv_nsec = remaining % sec_to_ns 1 }

module _ (clock : ℕ → Timespec) where
  abbrev pub clock_gettime : Process → Timespec × Process
  clock_gettime p = (clock p.reads, record p { reads = p.reads + 1 })

  -- The `while` of nanoseconds_sleep; `none` when the fuel runs out.
  pub sleep_loop : ℕ → Timespec → Timespec → ℕ → Process → Option Process
  sleep_loop zero start_time current_time sleep_time_ns p = none
  sleep_loop (suc fuel) start_time current_time sleep_time_ns p =
      let slept_time_ns = timespec_diff_ns start_time current_time in
      let napped = nanosleep (nap (sub64 sleep_time_ns slept_time_ns)) p in
      elim (ltb slept_time_ns sleep_time_ns) [
        | true ↦
            sleep_loop fuel start_time (clock napped.reads) sleep_time_ns (clock_gettime napped).1
        | false ↦ some p
      ]

  pub nanoseconds_sleep : ℕ → ℕ → Process → Option Process
  unfolding sleep_loop
  nanoseconds_sleep fuel sleep_time_ns p =
      let (start_time, p1) = clock_gettime p in
      let (current_time, p2) = clock_gettime p1 in
      sleep_loop fuel start_time current_time sleep_time_ns p2

  pub microseconds_sleep : ℕ → ℕ → Process → Option Process
  microseconds_sleep fuel sleep_time_us = nanoseconds_sleep fuel (us_to_ns sleep_time_us)

  pub milliseconds_sleep : ℕ → ℕ → Process → Option Process
  milliseconds_sleep fuel sleep_time_ms = nanoseconds_sleep fuel (ms_to_ns sleep_time_ms)

  pub seconds_sleep : ℕ → ℕ → Process → Option Process
  seconds_sleep fuel sleep_time_s = nanoseconds_sleep fuel (sec_to_ns sleep_time_s)
