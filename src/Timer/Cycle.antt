-- ===== src/Timer/Cycle.antt =====
-- src/timers: many ticks in a row, from the start of a count to its reset at 2 ^ 23.
use real_time_data_transfer.Base.{
  ℕ, zero, suc, ◌+◌, ◌*◌, ◌/◌, ◌^◌, ◌≤◌, ◌<◌, ◌≡◌, refl, false, arith, add64, ◌==◌, ==_iff, ap, sym,
  subst, ◌∙◌,
}
use real_time_data_transfer.Time.{total_ns, add_ns_to_timespec, IsTime}
use real_time_data_transfer.Time.Laws.{add_ns_to_timespec-exact}
use real_time_data_transfer.Timer.{Timer, prevent_overflow, next_tick, ticks, reset_count}
use real_time_data_transfer.Timer.Tick.{IsRunning, deadline, target_ns-exact, period-le}

-- The tick at which the count begins anew.
next_tick_reset :
    (u : Timer) (ps : ℕ)
    → u.sleep_counter ≡ reset_count
    → u.original_sleep_time_ps ≡ ps
    → ps ≤ 1000000000000
    → ((next_tick u).sleep_counter ≡ 1)
      × ((next_tick u).start_time ≡ add_ns_to_timespec u.start_time u.sleep_time_ns)
      × ((next_tick u).sleep_time_ns ≡ ps / 1000 + 1)
unfolding next_tick
next_tick_reset u ps full e le =
    rw ((==_iff u.sleep_counter reset_count).1 full, prevent_overflow)
      (refl, refl, rw e (omega arith))

module _ (t : Timer) (r : IsRunning t) (fresh : t.sleep_counter ≡ 1) where
  open t use {original_sleep_time_ps as ps}

  ps-le : ps ≤ 1000000000000
  ps-le = omega (arith, period-le t.frequency r.supported.0, r.period)

  -- The state after `n` ticks of one count.
  record IsTick (n : ℕ) (u : Timer) : Type 0 where
    start : u.start_time ≡ t.start_time
    same_period : u.original_sleep_time_ps ≡ ps
    count : u.sleep_counter ≡ n + 1
    target : u.sleep_time_ns ≡ ps * (n + 1) / 1000 + 1

  next-IsTick :
      (n : ℕ) (u : Timer) → n + 1 < reset_count → IsTick n u → IsTick (suc n) (next_tick u)
  unfolding next_tick
  next-IsTick n u h k =
      let step : add64 u.sleep_counter 1 ≡ suc n + 1 = omega (arith, k.count) in
      let below : (u.sleep_counter == reset_count) ≡ false = ground (arith, k.count) in
      rw (below, prevent_overflow)
        (rw (step, k.same_period)
          (record {
            start = k.start;
            same_period = refl;
            count = refl;
            target = target_ns-exact ps (suc n + 1) ps-le (omega arith);
          }))

  ticks-IsTick : (n : ℕ) → n < reset_count → IsTick n (ticks n t)
  unfolding ticks
  ticks-IsTick zero h = record {
    start = refl;
    same_period = refl;
    count = omega arith;
    target = rw fresh at r.target;
  }
  ticks-IsTick (suc n) h = next-IsTick n (ticks n t) (omega arith) (ticks-IsTick n (omega arith))

  -- While the count has not reached its reset, the n-th next deadline of a timer that was just
  -- started is its start plus n + 1 exact periods, each of `original_sleep_time_ps` picoseconds,
  -- cut to whole nanoseconds once, plus one nanosecond: rounding does not add up from tick to tick.
  pub ticks-deadline :
      (n : ℕ)
      → n < reset_count
      → deadline (ticks n t) ≡ total_ns t.start_time + ps * (n + 1) / 1000 + 1
  ticks-deadline n h = let k = ticks-IsTick n h in omega (arith, k.target, ap total_ns k.start)

  -- A whole count of 2 ^ 23 ticks, its reset included: the timer is back at a count of one, and its
  -- start and its deadline are later by `ps * 2 ^ 23 / 1000 + 1` nanoseconds, that is by 2 ^ 23
  -- periods of `ps` picoseconds, rounded down to whole nanoseconds, and one more.
  pub ticks-cycle :
      (n : ℕ)
      → n + 1 ≡ reset_count
      → total_ns t.start_time + ps * reset_count / 1000 + 1 < 2 ^ 64
      → ((ticks (suc n) t).sleep_counter ≡ 1)
        × (total_ns (ticks (suc n) t).start_time
            ≡ total_ns t.start_time + ps * reset_count / 1000 + 1)
        × (deadline (ticks (suc n) t) ≡ deadline t + ps * reset_count / 1000 + 1)
  unfolding ticks
  ticks-cycle n e fits =
      let k = ticks-IsTick n (omega arith) in
      let (one, start, target) = next_tick_reset (ticks n t) ps (k.count ∙ e) k.same_period ps-le in
      let sleep : (ticks n t).sleep_time_ns ≡ ps * reset_count / 1000 + 1 =
        k.target ∙ ap (λ c. ps * c / 1000 + 1) e in
      let valid : IsTime (ticks n t).start_time = subst IsTime (sym k.start) r.start_valid in
      let same = ap total_ns k.start in
      let moved = (add_ns_to_timespec-exact _ (ticks n t).sleep_time_ns valid (omega arith)).0 in
      let at = ap total_ns start in
      let first = rw fresh at r.target in (one, omega arith, omega arith)
