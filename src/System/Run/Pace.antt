-- ===== src/System/Run/Pace.antt =====
-- src/systems/real_time_system.cpp with the timers of src/timers: the pace of run.
use real_time_data_transfer.Base.{
  zero_plus, plus_zero, ℕ, zero, suc, ◌+◌, ◌-◌, ◌*◌, ◌/◌, ◌≤◌, ◌≡◌, refl, sym, ap, subst, ◌∙◌, true,
  arith,
}
use real_time_data_transfer.Time.{Timespec, total_ns}
use real_time_data_transfer.Time.Sleep.{Process}
use real_time_data_transfer.Time.Sleep.Laws.{IsClock, clock_le}
use real_time_data_transfer.Timer.{Timer}
use real_time_data_transfer.Timer.Tick.{IsRunning, deadline}
use real_time_data_transfer.Timer.Waking.{IsPaced}
use real_time_data_transfer.Timer.Sound.{InTime}
use real_time_data_transfer.Timer.Interface.{TimerClass, IsTimer}
use real_time_data_transfer.System.{RealTimeSystem, World}
use real_time_data_transfer.System.Run.{Counters, Parts, Goes, again, stands, goes_round}
use real_time_data_transfer.System.Run.Timed.{IsTimed, Later, Ticked, round-Ticked, Ticked-again}

one_more : (n q : ℕ) → suc n * q ≡ n * q + q
one_more n q = omega arith

plus_suc : (n m : ℕ) → suc n + m ≡ n + suc m
plus_suc n m = omega arith

one_period_more : (due n q d d' : ℕ) → due + n * q ≤ d → d + q ≤ d' → due + suc n * q ≤ d'
one_period_more due n q d d' h k = omega (arith, one_more n q)

one_period_after :
    (due n q d d' : ℕ) → d ≤ due + n * (q + 1) → d' ≤ d + q + 1 → d' ≤ due + suc n * (q + 1)
one_period_after due n q d d' h k = omega (arith, one_more n (q + 1))

module _ (w : World) (parts : Parts) (m : TimerClass) (clock : ℕ → Timespec)
    (view : w.State → m.Members × Process) (k : IsTimed w parts m clock view)
    (s : RealTimeSystem) where
  module _ (schedule : m.Members → Timer) (t : IsTimer m schedule) (c : IsClock clock) where
    abbrev at : w.State → Timer
    at x = schedule (view x).0

    -- After `n` rounds from a deadline `due`, with a period of `ps` picoseconds.
    record OnPace (due ps n : ℕ) (x : w.State) : Type 0 where
      paced : IsPaced clock (at x) (view x).1
      same_period : (at x).original_sleep_time_ps ≡ ps
      earliest : due + n * (ps / 1000) ≤ deadline (at x)
      latest : deadline (at x) ≤ due + n * (ps / 1000 + 1)

    -- One round, which calls sleep_to_next_tick in the state `y` and ends at reading number `last`.
    record InRound (due ps n : ℕ) (x : w.State) : Type 0 where
      y : w.State
      slept : w.timer_sleep_to_next_tick parts.timer y ≡ (true, x)
      last : ℕ
      counted : (view x).1.reads ≡ last + 1
      by_deadline : total_ns (clock (view y).1.reads) ≤ deadline (at y)
      not_before : deadline (at y) ≤ total_ns (clock last)
      own_earliest : due + n * (ps / 1000) ≤ deadline (at y)
      own_latest : deadline (at y) ≤ due + n * (ps / 1000 + 1)
      next_earliest : deadline (at y) + ps / 1000 ≤ deadline (at x)
      next_latest : deadline (at x) ≤ deadline (at y) + ps / 1000 + 1
      pace : OnPace due ps (suc n) x

    Later-OnPace :
        {due ps n : ℕ} {x y : w.State}
        → Later w parts m clock view k s x y
        → OnPace due ps n x
        → OnPace due ps n y
    Later-OnPace {x = x} {y} (e, le) v =
        let same : at x ≡ at y = ap schedule (sym e) in
        record {
          paced = record {
            running = subst IsRunning same v.paced.running;
            begun = omega (
              arith,
              v.paced.begun,
              ap (λ (u : Timer). total_ns u.start_time) same,
              clock_le c (view x).1.reads ((view y).1.reads - (view x).1.reads) (view y).1.reads
                  (omega arith),
            );
          };
          same_period = ap (λ (u : Timer). u.original_sleep_time_ps) (sym same) ∙ v.same_period;
          earliest = omega (arith, v.earliest, ap deadline same);
          latest = omega (arith, v.latest, ap deadline same);
        }

    Ticked-InRound :
        {due ps n : ℕ} {x : w.State} {c' : Counters} {x' : w.State}
        → OnPace due ps n x
        → Ticked w parts m clock view k s x (again (c', x'))
        → InRound due ps n x'
    Ticked-InRound {due} {ps} {n} {x' = x'} v d =
        let (y, h, e, same) = Ticked-again w parts m clock view k s d in
        let u = Later-OnPace h v in
        let z = (w.timer_sleep_to_next_tick parts.timer y).1 in
        let (fuel, slept) = k.ticks y e in
        let r : InTime clock (at y) (view y).1 (at z) (view z).1 =
          (t.rests c (view y).0 (view y).1 u.paced fuel slept).0 in
        let next_early : deadline (at y) + ps / 1000 ≤ deadline (at z) =
          subst (λ q. deadline (at y) + q / 1000 ≤ deadline (at z)) u.same_period
            r.period.earliest in
        let next_late : deadline (at z) ≤ deadline (at y) + ps / 1000 + 1 =
          subst (λ q. deadline (at z) ≤ deadline (at y) + q / 1000 + 1) u.same_period
            r.period.latest in
        subst (InRound due ps n) (sym same) (record {
          y = y;
          slept = ap (λ b. (b, z)) e;
          last = r.last;
          counted = r.counted;
          by_deadline = r.early;
          not_before = r.on_time;
          own_earliest = u.earliest;
          own_latest = u.latest;
          next_earliest = next_early;
          next_latest = next_late;
          pace = record {
            paced = r.paced;
            same_period = r.same_period ∙ u.same_period;
            earliest = one_period_more due n (ps / 1000) _ _ u.earliest next_early;
            latest = one_period_after due n (ps / 1000) _ _ u.latest next_late;
          };
        })

    Goes-InRound :
        {due ps : ℕ} (n n' : ℕ) {p q : Counters × w.State}
        → Goes w parts s (suc n) p q
        → OnPace due ps n' p.1
        → InRound due ps (n' + n) q.1
    Goes-InRound {due} {ps} zero n' (goes_round {c = c1} {x = x1} {x' = x'} e stands) v =
        subst (λ i. InRound due ps i x') (plus_zero n')
          (Ticked-InRound v (
            subst (Ticked w parts m clock view k s x1) e
              (round-Ticked w parts m clock view k s c1 x1)))
    Goes-InRound {due} {ps} (suc n) n' {q = q} (goes_round {c = c1} {x = x1} e g) v =
        let r = Ticked-InRound v (
          subst (Ticked w parts m clock view k s x1) e
            (round-Ticked w parts m clock view k s c1 x1)) in
        subst (λ i. InRound due ps i q.1) (plus_suc n' n) (Goes-InRound n (suc n') g r.pace)

    -- The system and its timer together. In a world whose timer is an object of a class that keeps
    -- the contract IsTimer, and is running when the rounds begin: however many rounds of run go on,
    -- the last call of sleep_to_next_tick in them was made at or before the deadline that the timer
    -- then had, ended at or after it, and has moved it by one period of
    -- `original_sleep_time_ps / 1000` nanoseconds, or by one nanosecond more. So the deadline of
    -- round n + 1 lies n such periods after the first, each with or without that nanosecond.
    pub run-paced :
        {n : ℕ} {c0 c1 : Counters} {x x' : w.State}
        → IsPaced clock (schedule (view x).0) (view x).1
        → Goes w parts s (suc n) (c0, x) (c1, x')
        → let period = (schedule (view x).0).original_sleep_time_ps / 1000 in
          let first = deadline (schedule (view x).0) in
          (y : w.State) × (w.timer_sleep_to_next_tick parts.timer y ≡ (true, x'))
          × (last : ℕ) × ((view x').1.reads ≡ last + 1)
          × (total_ns (clock (view y).1.reads) ≤ deadline (schedule (view y).0))
          × (deadline (schedule (view y).0) ≤ total_ns (clock last))
          × (first + n * period ≤ deadline (schedule (view y).0))
          × (deadline (schedule (view y).0) ≤ first + n * (period + 1))
          × (deadline (schedule (view y).0) + period ≤ deadline (schedule (view x').0))
          × (deadline (schedule (view x').0) ≤ deadline (schedule (view y).0) + period + 1)
          × (first + suc n * period ≤ deadline (schedule (view x').0))
          × (deadline (schedule (view x').0) ≤ first + suc n * (period + 1))
    run-paced {n} {x = x} {x'} h g =
        let due = deadline (at x) in
        let ps = (at x).original_sleep_time_ps in
        let v : OnPace due ps 0 x = record {
          paced = h;
          same_period = refl;
          earliest = omega arith;
          latest = omega arith;
        } in
        let r : InRound due ps n x' =
          subst (λ i. InRound due ps i x') (zero_plus n) (Goes-InRound n 0 g v) in
        (
          r.y, r.slept, r.last, r.counted, r.by_deadline, r.not_before, r.own_earliest,
          r.own_latest, r.next_earliest, r.next_latest, r.pace.earliest, r.pace.latest,
        )
