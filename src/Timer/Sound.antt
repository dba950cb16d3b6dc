-- ===== src/Timer/Sound.antt =====
-- src/timers: what sleep_to_next_tick leaves whenever it returns.
use real_time_data_transfer.Base.{
  ltb, ◌==◌, ltb→ge, Bool-cases, some_injective, ℕ, zero, suc, ◌+◌, ◌≤◌, ◌<◌, ◌≡◌, refl, subst, inl,
  inr, Bool, true, false, Option, some, arith,
}
use real_time_data_transfer.Time.{Timespec, timespec_diff_ns, total_ns}
use real_time_data_transfer.Time.Sleep.{Process, clock_gettime}
use real_time_data_transfer.Time.Sleep.Laws.{IsClock, clock_le}
use real_time_data_transfer.Time.Sleep.Past.{Past, Past-some}
use real_time_data_transfer.Timer.{Timer, next_tick, prevent_overflow, reset_count, already_ticked}
use real_time_data_transfer.Timer.Tick.{IsRunning, IsPeriod, next_tick-IsPeriod, deadline}
use real_time_data_transfer.Timer.Waking.{busy_wait, IsPaced, next_tick-IsPaced, elapsed}

module _ {clock : ℕ → Timespec} (c : IsClock clock) where
  -- The wait, whose first reading is number `now` and whose latest is number `latest`.
  pub busy_wait-Past :
      (t : Timer)
      → IsRunning t
      → (fuel now latest : ℕ) (p : Process) {p' : Process}
      → total_ns t.start_time ≤ total_ns (clock now)
      → total_ns (clock now) ≤ total_ns (clock latest)
      → p.reads ≡ latest + 1
      → busy_wait clock fuel t.start_time (clock now) t.sleep_time_ns p ≡ some p'
      → Past c (deadline t) p'
  unfolding busy_wait
  busy_wait-Past t r zero now latest p begun old count e = cc
  busy_wait-Past t r (suc fuel) now latest p {p'} begun old count e =
      elim (Bool-cases (ltb (timespec_diff_ns t.start_time (clock now)) t.sleep_time_ns)) [
        | inr over ↦
            Past-some c
              (record {
                last = latest;
                counted = count;
                on_time = omega (arith, elapsed c t r now begun, ltb→ge _ _ over);
              })
              (rw (over, busy_wait) at e)
        | inl early ↦
            busy_wait-Past t r fuel p.reads p.reads (clock_gettime clock p).1
              (omega (arith, clock_le c latest 1 p.reads (omega arith))) (omega arith) refl
              (rw (early, busy_wait) at e)
      ]

-- A call of sleep_to_next_tick that returns true was made by the deadline of `t`, ends at or after
-- it, and leaves the timer `t'` set for a deadline one period later.
pub record InTime (clock : ℕ → Timespec) (t : Timer) (p : Process) (t' : Timer) (p' : Process)
    : Type 0 where
  pub early : total_ns (clock p.reads) ≤ deadline t
  pub last : ℕ
  pub counted : p'.reads ≡ last + 1
  pub on_time : deadline t ≤ total_ns (clock last)
  pub paced : IsPaced clock t' p'
  pub period : IsPeriod t t'
  pub same_period : t'.original_sleep_time_ps ≡ t.original_sleep_time_ps

-- One that returns false was made after the deadline, and only reads the clock.
pub record TooLate (clock : ℕ → Timespec) (t : Timer) (p : Process) (t' : Timer) (p' : Process)
    : Type 0 where
  pub late : deadline t < total_ns (clock p.reads)
  pub same_process : p' ≡ (clock_gettime clock p).1
  pub same_deadline : deadline t' ≡ deadline t
  pub paced : IsPaced clock t' p'

abbrev pub Rests : (ℕ → Timespec) → Timer → Process → Bool → Timer → Process → Type 0
Rests clock t p true t' p' = InTime clock t p t' p'
Rests clock t p false t' p' = TooLate clock t p t' p'

next_tick-same_period :
    (t : Timer) → (next_tick t).original_sleep_time_ps ≡ t.original_sleep_time_ps
unfolding next_tick prevent_overflow
next_tick-same_period t = elim (Bool-cases (t.sleep_counter == reset_count)) [
  | inl e ↦ rw e refl
  | inr e ↦ rw e refl
]

module _ {clock : ℕ → Timespec} (c : IsClock clock) (t : Timer) (p : Process)
    (h : IsPaced clock t p) where
  pub Past-Rests :
      {q : Process}
      → total_ns (clock p.reads) ≤ deadline t
      → Past c (deadline t) q
      → Rests clock t p true (next_tick t) q
  Past-Rests {q} early w = record {
    early = early;
    last = w.last;
    counted = w.counted;
    on_time = w.on_time;
    paced = next_tick-IsPaced c t h.running q w.last w.counted w.on_time;
    period = next_tick-IsPeriod t h.running (omega (arith, w.on_time, (c.reading w.last).range));
    same_period = next_tick-same_period t;
  }

  pub late-Rests :
      deadline t < total_ns (clock p.reads)
      → Rests clock t p false (already_ticked t) (clock_gettime clock p).1
  late-Rests late = record {
    late = late;
    same_process = refl;
    same_deadline = refl;
    paced = record {
      running = record {
        supported = h.running.supported;
        period = h.running.period;
        counter = h.running.counter;
        target = h.running.target;
        started = h.running.started;
        start_valid = h.running.start_valid;
      };
      begun = omega (arith, h.begun, c.monotonic p.reads);
    };
  }

  pub Rests-same :
      {b b' : Bool} {t1 t2 : Timer} {q q' : Process}
      → Rests clock t p b t1 q
      → ◌≡◌ {A = Option (Bool × Timer × Process)} (some (b, t1, q)) (some (b', t2, q'))
      → Rests clock t p b' t2 q'
  Rests-same v e =
      subst (λ (r : Bool × Timer × Process). Rests clock t p r.0 r.1 r.2) (some_injective e) v
