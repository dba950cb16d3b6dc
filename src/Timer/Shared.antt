-- ===== src/Timer/Shared.antt =====
-- src/timers: a class whose methods, but for sleep_to_next_tick, are those that the three classes
-- share, keeps what includes/timer.h promises.
use real_time_data_transfer.Base.{
  lt→ltb, ℕ, ◌+◌, ◌-◌, ◌/◌, ◌≤◌, ◌<◌, ◌≡◌, refl, sym, ap, subst, ◌∙◌, Bool, true, false, Option,
  none, some, arith,
}
use real_time_data_transfer.Errors.{set_error}
use real_time_data_transfer.Time.{Timespec, total_ns}
use real_time_data_transfer.Time.Sleep.{Process, clock_gettime}
use real_time_data_transfer.Time.Sleep.Laws.{IsClock}
use real_time_data_transfer.Timer.{
  Timer, next_tick, already_ticked, timer_max_frequency, set_frequency, start_timer,
  frequency_message,
}
use real_time_data_transfer.Timer
use real_time_data_transfer.Timer.Tick.{deadline, with_frequency, start_timer-IsRunning}
use real_time_data_transfer.Timer.Waking.{IsPaced}
use real_time_data_transfer.Timer.Sound.{Rests}
use real_time_data_transfer.Timer.Interface.{TimerClass, HasFrequency, IsTimer}

same_frequency : (f : ℕ) (t : Timer) → HasFrequency f t → with_frequency f t ≡ t
same_frequency f t (e, g) =
    subst (λ x. record t { frequency = x; original_sleep_time_ps = 1000000000000 / f } ≡ t) e
      (subst (λ y. record t { original_sleep_time_ps = y } ≡ t) g refl)

-- A class with the members of Timer, which `get` reads and `put` writes, among others. All methods
-- but sleep_to_next_tick are those that the classes share.
module _ (M : Type 0) (get : M → Timer) (put : Timer → M → M)
    (sleep : (ℕ → Timespec) → ℕ → M → Process → Option (Bool × Timer × Process)) where
  abbrev pub put_result : M → Option (Bool × Timer × Process) → Option (Bool × M × Process)
  put_result s none = none
  put_result s (some (b, t, p)) = some (b, put t s, p)

  abbrev put_set : M → Option (Bool × Timer) → Option (Bool × M)
  put_set s none = none
  put_set s (some (b, t)) = some (b, put t s)

  abbrev pub class_with : TimerClass
  class_with = record {
    Members = M;
    initialize = λ s. let (b, t) = Timer.initialize (get s) in (b, put t s);
    set_frequency = λ f s. put_set s (Timer.set_frequency f (get s));
    get_frequency = λ s. Timer.get_frequency (get s);
    start_timer =
        λ clock s p. let (b, t, p') = Timer.start_timer clock (get s) p in (b, put t s, p');
    stop_timer = λ s. put (Timer.stop_timer (get s)) s;
    sleep_to_next_tick = λ clock fuel s p. put_result s (sleep clock fuel s p);
    get_error = λ s. let (msg, t) = Timer.get_error (get s) in (msg, put t s);
    is_error = λ s. Timer.is_error (get s);
  }

  -- What a class brings of its own.
  pub record IsSleep : Type 0 where
    pub law : (t : Timer) (s : M) → get (put t s) ≡ t
    pub rests :
        {clock : ℕ → Timespec}
        → IsClock clock
        → (s : M) (p : Process) → IsPaced clock (get s) p
        → (fuel : ℕ) {b : Bool} {t' : Timer} {p' : Process}
        → sleep clock fuel s p ≡ some (b, t', p')
        → Rests clock (get s) p b t' p'
    pub fails :
        (clock : ℕ → Timespec) (fuel : ℕ) (s : M) (p : Process) {t' : Timer} {p' : Process}
        → sleep clock fuel s p ≡ some (false, t', p')
        → Timer.is_error t' ≡ true
    pub wakes :
        {clock : ℕ → Timespec}
        → IsClock clock
        → (s : M) (p : Process) → IsPaced clock (get s) p
        → (n fuel : ℕ) → n + 1 < fuel
        → total_ns (clock (p.reads + 1)) + (deadline (get s) - total_ns (clock p.reads))
          ≤ total_ns (clock n)
        → (b : Bool) × (t' : Timer) × (p' : Process) × (sleep clock fuel s p ≡ some (b, t', p'))

  module _ (k : IsSleep) where
    accepts_with :
        (f : ℕ) (s : M)
        → 1 ≤ f
        → f ≤ timer_max_frequency
        → put_set s (set_frequency f (get s)) ≡ some (true, put (with_frequency f (get s)) s)
    unfolding set_frequency
    accepts_with f s lo hi = ground arith

    rejects_with :
        (f : ℕ) (s : M)
        → timer_max_frequency < f
        → put_set s (set_frequency f (get s))
          ≡ some (
            false,
            put
                (record (get s) {
                  error_handler = set_error (frequency_message f) (get s).error_handler;
                })
                s,
          )
    unfolding set_frequency
    rejects_with f s hi = rw (lt→ltb timer_max_frequency f hi) refl

    starts_with :
        {clock : ℕ → Timespec}
        → IsClock clock
        → (f : ℕ) (s : M) (p : Process) → 1 ≤ f
        → f ≤ timer_max_frequency
        → HasFrequency f (get s)
        → (get s).timer_started ≡ false
        → (s' : M) × (class_with.start_timer clock s p ≡ (true, s', (clock_gettime clock p).1))
          × IsPaced clock (get s') (clock_gettime clock p).1
          × (deadline (get s') ≡ total_ns (clock p.reads) + 1000000000000 / f / 1000 + 1)
    starts_with {clock} c f s p lo hi h idle =
        let (v, set, e, r, same, at, due) = start_timer-IsRunning c f (get s) p lo hi idle in
        let paced : IsPaced clock v (clock_gettime clock p).1 = record {
          running = r;
          begun = omega (arith, ap total_ns at, c.monotonic p.reads);
        } in
        let e' =
          subst (λ t. start_timer clock t p ≡ (true, v, (clock_gettime clock p).1))
            (same_frequency f (get s) h) e in
        (
          put v s,
          ap (λ (r : Bool × Timer × Process). (r.0, put r.1 s, r.2)) e',
          rw (k.law v s) paced,
          rw (k.law v s) due,
        )

    runs_with :
        (clock : ℕ → Timespec) (s : M) (p : Process)
        → (get s).timer_started ≡ true
        → (s' : M) × (class_with.start_timer clock s p ≡ (false, s', p))
          × (class_with.is_error s' ≡ true)
    unfolding start_timer
    runs_with clock s p h =
        let t = record (get s) {
          error_handler =
              set_error "You can't start the timer while it is already running"
                (get s).error_handler;
        } in
        (put t s, rw h refl, rw (k.law t s) refl)

    put_result-some :
        (s : M) (o : Option (Bool × Timer × Process)) {b : Bool} {s' : M} {p' : Process}
        → put_result s o ≡ some (b, s', p')
        → (t : Timer) × (o ≡ some (b, t, p')) × (put t s ≡ s')
    put_result-some s none e = cc
    put_result-some s (some (b, t, p)) e = (t, cc, cc)

    Rests-with :
        {clock : ℕ → Timespec}
        → IsClock clock
        → (s : M) (p : Process) → IsPaced clock (get s) p
        → (fuel : ℕ) {b : Bool} {s' : M} {p' : Process}
        → put_result s (sleep clock fuel s p) ≡ some (b, s', p')
        → Rests clock (get s) p b (get s') p' × (b ≡ false → class_with.is_error s' ≡ true)
    Rests-with {clock} c s p h fuel {b} {s'} {p'} e =
        let (t, slept, same) = put_result-some s (sleep clock fuel s p) e in
        let got : t ≡ get s' = sym (k.law t s) ∙ ap get same in
        (
          subst (λ v. Rests clock (get s) p b v p') got (k.rests c s p h fuel slept),
          λ f.
              subst (λ v. Timer.is_error v ≡ true) got
                (k.fails clock fuel s p
                  (subst (λ (d : Bool). sleep clock fuel s p ≡ some (d, t, p')) f slept)),
        )

    wakes_with :
        {clock : ℕ → Timespec}
        → IsClock clock
        → (s : M) (p : Process) → IsPaced clock (get s) p
        → (n fuel : ℕ) → n + 1 < fuel
        → total_ns (clock (p.reads + 1)) + (deadline (get s) - total_ns (clock p.reads))
          ≤ total_ns (clock n)
        → (b : Bool) × (s' : M) × (p' : Process) × (put_result s (sleep clock fuel s p)
            ≡ some (b, s', p'))
    wakes_with c s p h n fuel f reach =
        let (b, t, p', e) = k.wakes c s p h n fuel f reach in (b, put t s, p', ap (put_result s) e)

    pub class_with-IsTimer : IsTimer class_with get
    unfolding Timer.initialize Timer.stop_timer
    class_with-IsTimer = record {
      initializes = λ s. rw (k.law (Timer.initialize (get s)).1 s) (refl, refl, refl);
      accepts = λ f s lo hi.
          let got = k.law (with_frequency f (get s)) s in
          (
            put (with_frequency f (get s)) s,
            accepts_with f s lo hi,
            ap Timer.get_frequency got,
            (ap Timer.get_frequency got, rw got refl),
            rw got refl,
          );
      rejects = λ f s hi.
          let t : Timer = record (get s) {
            error_handler = set_error (frequency_message f) (get s).error_handler;
          } in
          (put t s, rejects_with f s hi, rw (k.law t s) refl, rw (k.law t s) refl);
      starts = starts_with;
      runs_already = runs_with;
      stops = λ s. rw (k.law (Timer.stop_timer (get s)) s) (refl, refl, λ f h. h);
      rests = Rests-with;
      wakes = wakes_with;
      reports = λ s. rw (k.law (Timer.get_error (get s)).1 s) (refl, refl);
    }
