-- ===== src/System/Setup/Outcome.antt =====
-- src/systems/real_time_system.cpp: what initialize leaves, whether it succeeds or fails.
use real_time_data_transfer.Base.{
  ℕ, ◌+◌, ◌-◌, ◌/◌, ◌≤◌, ◌≡◌, refl, ◌≢◌, true, false, not, String, none, some, arith, ◌==◌, if_elim,
  sub64, Option, Bool-cases, inl, inr, subst, sym,
}
use real_time_data_transfer.System.{RealTimeSystem, World}
use real_time_data_transfer.System.Setup.{
  adjust_tolerance, Returned, fail, fail_with, convert_rt_thread, initialize_components,
  check_given, initialize,
}

-- A system that has all it needs, with a tolerance that was cut to the period.
pub record IsReady (s : RealTimeSystem) : Type 0 where
  pub has_timer : s.timer ≢ none
  pub has_sender : s.sender ≢ none
  pub has_function : s.user_app_func ≢ none
  pub has_frequency : s.frequency ≢ 0
  pub initialized : s.initialized ≡ true
  pub tolerance : s.frequency ≤ 100 → s.ms_tolerance + 5 ≤ 1000 / s.frequency

period_bounds : (f : ℕ) → 1 ≤ f → f ≤ 100 → (10 ≤ 1000 / f) × (1000 / f ≤ 1000)
period_bounds f h k = grind arith

-- For frequencies that the timers support the subtraction of 5 does not wrap.
adjust_tolerance-le :
    (s : RealTimeSystem)
    → s.frequency ≢ 0
    → s.frequency ≤ 100
    → (adjust_tolerance s + 5 ≤ 1000 / s.frequency) × (adjust_tolerance s ≤ s.ms_tolerance)
adjust_tolerance-le s h k =
    let period = period_bounds s.frequency (omega arith) k in
    let exact : sub64 (1000 / s.frequency) 5 ≡ 1000 / s.frequency - 5 = omega arith in
    rw exact (ground arith)

module _ (w : World) where
  open w use {State}

  -- Success makes the system ready and changes nothing but the tolerance, which it does not raise;
  -- failure sets an error and changes nothing else: not the flag either.
  pub record IsOutcome (s : RealTimeSystem) (r : Returned w) : Type 0 where
    pub succeeded :
        r.0 ≡ true
        → IsReady r.1 × (r.1 ≡ record s { ms_tolerance = adjust_tolerance s; initialized = true })
    pub failed :
        r.0 ≡ false
        → (r.1.error_handler.is_error_flag ≡ true)
          × (r.1 ≡ record s { error_handler = r.1.error_handler })

  fail-IsOutcome : (s : RealTimeSystem) (msg : String) (x : State) → IsOutcome s (fail w msg s x)
  fail-IsOutcome s msg x = record { succeeded = λ h. cc; failed = λ h. (refl, refl) }

  convert_rt_thread-same :
      (s : RealTimeSystem) (x : State)
      → ((convert_rt_thread w s x).0 ≡ true → (convert_rt_thread w s x).1 ≡ s)
        × ((convert_rt_thread w s x).0 ≡ false → IsOutcome s (convert_rt_thread w s x))
  unfolding convert_rt_thread
  convert_rt_thread-same s x =
      let (locked, w1) = w.mlockall x in
      let (scheduled, w2) = w.sched_setscheduler w1 in
      let pinned = (w.sched_setaffinity w2).0 in
      if_elim Kept (not locked) (λ e. refused)
        (λ e.
          if_elim Kept (not scheduled) (λ f. refused)
            (λ f. if_elim Kept (not pinned) (λ g. refused) (λ g. (λ h. refl, λ h. cc))))
    where
      Kept : Returned w → Type 0
      Kept r = (r.0 ≡ true → r.1 ≡ s) × (r.0 ≡ false → IsOutcome s r)

      refused : {msg : String} {y : State} → Kept (fail w msg s y)
      refused {msg} {y} = (λ h. cc, λ h. fail-IsOutcome s msg y)

  -- A failure after the conversion, which leaves the system as it is.
  refused : (s s1 : RealTimeSystem) (m : String × State) → s1 ≡ s → IsOutcome s (fail_with w m s1)
  refused s s1 m e = subst (λ t. IsOutcome s (fail_with w m t)) (sym e) (fail-IsOutcome s m.0 m.1)

  module _ (timer sender fn : ℕ) (s : RealTimeSystem) (e1 : s.timer ≡ some timer)
      (e2 : s.sender ≡ some sender) (e3 : s.user_app_func ≡ some fn) (e4 : s.frequency ≢ 0) where
    ready : IsReady (record s { ms_tolerance = adjust_tolerance s; initialized = true })
    ready = record {
      has_timer = λ e. cc;
      has_sender = λ e. cc;
      has_function = λ e. cc;
      has_frequency = e4;
      initialized = refl;
      tolerance = λ h. (adjust_tolerance-le s e4 h).0;
    }

    completed :
        (s1 : RealTimeSystem) (y : State)
        → s1 ≡ s
        → IsOutcome s
            (true, record s1 { ms_tolerance = adjust_tolerance s1; initialized = true }, y)
    completed s1 y e =
        subst
          (λ (t : RealTimeSystem).
            IsOutcome s
              (true, record t { ms_tolerance = adjust_tolerance t; initialized = true }, y))
          (sym e) (record { succeeded = λ h. (ready, refl); failed = λ h. cc })

    components-IsOutcome : (x : State) → IsOutcome s (initialize_components w timer sender s x)
    unfolding initialize_components
    components-IsOutcome x =
        let (same, broken) = convert_rt_thread-same s x in
        let (converted, s1, w1) = convert_rt_thread w s x in
        let (timer_ready, w2) = w.timer_initialize timer w1 in
        let (supported, w3) = w.timer_set_frequency timer s.frequency w2 in
        let (sender_ready, w4) = w.sender_initialize sender w3 in
        elim (Bool-cases converted) [
          | inr e ↦ rw e (record { succeeded = λ h. cc; failed = λ h. (broken e).failed e })
          | inl e ↦ rw e (
              if_elim (IsOutcome s) (not timer_ready) (λ f. refused s s1 _ (same e))
                (λ f.
                  if_elim (IsOutcome s) (not supported) (λ g. refused s s1 _ (same e))
                    (λ g.
                      if_elim (IsOutcome s) (not sender_ready) (λ h. refused s s1 _ (same e))
                        (λ h. completed s1 w4 (same e)))))
        ]

  check_given-IsOutcome :
      (fn timer sender : Option ℕ) (s : RealTimeSystem) (x : State)
      → s.user_app_func ≡ fn
      → s.timer ≡ timer
      → s.sender ≡ sender
      → IsOutcome s (check_given w fn timer sender s x)
  unfolding check_given
  check_given-IsOutcome none timer sender s x e3 e1 e2 = fail-IsOutcome s _ x
  check_given-IsOutcome (some fn) none sender s x e3 e1 e2 = fail-IsOutcome s _ x
  check_given-IsOutcome (some fn) (some timer) none s x e3 e1 e2 = fail-IsOutcome s _ x
  check_given-IsOutcome (some fn) (some timer) (some sender) s x e3 e1 e2 =
      if_elim (IsOutcome s) (s.frequency == 0) (λ e. fail-IsOutcome s _ x)
        (λ e. components-IsOutcome timer sender fn s e1 e2 e3 (ground arith) x)

  -- initialize on every path. It returns true only on a system with a timer, a sender, a function
  -- and a frequency other than 0, and leaves it initialised, with nothing changed but the
  -- tolerance, which for a frequency of at most 100 is then at least 5 ms below the period. Where
  -- it returns false it has set an error, and has changed nothing else: a system that was
  -- initialised before stays so.
  pub initialize-IsOutcome : (s : RealTimeSystem) (x : State) → IsOutcome s (initialize w s x)
  unfolding initialize
  initialize-IsOutcome s x =
      check_given-IsOutcome s.user_app_func s.timer s.sender s x refl refl refl
