-- ===== src/System/Run/Ends.antt =====
-- src/systems/real_time_system.cpp: how a call of run ends.
use real_time_data_transfer.Base.{
  ℕ, zero, suc, ◌≡◌, refl, true, false, String, Option, none, some, sym, subst, ◌∙◌, if_elim, not,
  ◌&&◌, ◌/◌, ◌==◌, mul64,
}
use real_time_data_transfer.System.{RealTimeSystem, World, with_error}
use real_time_data_transfer.System.Info.{real_time_info}
use real_time_data_transfer.System.Setup.{Returned}
use real_time_data_transfer.System.Run.{
  Counters, Round, again, return, Parts, next_round, skip_round, send_round, serve_round, round,
  rounds, run, end_round, ask_user, use_tolerance, first_counters,
}

module _ (w : World) (parts : Parts) where
  open w use {State, sender_end, timer_start, timer_get_error}

  -- A return from the loop: the sender was ended last; true leaves the system as it was, and false
  -- comes with an error and changes nothing else.
  pub record IsEnd (s : RealTimeSystem) (r : Returned w) : Type 0 where
    pub before : State
    pub ended : r.2 ≡ sender_end parts.sender before
    pub stopped : r.0 ≡ true → r.1 ≡ s
    pub failed : r.0 ≡ false → r.1.error_handler.is_error_flag ≡ true
    pub same : r.1 ≡ record s { error_handler = r.1.error_handler }

  data Ends (s : RealTimeSystem) : Round (Counters × State) (Returned w) → Type 0 where
    goes_on : {x : Counters × State} → Ends s (again x)
    ends : {r : Returned w} → IsEnd s r → Ends s (return r)

  -- The two ways to return.
  stop-Ends : (s : RealTimeSystem) (w0 : State) → Ends s (end_round w parts true s w0)
  stop-Ends s w0 =
      ends
        (record { before = w0; ended = refl; stopped = λ h. refl; failed = λ h. cc; same = refl })

  fail-Ends :
      (s : RealTimeSystem) (msg : String) (w0 : State)
      → Ends s (end_round w parts false (with_error msg s) w0)
  fail-Ends s msg w0 =
      ends
        (record { before = w0; ended = refl; stopped = λ h. cc; failed = λ h. refl; same = refl })

  next_round-Ends :
      (s : RealTimeSystem) (c : Counters) (w0 : State) → Ends s (next_round w parts s c w0)
  unfolding next_round
  next_round-Ends s c w0 =
      let in_time = (w.timer_sleep_to_next_tick parts.timer w0).0 in
      if_elim (Ends s) in_time (λ e. goes_on) (λ e. fail-Ends s _ _)

  skip_round-Ends :
      (s : RealTimeSystem) (c : Counters) (used : ℕ) (w0 : State)
      → Ends s (skip_round w parts s c used w0)
  unfolding skip_round
  skip_round-Ends s c used w0 =
      let info = (ask_user w parts (real_time_info c.sequence_number true (used / 2) false) w0).0 in
      if_elim (Ends s) info.system_stopped (λ e. stop-Ends s _) (λ e. next_round-Ends s _ _)

  send_round-Ends :
      (s : RealTimeSystem) (c : Counters) (used : ℕ) (w0 : State)
      → Ends s (send_round w parts s c used w0)
  unfolding send_round
  send_round-Ends s c used w0 =
      let (info, w1) = ask_user w parts (real_time_info c.sequence_number false used false) w0 in
      let sent = (w.sender_send parts.sender w1).0 in
      if_elim (Ends s) info.system_stopped (λ e. stop-Ends s _)
        (λ e. if_elim (Ends s) (not sent) (λ f. fail-Ends s _ _) (λ f. next_round-Ends s _ _))

  serve_round-Ends :
      (s : RealTimeSystem) (c : Counters) (w0 : State) → Ends s (serve_round w parts s c w0)
  unfolding serve_round
  serve_round-Ends s c w0 =
      let w1 = (use_tolerance w parts (mul64 s.ms_tolerance 2) 0 w0).1 in
      let (done1, w2) = w.sender_is_send_done parts.sender w1 in
      let done2 = (w.sender_is_send_done parts.sender w2).0 in
      if_elim (Ends s) (not done1 && not s.allow_skip_mode) (λ e. fail-Ends s _ _)
        (λ e.
          if_elim (Ends s) (not done2 && s.allow_skip_mode) (λ f. skip_round-Ends s _ _ _)
            (λ f. send_round-Ends s c _ _))

  round-Ends : (s : RealTimeSystem) (c : Counters) (w0 : State) → Ends s (round w parts s c w0)
  unfolding round
  round-Ends s c w0 =
      if_elim (Ends s) (c.skipped_count == mul64 s.frequency 3) (λ e. fail-Ends s _ _)
        (λ e. serve_round-Ends s _ _)

  abbrev EndsWith : RealTimeSystem → Option (Returned w) → Type 0
  EndsWith s none = Unit
  EndsWith s (some r) = IsEnd s r

  rounds-Ends :
      (fuel : ℕ) (s : RealTimeSystem) (c : Counters) (w0 : State)
      → EndsWith s (rounds w parts fuel s c w0)
  unfolding rounds
  rounds-Ends zero s c w0 = tt
  rounds-Ends (suc fuel) s c w0 =
      step (round w parts s c w0) (round-Ends s c w0) (λ c' w1. rounds-Ends fuel s c' w1)
    where
      step :
          (x : Round (Counters × State) (Returned w))
          → Ends s x
          → ((c' : Counters) (w1 : State) → EndsWith s (rounds w parts fuel s c' w1))
          → EndsWith s (elim x [ again (c', w1) ↦ rounds w parts fuel s c' w1 | return r ↦ some r ])
      step (again (c', w1)) e f = f c' w1
      step (return r) (ends e) f = e

  -- Every way out of run, after a start of the timer that succeeded, ends the sender as its last
  -- act, marks the system as not initialised, and changes nothing else of it but the error handler:
  -- a return of true leaves that alone too, and a return of false has set an error.
  pub run-IsEnd :
      (fuel : ℕ) (s : RealTimeSystem) (w0 : State) {r : Returned w}
      → s.initialized ≡ true
      → (timer_start parts.timer w0).0 ≡ true
      → run w parts fuel s w0 ≡ some r
      → IsEnd (record s { initialized = false }) r
  unfolding run
  run-IsEnd fuel s w0 {r} ready started e =
      subst (EndsWith off) (sym same ∙ e)
        (rounds-Ends fuel off (first_counters w parts) (timer_start parts.timer w0).1)
    where
      off : RealTimeSystem
      off = record s { initialized = false }

      same :
          run w parts fuel s w0
          ≡ rounds w parts fuel off (first_counters w parts) (timer_start parts.timer w0).1
      same = rw ready (rw started refl)

  -- A run that is refused: on a system that is not initialised, or whose timer does not start, it
  -- returns false with an error, at once, and neither the sender nor the user's function is called.
  pub run-refused :
      (fuel : ℕ) (s : RealTimeSystem) (w0 : State)
      → (s.initialized ≡ false
          → run w parts fuel s w0 ≡ some (false, with_error "System not initialized yet." s, w0))
        × (s.initialized ≡ true
            → (timer_start parts.timer w0).0 ≡ false
            → let (msg, w1) = timer_get_error parts.timer (timer_start parts.timer w0).1 in
              run w parts fuel s w0
              ≡ some (false, with_error msg (record s { initialized = false }), w1))
  unfolding run
  run-refused fuel s w0 = (λ idle. rw idle, λ ready refused. rw (ready, refused))
