-- ===== src/System/Run/Protocol.antt =====
-- src/systems/real_time_system.cpp: the order in which run calls the sender, the timer and the
-- user's function, whatever these answer.
use real_time_data_transfer.Base.{
  ℕ, zero, suc, ◌+◌, ◌*◌, ◌/◌, ◌%◌, ◌^◌, ◌≤◌, ◌≡◌, refl, sym, Bool, true, false, not, ◌&&◌, ◌||◌,
  List, [], ◌∷◌, arith, ◌==◌, add64, mul64, if_elim, not-true, not-false,
}
use real_time_data_transfer.Packets.{Packets}
use real_time_data_transfer.System.{RealTimeSystem, World}
use real_time_data_transfer.System.Info.{RealTimeInfo, real_time_info}
use real_time_data_transfer.System.Setup.{Returned}
use real_time_data_transfer.System.Run.{
  Counters, Round, again, return, Parts, next_round, skip_round, send_round, serve_round, round,
  ask_user, use_tolerance, first_counters,
}
use real_time_data_transfer.System.Run.Log.{
  Call, polled, napped, asked, assigned, sent, ticked, ended, other, logged, asks, MayBegin,
  MayPoll, MayTick, MayEnd, IsOrderly, log_after,
}

module _ (w : World) (parts : Parts) (s : RealTimeSystem) where
  abbrev Logged : Type 0
  Logged = w.State × List Call

  -- The log of the rounds that went on.
  abbrev Live : List Call → Type 0
  Live l = MayBegin l × IsOrderly s l

  -- A log within the polls of a round.
  abbrev Polling : List Call → Type 0
  Polling l = MayPoll l × IsOrderly s l

  Live-Polling : (l : List Call) → Live l → Polling l
  Live-Polling [] v = v
  Live-Polling (ticked b ∷ l) v = v
  Live-Polling (polled b ∷ l) v = absurd v.0
  Live-Polling (napped n ∷ l) v = absurd v.0
  Live-Polling (asked i b p ∷ l) v = absurd v.0
  Live-Polling (assigned p ∷ l) v = absurd v.0
  Live-Polling (sent b ∷ l) v = absurd v.0
  Live-Polling (ended ∷ l) v = absurd v.0
  Live-Polling (other ∷ l) v = absurd v.0

  Live-ends : (l : List Call) → Live l → MayEnd s l
  Live-ends [] v = tt
  Live-ends (ticked b ∷ l) v = tt
  Live-ends (polled b ∷ l) v = absurd v.0
  Live-ends (napped n ∷ l) v = absurd v.0
  Live-ends (asked i b p ∷ l) v = absurd v.0
  Live-ends (assigned p ∷ l) v = absurd v.0
  Live-ends (sent b ∷ l) v = absurd v.0
  Live-ends (ended ∷ l) v = absurd v.0
  Live-ends (other ∷ l) v = absurd v.0

  -- A round that keeps to the order, and counts its calls of the user's function.
  data Keeps : Round (Counters × Logged) (Returned (logged w)) → Type 0 where
    goes_on :
        {c : Counters} {x : w.State} {l : List Call}
        → Live l
        → add64 c.sequence_number 1 ≡ asks l % 2 ^ 64
        → Keeps (again (c, (x, l)))
    ends :
        {b : Bool} {s' : RealTimeSystem} {x : w.State} {l : List Call}
        → IsOrderly s l
        → Keeps (return (b, s', (x, l)))

  -- The tolerance loop adds polls and naps, and uses at most its rounds.
  record Tolerated (l : List Call) (most : ℕ) (r : ℕ × Logged) : Type 0 where
    live : Polling r.1.1
    unasked : asks r.1.1 ≡ asks l
    within : r.0 ≤ most

  use_tolerance-Tolerated :
      (left used most : ℕ) (x : w.State) (l : List Call)
      → Polling l
      → used + left ≤ most
      → Tolerated l most (use_tolerance (logged w) parts left used (x, l))
  unfolding use_tolerance
  use_tolerance-Tolerated zero used most x l v h = record {
    live = v;
    unasked = refl;
    within = omega arith;
  }
  use_tolerance-Tolerated (suc left) used most x l v h =
      let (done, x1) = w.sender_is_send_done parts.sender x in
      if_elim (Tolerated l most) done
        (λ e. record { live = (tt, v); unasked = refl; within = omega arith })
        (λ e.
          let r =
            use_tolerance-Tolerated left (used + 1) most (w.microseconds_sleep 500 x1)
              (napped 500 ∷ polled done ∷ l) (tt, ((refl, e), v)) (omega arith) in
          record { live = r.live; unasked = r.unasked; within = r.within })

  next_round-Keeps :
      (s' : RealTimeSystem) (c : Counters) (x : w.State) (l : List Call)
      → MayTick l × IsOrderly s l
      → add64 c.sequence_number 1 ≡ asks l % 2 ^ 64
      → Keeps (next_round (logged w) parts s' c (x, l))
  unfolding next_round
  next_round-Keeps s' c x l v e =
      if_elim Keeps (w.timer_sleep_to_next_tick parts.timer x).0 (λ t. goes_on (t, v) e)
        (λ t. ends (tt, v))

  -- A round after its two polls, in the order of the log, with `used` rounds of the tolerance.
  module _ (c : Counters) (used : ℕ) (x : w.State) (l : List Call) (d1 d2 : Bool) (v : Polling l)
      (numbered : c.sequence_number ≡ asks l % 2 ^ 64) (within : used ≤ s.ms_tolerance * 2) where
    abbrev polls : List Call
    polls = polled d2 ∷ polled d1 ∷ l

    -- The packets that the user's function returns when it is asked with `info`.
    abbrev returned : RealTimeInfo → Packets
    returned info = (w.user_function parts.user_app_func info x).1

    skip_round-Keeps :
        (not d2 && s.allow_skip_mode) ≡ true
        → Keeps (skip_round (logged w) parts s c used (x, polls))
    unfolding skip_round
    skip_round-Keeps skipping =
        let info = real_time_info c.sequence_number true (used / 2) false in
        let stopped = (w.user_function parts.user_app_func info x).0.system_stopped in
        let p = returned info in
        let orderly : IsOrderly s (assigned p ∷ asked info stopped p ∷ polls) =
          (refl, ((numbered, omega arith, refl, sym skipping), (tt, v))) in
        if_elim Keeps stopped (λ e. ends (e, orderly))
          (λ e. next_round-Keeps s _ _ _ ((refl, e), orderly) (omega (arith, numbered)))

    send_round-Keeps :
        (not d2 && s.allow_skip_mode) ≡ false
        → (d1 || d2) ≡ true
        → Keeps (send_round (logged w) parts s c used (x, polls))
    unfolding send_round
    send_round-Keeps sending done =
        let info = real_time_info c.sequence_number false used false in
        let (answer, asked_world) = ask_user (logged w) parts info (x, polls) in
        let stopped = answer.system_stopped in
        let p = returned info in
        let sent_now = (w.sender_send parts.sender asked_world.0).0 in
        let orderly : IsOrderly s (assigned p ∷ asked info stopped p ∷ polls) =
          (refl, ((numbered, within, refl, sym sending), (tt, v))) in
        if_elim Keeps stopped (λ e. ends (e, orderly))
          (λ e.
            let accepted : IsOrderly s (sent sent_now ∷ asked_world.1) =
              ((refl, e, done), orderly) in
            if_elim Keeps (not sent_now) (λ f. ends (tt, (not-true sent_now f, accepted)))
              (λ f.
                next_round-Keeps s _ _ _ (not-false sent_now f, accepted)
                  (omega (arith, numbered))))

  serve_round-Keeps :
      (c : Counters) (x : w.State) (l : List Call)
      → Live l
      → c.sequence_number ≡ asks l % 2 ^ 64
      → Keeps (serve_round (logged w) parts s c (x, l))
  unfolding serve_round
  serve_round-Keeps c x l v numbered =
      let (used, (x1, l1)) = use_tolerance (logged w) parts (mul64 s.ms_tolerance 2) 0 (x, l) in
      let t =
        use_tolerance-Tolerated (mul64 s.ms_tolerance 2) 0 (s.ms_tolerance * 2) x l
          (Live-Polling l v) (omega arith) in
      let (done1, x2) = w.sender_is_send_done parts.sender x1 in
      let (done2, x3) = w.sender_is_send_done parts.sender x2 in
      let same : c.sequence_number ≡ asks l1 % 2 ^ 64 = rw t.unasked numbered in
      if_elim Keeps (not done1 && not s.allow_skip_mode)
        (λ e. ends ((ground arith, ground arith), t.live))
        (λ e.
          if_elim Keeps (not done2 && s.allow_skip_mode)
            (λ f. skip_round-Keeps c used x3 l1 done1 done2 t.live same t.within f)
            (λ f. send_round-Keeps c used x3 l1 done1 done2 t.live same t.within f (ground arith)))

  round-Keeps :
      (c : Counters) (x : w.State) (l : List Call)
      → Live l
      → add64 c.sequence_number 1 ≡ asks l % 2 ^ 64
      → Keeps (round (logged w) parts s c (x, l))
  unfolding round
  round-Keeps c x l v numbered =
      if_elim Keeps (c.skipped_count == mul64 s.frequency 3) (λ e. ends (Live-ends l v, v.1))
        (λ e. serve_round-Keeps _ x l v numbered)

  log_after-IsOrderly :
      (n : ℕ) (c : Counters) (x : w.State) (l : List Call)
      → Live l
      → add64 c.sequence_number 1 ≡ asks l % 2 ^ 64
      → IsOrderly s (log_after w parts n s c (x, l))
  unfolding log_after
  log_after-IsOrderly zero c x l v numbered = v.1
  log_after-IsOrderly (suc n) c x l v numbered =
      step (round (logged w) parts s c (x, l)) (round-Keeps c x l v numbered)
        (λ c' x' l' v' e. log_after-IsOrderly n c' x' l' v' e)
    where
      step :
          (r : Round (Counters × Logged) (Returned (logged w)))
          → Keeps r
          → ((c' : Counters) (x' : w.State) (l' : List Call)
              → Live l'
              → add64 c'.sequence_number 1 ≡ asks l' % 2 ^ 64
              → IsOrderly s (log_after w parts n s c' (x', l')))
          → IsOrderly s
              (elim r [ again (c', y) ↦ log_after w parts n s c' y | return (b, s', y) ↦ y.1 ])
      step (again _) (goes_on {c} {x} {l} v e) f = f c x l v e
      step (return _) (ends v) f = v

  -- The loop of run calls its parts in order, in every world and after any number of rounds. A
  -- round begins with the first call, or after sleep_to_next_tick has returned true; it polls the
  -- sender and then asks the user's function, directly after two polls. These calls are numbered 0,
  -- 1, 2, ... modulo 2 ^ 64, with a delay of at most twice the tolerance, and announce that the
  -- packets are skipped exactly when the second poll said not done in skip mode. The packets that
  -- are stored are those that the function has just returned. sleep_to_next_tick is called directly
  -- after a send that has returned true, or directly after the packets have been stored when they
  -- were announced as skipped; send is called directly after they have been stored when they were
  -- not, and one of the two polls said done; neither is called when the function has stopped the
  -- system. The sender is ended only for a reason that `MayEnd` names, and nothing is called after
  -- that.
  pub run-IsOrderly :
      (n : ℕ) (x : w.State) → IsOrderly s (log_after w parts n s (first_counters w parts) (x, []))
  run-IsOrderly n x = log_after-IsOrderly n _ x [] (tt, tt) refl
