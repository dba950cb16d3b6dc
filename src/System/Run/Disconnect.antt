-- ===== src/System/Run/Disconnect.antt =====
-- src/systems/real_time_system.cpp: run against a sender that never finishes.
use real_time_data_transfer.Base.{
  ℕ, zero, suc, ◌+◌, ◌*◌, ◌/◌, ◌^◌, ◌≤◌, ◌<◌, ◌≡◌, refl, true, false, not, ◌&&◌, none, some, arith,
  ◌==◌, add64, mul64, ==_iff,
}
use real_time_data_transfer.Packets.{Packets}
use real_time_data_transfer.System.{RealTimeSystem, World, with_error}
use real_time_data_transfer.System.Info.{RealTimeInfo, real_time_info}
use real_time_data_transfer.System.Run.{
  Counters, again, return, Parts, skip_round, round, rounds, run, ask_user, use_tolerance,
  first_counters,
}

-- States of the world from which the sender never reports that it is done, whatever the system
-- does, while the timer keeps its time and the user does not stop the system.
pub record IsStuck (w : World) (parts : Parts) (Stuck : w.State → Type 0) : Type 0 where
  pub polls :
      (x : w.State)
      → Stuck x
      → ((w.sender_is_send_done parts.sender x).0 ≡ false)
        × Stuck (w.sender_is_send_done parts.sender x).1
  pub naps : (us : ℕ) (x : w.State) → Stuck x → Stuck (w.microseconds_sleep us x)
  pub asks :
      (i : RealTimeInfo) (x : w.State)
      → i.system_stopped ≡ false
      → Stuck x
      → ((w.user_function parts.user_app_func i x).0.system_stopped ≡ false)
        × Stuck (w.user_function parts.user_app_func i x).2
  pub assigns : (l : Packets) (x : w.State) → Stuck x → Stuck (w.assign_packets l x)
  pub ticks :
      (x : w.State)
      → Stuck x
      → ((w.timer_sleep_to_next_tick parts.timer x).0 ≡ true)
        × Stuck (w.timer_sleep_to_next_tick parts.timer x).1

module _ (w : World) (parts : Parts) (Stuck : w.State → Type 0) (h : IsStuck w parts Stuck) where
  open w use {State, sender_end, timer_start}

  -- All of the tolerance is used.
  use_tolerance-Stuck :
      (left used : ℕ) (x : State)
      → Stuck x
      → ((use_tolerance w parts left used x).0 ≡ used + left)
        × Stuck (use_tolerance w parts left used x).1
  unfolding use_tolerance
  use_tolerance-Stuck zero used x s = (omega arith, s)
  use_tolerance-Stuck (suc left) used x s =
      let (busy, s1) = h.polls x s in
      let (all, s2) = use_tolerance-Stuck left (used + 1) _ (h.naps 500 _ s1) in
      rw busy (omega (arith, all), s2)

  skip_round-again :
      (s : RealTimeSystem) (c : Counters) (used : ℕ) (x : State)
      → Stuck x
      → (x' : State) × (skip_round w parts s c used x
          ≡ again (record c { skipped_count = add64 c.skipped_count 1 }, x'))
        × Stuck x'
  unfolding skip_round
  skip_round-again s c used x stuck =
      let info = real_time_info c.sequence_number true (used / 2) false in
      let asked = (ask_user w parts info x).1 in
      let (running, s1) = h.asks info x refl stuck in
      let (in_time, s2) = h.ticks asked (h.assigns _ _ s1) in
      ((w.timer_sleep_to_next_tick parts.timer asked).1, rw (running, in_time) refl, s2)

  -- The round that finds the limit reached.
  round-over :
      (s : RealTimeSystem) (c : Counters) (x : State)
      → (c.skipped_count == mul64 s.frequency 3) ≡ true
      → round w parts s c x
        ≡ return (false, with_error "The client disconnected." s, sender_end parts.sender x)
  unfolding round
  round-over s c x over = rw over

  -- A round in skip mode skips the packets.
  round-again :
      (s : RealTimeSystem) (c : Counters) (x : State)
      → s.allow_skip_mode ≡ true
      → (c.skipped_count == mul64 s.frequency 3) ≡ false
      → Stuck x
      → (x' : State) × (round w parts s c x
          ≡ again (
            record {
              sequence_number = add64 c.sequence_number 1;
              skipped_count = add64 c.skipped_count 1;
            },
            x',
          ))
        × Stuck x'
  unfolding round
  round-again s c x allow more stuck =
      let (all, s1) = use_tolerance-Stuck (mul64 s.ms_tolerance 2) 0 x stuck in
      let w1 = (use_tolerance w parts (mul64 s.ms_tolerance 2) 0 x).1 in
      let (busy1, s2) = h.polls w1 s1 in
      let (done1, w2) = w.sender_is_send_done parts.sender w1 in
      let (busy2, s3) = h.polls w2 s2 in
      let (done2, w3) = w.sender_is_send_done parts.sender w2 in
      let kept : (not done1 && not s.allow_skip_mode) ≡ false = rw (busy1, allow) in
      let skip : (not done2 && s.allow_skip_mode) ≡ true = rw (busy2, allow) in
      let numbered = record c { sequence_number = add64 c.sequence_number 1 } in
      let used = (use_tolerance w parts (mul64 s.ms_tolerance 2) 0 x).0 in
      let (x', e, s4) = skip_round-again s numbered used w3 s3 in (x', rw (more, kept, skip) e, s4)

  -- With `k` rounds to go to the limit.
  rounds-disconnect :
      (k fuel : ℕ) (s : RealTimeSystem) (c : Counters) (x : State)
      → s.allow_skip_mode ≡ true
      → 3 * s.frequency < 2 ^ 64
      → c.skipped_count + k ≡ 3 * s.frequency
      → Stuck x
      → (fuel ≤ k → rounds w parts fuel s c x ≡ none)
        × (k < fuel
            → (x' : State) × (rounds w parts fuel s c x
                ≡ some
                    (false, with_error "The client disconnected." s, sender_end parts.sender x')))
  unfolding rounds
  rounds-disconnect k zero s c x allow fits e stuck = (λ h. refl, λ h. elim h [ ])
  rounds-disconnect zero (suc fuel) s c x allow fits e stuck =
      let over : (c.skipped_count == mul64 s.frequency 3) ≡ true = (==_iff _ _).1 (omega arith) in
      (λ h. elim h [ ], λ h. (x, rw (round-over s c x over, rounds)))
  rounds-disconnect (suc k) (suc fuel) s c x allow fits e stuck =
      let more : (c.skipped_count == mul64 s.frequency 3) ≡ false = ground arith in
      let (x', same, next) = round-again s c x allow more stuck in
      let closer : add64 c.skipped_count 1 + k ≡ 3 * s.frequency = omega arith in
      let c' = record c {
        sequence_number = add64 c.sequence_number 1;
        skipped_count = add64 c.skipped_count 1;
      } in
      let (short, long) = rounds-disconnect k fuel s c' x' allow fits closer next in
      (λ h. rw (same, rounds) (short (omega arith)), λ h. rw (same, rounds) (long (omega arith)))

  -- A client that stops reading. If, from the start of the timer on, the sender never reports that
  -- it is done, the timer keeps its time and the user does not stop the system, then in skip mode
  -- run goes on for exactly three seconds of ticks, 3 * frequency rounds, and in the next returns
  -- false with "The client disconnected.", having ended the sender.
  pub run-disconnects :
      (fuel : ℕ) (s : RealTimeSystem) (x : State)
      → s.initialized ≡ true
      → s.allow_skip_mode ≡ true
      → 3 * s.frequency < 2 ^ 64
      → (timer_start parts.timer x).0 ≡ true
      → Stuck (timer_start parts.timer x).1
      → (fuel ≤ 3 * s.frequency → run w parts fuel s x ≡ none)
        × (3 * s.frequency < fuel
            → (x' : State) × (run w parts fuel s x
                ≡ some (
                  false,
                  with_error "The client disconnected." (record s { initialized = false }),
                  sender_end parts.sender x',
                )))
  unfolding run
  run-disconnects fuel s x ready allow fits started stuck =
      let (short, long) =
        rounds-disconnect (3 * s.frequency) fuel (record s { initialized = false })
          (first_counters w parts) _ allow fits (omega arith) stuck in
      (λ h. simp (ready, started) (short h), λ h. simp (ready, started) (long h))
