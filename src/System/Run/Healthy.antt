-- ===== src/System/Run/Healthy.antt =====
-- src/systems/real_time_system.cpp: run while nothing goes wrong.
use real_time_data_transfer.Base.{
  ◌==◌, if_elim, add64, mul64, ℕ, zero, suc, ◌+◌, ◌*◌, ◌^◌, ◌≤◌, ◌<◌, ◌≡◌, refl, sym, subst, true,
  false, not, ◌&&◌, none, arith,
}
use real_time_data_transfer.Packets.{Packets}
use real_time_data_transfer.System.{RealTimeSystem, World}
use real_time_data_transfer.System.Info.{RealTimeInfo, real_time_info}
use real_time_data_transfer.System.Run.{
  Counters, Parts, use_tolerance, next_round, ask_user, send_round, round, Goes, rounds,
  first_counters, run, again, stands, goes_round,
}

-- States of the world from which all goes well: with `Healthy n` the sender is done after `n` naps
-- at most. A list is sent in no more naps than `limit`, and one sleep of the timer does not take
-- longer than it may; the user does not stop the system.
pub record IsHealthy (w : World) (parts : Parts) (limit : ℕ) (Healthy : ℕ → w.State → Type 0)
    : Type 0 where
  pub polls :
      (n : ℕ) (x : w.State)
      → Healthy n x
      → Healthy n (w.sender_is_send_done parts.sender x).1
        × ((w.sender_is_send_done parts.sender x).0 ≡ true
            → Healthy 0 (w.sender_is_send_done parts.sender x).1)
  pub done : (x : w.State) → Healthy 0 x → (w.sender_is_send_done parts.sender x).0 ≡ true
  pub naps : (n : ℕ) (x : w.State) → Healthy (suc n) x → Healthy n (w.microseconds_sleep 500 x)
  pub asks :
      (i : RealTimeInfo) (x : w.State)
      → i.system_stopped ≡ false
      → Healthy 0 x
      → ((w.user_function parts.user_app_func i x).0.system_stopped ≡ false)
        × Healthy 0 (w.user_function parts.user_app_func i x).2
  pub assigns : (l : Packets) (x : w.State) → Healthy 0 x → Healthy 0 (w.assign_packets l x)
  pub sends :
      (x : w.State)
      → Healthy 0 x
      → ((w.sender_send parts.sender x).0 ≡ true) × Healthy limit (w.sender_send parts.sender x).1
  pub ticks :
      (x : w.State)
      → Healthy limit x
      → ((w.timer_sleep_to_next_tick parts.timer x).0 ≡ true)
        × Healthy limit (w.timer_sleep_to_next_tick parts.timer x).1

module _ (w : World) (parts : Parts) (s : RealTimeSystem) (Healthy : ℕ → w.State → Type 0)
    (k : IsHealthy w parts (mul64 s.ms_tolerance 2) Healthy) where
  open w use {State, timer_start}

  abbrev limit : ℕ
  limit = mul64 s.ms_tolerance 2

  -- The tolerance is enough.
  use_tolerance-Healthy :
      (left used : ℕ) (x : State) → Healthy left x → Healthy 0 (use_tolerance w parts left used x).1
  unfolding use_tolerance
  use_tolerance-Healthy zero used x h = h
  use_tolerance-Healthy (suc left) used x h =
      let (same, finished) = k.polls (suc left) x h in
      let y = (w.sender_is_send_done parts.sender x).1 in
      if_elim (λ (r : ℕ × State). Healthy 0 r.1) (w.sender_is_send_done parts.sender x).0 finished
        (λ _.
          use_tolerance-Healthy left (used + 1) (w.microseconds_sleep 500 y) (k.naps left y same))

  send_round-again :
      (t : RealTimeSystem) (c : Counters) (used : ℕ) (x : State)
      → Healthy 0 x
      → (x' : State) × (send_round w parts t c used x ≡ again (record c { skipped_count = 0 }, x'))
        × Healthy limit x'
  unfolding send_round next_round
  send_round-again t c used x h =
      let i = real_time_info c.sequence_number false used false in
      let (running, h1) = k.asks i x refl h in
      let y = (ask_user w parts i x).1 in
      let (accepted, h2) = k.sends y (k.assigns _ _ h1) in
      let (in_time, h3) = k.ticks (w.sender_send parts.sender y).1 h2 in
      (
        (w.timer_sleep_to_next_tick parts.timer (w.sender_send parts.sender y).1).1,
        rw (running, accepted, in_time) refl,
        h3,
      )

  round-again :
      (t : RealTimeSystem) (c : Counters) (x : State)
      → t.ms_tolerance ≡ s.ms_tolerance
      → (c.skipped_count == mul64 t.frequency 3) ≡ false
      → Healthy limit x
      → (x' : State) × (round w parts t c x
          ≡ again (record { sequence_number = add64 c.sequence_number 1; skipped_count = 0 }, x'))
        × Healthy limit x'
  unfolding round
  round-again t c x same more h =
      let r = use_tolerance w parts (mul64 t.ms_tolerance 2) 0 x in
      let h0 : Healthy 0 r.1 =
        use_tolerance-Healthy (mul64 t.ms_tolerance 2) 0 x
          (subst (λ m. Healthy (mul64 m 2) x) (sym same) h) in
      let (done1, x2) = w.sender_is_send_done parts.sender r.1 in
      let h1 = (k.polls 0 r.1 h0).0 in
      let (done2, x3) = w.sender_is_send_done parts.sender x2 in
      let h2 = (k.polls 0 x2 h1).0 in
      let on_time : (not done1 && not t.allow_skip_mode) ≡ false = rw (k.done r.1 h0) refl in
      let unskipped : (not done2 && t.allow_skip_mode) ≡ false = rw (k.done x2 h1) refl in
      let numbered = record c { sequence_number = add64 c.sequence_number 1 } in
      let (x', e, h3) = send_round-again t numbered r.0 x3 h2 in
      (x', rw (more, on_time, unskipped) e, h3)

  module _ (t : RealTimeSystem) (same : t.ms_tolerance ≡ s.ms_tolerance)
      (supported : (1 ≤ t.frequency) × (3 * t.frequency < 2 ^ 64)) where
    not_over : (n : ℕ) → n ≡ 0 → (n == mul64 t.frequency 3) ≡ false
    not_over n e =
        let some_rounds : mul64 t.frequency 3 ≡ 3 * t.frequency = omega (arith, supported.1) in
        ground (arith, supported.0)

    rounds-none :
        (fuel : ℕ) (c : Counters) (x : State)
        → c.skipped_count ≡ 0
        → Healthy limit x
        → rounds w parts fuel t c x ≡ none
    unfolding rounds
    rounds-none zero c x e h = refl
    rounds-none (suc fuel) c x e h =
        let (x', r, h') = round-again t c x same (not_over c.skipped_count e) h in
        rw (r, rounds) (rounds-none fuel _ x' refl h')

    Goes-Healthy :
        (n : ℕ) (c : Counters) (x : State)
        → c.skipped_count ≡ 0
        → Healthy limit x
        → (c' : Counters) × (x' : State) × Goes w parts t n (c, x) (c', x')
          × (c'.skipped_count ≡ 0)
          × Healthy limit x'
    Goes-Healthy zero c x e h = (c, x, stands, e, h)
    Goes-Healthy (suc n) c x e h =
        let (x1, r, h1) = round-again t c x same (not_over c.skipped_count e) h in
        let (c', x', g, e', h') = Goes-Healthy n _ x1 refl h1 in (c', x', goes_round r g, e', h')

  -- A system in which nothing goes wrong does not stop. If the timer starts, and from then on the
  -- sender takes each list and is done with it within the tolerance, the timer keeps its time, and
  -- the user does not stop the system, then run never returns, with skip mode or without: any
  -- number of rounds goes on, and none of them skips its packets.
  pub run-lasts :
      (x : State)
      → s.initialized ≡ true
      → 1 ≤ s.frequency
      → 3 * s.frequency < 2 ^ 64
      → (timer_start parts.timer x).0 ≡ true
      → Healthy (mul64 s.ms_tolerance 2) (timer_start parts.timer x).1
      → ((fuel : ℕ) → run w parts fuel s x ≡ none)
        × ((n : ℕ)
            → (c' : Counters) × (x' : State) × Goes w parts
                (record s { initialized = false })
                n
                (first_counters w parts, (timer_start parts.timer x).1)
                (c', x')
              × (c'.skipped_count ≡ 0))
  unfolding run
  run-lasts x ready lo hi started h =
      let off : RealTimeSystem = record s { initialized = false } in
      let x1 = (timer_start parts.timer x).1 in
      (
        λ fuel.
            simp (ready, started)
              (rounds-none off refl (lo, hi) fuel (first_counters w parts) x1 refl h),
        λ n.
            let (c', x', g, e, h') =
              Goes-Healthy off refl (lo, hi) n (first_counters w parts) x1 refl h in
            (c', x', g, e),
      )
