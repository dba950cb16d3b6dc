-- ===== src/Timer/Returns.antt =====
-- src/timers: whenever sleep_to_next_tick of one of the three classes returns.
use real_time_data_transfer.Base.{
  ltb, Bool-cases, sub64, ℕ, ◌+◌, ◌-◌, ◌≤◌, ◌≡◌, refl, ◌⊎◌, inl, inr, Bool, Option, none, some,
  arith, dec_lt,
}
use real_time_data_transfer.Time.{Timespec, timespec_diff_ns, total_ns}
use real_time_data_transfer.Time.Sleep.{Process, clock_gettime, nanoseconds_sleep}
use real_time_data_transfer.Time.Sleep.Laws.{IsClock}
use real_time_data_transfer.Time.Sleep.Past.{nanoseconds_sleep-Past}
use real_time_data_transfer.Timer.{Timer}
use real_time_data_transfer.Timer.Tick.{deadline}
use real_time_data_transfer.Timer.BusyWait
use real_time_data_transfer.Timer.FreeWait
use real_time_data_transfer.Timer.WorstCase
use real_time_data_transfer.Timer.WorstCase.{WorstCaseTimer, ticked}
use real_time_data_transfer.Timer.Waking.{busy_wait, IsPaced, time_left, ticked_iff, not_ticked}
use real_time_data_transfer.Timer.Sound.{busy_wait-Past, Rests, Past-Rests, late-Rests, Rests-same}

none_not_some : {A : Type 0} {x : A} → none ≡ some x → ⊥
none_not_some e = cc

some_or_none : {A : Type 0} (o : Option A) → (o ≡ none) ⊎ ((x : A) × (o ≡ some x))
some_or_none none = inl refl
some_or_none (some x) = inr (x, refl)

module _ {clock : ℕ → Timespec} (c : IsClock clock) (t : Timer) (p : Process)
    (h : IsPaced clock t p) where
  -- Whenever BusyWaitTimer::sleep_to_next_tick returns.
  pub busy_timer-Rests :
      (fuel : ℕ) {b : Bool} {t' : Timer} {p' : Process}
      → BusyWait.sleep_to_next_tick clock fuel t p ≡ some (b, t', p')
      → Rests clock t p b t' p'
  unfolding BusyWait.sleep_to_next_tick
  busy_timer-Rests fuel e =
      let p1 = (clock_gettime clock p).1 in
      elim (dec_lt (deadline t) (total_ns (clock p.reads))) [
        | yes late ↦
            Rests-same c t p h (late-Rests c t p h late)
              (rw ((ticked_iff c t h.running p.reads h.begun).1 late) at e)
        | no early ↦
            let e1 = rw (not_ticked c t h.running p.reads h.begun (omega arith)) at e in
            elim (some_or_none
              (busy_wait clock fuel t.start_time (clock p.reads) t.sleep_time_ns p1)) [
                | inl n ↦ absurd (none_not_some (rw n at e1))
                | inr (q, s) ↦
                    Rests-same c t p h
                      (Past-Rests c t p h (omega arith) (
                        busy_wait-Past c t h.running fuel p.reads p.reads p1 h.begun (omega arith)
                          refl s))
                      (rw s at e1)
              ]
      ]

  -- Whenever FreeWaitTimer::sleep_to_next_tick returns.
  pub free_wait-Rests :
      (fuel : ℕ) {b : Bool} {t' : Timer} {p' : Process}
      → FreeWait.sleep_to_next_tick clock fuel t p ≡ some (b, t', p')
      → Rests clock t p b t' p'
  unfolding FreeWait.sleep_to_next_tick
  free_wait-Rests fuel e =
      let p1 = (clock_gettime clock p).1 in
      elim (dec_lt (deadline t) (total_ns (clock p.reads))) [
        | yes late ↦
            Rests-same c t p h (late-Rests c t p h late)
              (rw ((ticked_iff c t h.running p.reads h.begun).1 late) at e)
        | no early ↦
            let left = deadline t - total_ns (clock p.reads) in
            let e1 =
              rw
                (
                  not_ticked c t h.running p.reads h.begun (omega arith),
                  time_left c t h.running p.reads h.begun (omega arith),
                )
                at e in
            elim (some_or_none (nanoseconds_sleep clock fuel left p1)) [
              | inl n ↦ absurd (none_not_some (rw n at e1))
              | inr (q, s) ↦
                  let w = nanoseconds_sleep-Past c fuel left p1 s in
                  Rests-same c t p h
                    (Past-Rests c t p h (omega arith) (record {
                      last = w.last;
                      counted = w.counted;
                      on_time = omega (arith, w.on_time, c.monotonic p.reads);
                    }))
                    (rw s at e1)
            ]
      ]

module _ {clock : ℕ → Timespec} (c : IsClock clock) (w : WorstCaseTimer) (p : Process)
    (h : IsPaced clock w.timer p) where
  open w use {timer as t, worst_timer_delay_ns as delay}

  -- The second loop, whose latest reading is number `latest`.
  waited-Rests :
      (fuel latest : ℕ) (q : Process) {b : Bool} {t' : Timer} {p' : Process}
      → total_ns (clock p.reads) ≤ deadline t
      → total_ns (clock p.reads) ≤ total_ns (clock latest)
      → q.reads ≡ latest + 1
      → ticked t (busy_wait clock fuel t.start_time (clock p.reads) t.sleep_time_ns q)
        ≡ some (b, t', p')
      → Rests clock t p b t' p'
  waited-Rests fuel latest q early old count e =
      elim (some_or_none (busy_wait clock fuel t.start_time (clock p.reads) t.sleep_time_ns q)) [
        | inl n ↦ absurd (none_not_some (rw n at e))
        | inr (q', s) ↦
            Rests-same c t p h
              (Past-Rests c t p h early
                (busy_wait-Past c t h.running fuel p.reads latest q h.begun old count s))
              (rw s at e)
      ]

  -- Whenever WorstCaseTimer::sleep_to_next_tick returns.
  pub worst_case-Rests :
      (fuel : ℕ) {b : Bool} {t' : Timer} {p' : Process}
      → WorstCase.sleep_to_next_tick clock fuel w p ≡ some (b, t', p')
      → Rests clock t p b t' p'
  unfolding WorstCase.sleep_to_next_tick
  worst_case-Rests fuel e =
      let p1 = (clock_gettime clock p).1 in
      elim (dec_lt (deadline t) (total_ns (clock p.reads))) [
        | yes late ↦
            Rests-same c t p h (late-Rests c t p h late)
              (rw ((ticked_iff c t h.running p.reads h.begun).1 late) at e)
        | no early ↦
            let e1 = rw (not_ticked c t h.running p.reads h.begun (omega arith)) at e in
            let left = sub64 t.sleep_time_ns (timespec_diff_ns t.start_time (clock p.reads)) in
            elim (Bool-cases (ltb left delay)) [
              | inl short ↦
                  waited-Rests fuel p.reads p1 (omega arith) (omega arith) refl (rw short at e1)
              | inr long ↦
                  let e2 = rw long at e1 in
                  elim (some_or_none (nanoseconds_sleep clock fuel (sub64 left delay) p1)) [
                    | inl n ↦ absurd (none_not_some (rw n at e2))
                    | inr (q, s) ↦
                        let v = nanoseconds_sleep-Past c fuel (sub64 left delay) p1 s in
                        waited-Rests fuel v.last q (omega arith)
                          (omega (arith, v.on_time, c.monotonic p.reads)) v.counted (rw s at e2)
                  ]
            ]
      ]
