-- ===== src/Timer/Classes.antt =====
-- src/timers/busy_wait_timer.cpp, free_wait_timer.cpp and worst_case_timer.cpp: the three classes
-- as implementations of includes/timer.h.
use real_time_data_transfer.Base.{
  ltb, if◌then◌else◌, sub64, ◌≡◌, refl, subst, Bool, true, false, Option, none, some, arith, dec_lt,
}
use real_time_data_transfer.Time.{timespec_diff_ns, total_ns}
use real_time_data_transfer.Time.Sleep.{Process, clock_gettime}
use real_time_data_transfer.Timer.{
  Timer, next_tick, already_ticked, timer_max_frequency, set_frequency, start_timer,
  frequency_message,
}
use real_time_data_transfer.Timer
use real_time_data_transfer.Timer.Tick.{deadline}
use real_time_data_transfer.Timer.Waking.{busy_wait}
use real_time_data_transfer.Timer.Returns.{busy_timer-Rests, free_wait-Rests, worst_case-Rests}
use real_time_data_transfer.Timer.Interface.{TimerClass, IsTimer}
use real_time_data_transfer.Timer.BusyWait
use real_time_data_transfer.Timer.BusyWait.{busy_timer-IsWoken, busy_timer-IsLate}
use real_time_data_transfer.Timer.FreeWait
use real_time_data_transfer.Timer.FreeWait.{FreeWaitTimer, free_wait-IsWoken, free_wait-IsLate}
use real_time_data_transfer.Timer.WorstCase
use real_time_data_transfer.Timer.WorstCase.{
  WorstCaseTimer, ticked, worst_case-IsWoken, worst_case-IsLate,
}
use real_time_data_transfer.Timer.Shared.{class_with, IsSleep, class_with-IsTimer}

abbrev pub busy_wait_class : TimerClass
busy_wait_class = class_with Timer (λ t. t) (λ t s. t) BusyWait.sleep_to_next_tick

abbrev pub free_wait_class : TimerClass
free_wait_class = class_with FreeWaitTimer (λ t. t) (λ t s. t) FreeWait.sleep_to_next_tick

abbrev pub worst_case_class : TimerClass
worst_case_class =
    class_with WorstCaseTimer (λ w. w.timer) (λ t w. record w { timer = t })
      WorstCase.sleep_to_next_tick

-- A result false comes from the test at the top.
fails_at_top :
    (late : Bool) (t : Timer) (p : Process) (rest : Option (Bool × Timer × Process)) {t' : Timer}
    {p' : Process}
    → ((v : Timer) (q : Process) → rest ≡ some (false, v, q) → ⊥)
    → (if late then some (false, already_ticked t, p) else rest) ≡ some (false, t', p')
    → Timer.is_error t' ≡ true
fails_at_top true t p rest {t'} n e =
    let same : already_ticked t ≡ t' = cc in subst (λ v. Timer.is_error v ≡ true) same refl
fails_at_top false t p rest n e = absurd (n _ _ e)

waited_true :
    (t : Timer) (o : Option Process) (v : Timer) (q : Process)
    → ◌≡◌ {A = Option (Bool × Timer × Process)}
        (elim o [ none ↦ none | some p2 ↦ some (true, next_tick t, p2) ])
        (some (false, v, q))
    → ⊥
waited_true t none v q e = cc
waited_true t (some p2) v q e = cc

busy_wait-IsSleep : IsSleep Timer (λ t. t) (λ t s. t) BusyWait.sleep_to_next_tick
unfolding BusyWait.sleep_to_next_tick
busy_wait-IsSleep = record {
  law = λ t s. refl;
  rests = λ c t p h fuel e. busy_timer-Rests c t p h fuel e;
  fails = λ clock fuel t p e.
      fails_at_top (ltb t.sleep_time_ns (timespec_diff_ns t.start_time (clock p.reads))) t
        (clock_gettime clock p).1 _ (waited_true t _) e;
  wakes = λ {clock} c t p h n fuel f reach. elim (dec_lt (deadline t) (total_ns (clock p.reads))) [
    | yes late ↦
        (false, already_ticked t, (clock_gettime clock p).1, busy_timer-IsLate c t p h fuel late)
    | no early ↦
        let (w, prompt) =
          busy_timer-IsWoken c t p h n fuel (omega arith) (omega arith)
            (omega (arith, c.monotonic p.reads)) in
        (true, next_tick t, w.after, w.returns)
  ];
}

free_wait-IsSleep : IsSleep Timer (λ t. t) (λ t s. t) FreeWait.sleep_to_next_tick
unfolding FreeWait.sleep_to_next_tick
free_wait-IsSleep = record {
  law = λ t s. refl;
  rests = λ c t p h fuel e. free_wait-Rests c t p h fuel e;
  fails = λ clock fuel t p e.
      fails_at_top (ltb t.sleep_time_ns (timespec_diff_ns t.start_time (clock p.reads))) t
        (clock_gettime clock p).1 _ (waited_true t _) e;
  wakes = λ {clock} c t p h n fuel f reach. elim (dec_lt (deadline t) (total_ns (clock p.reads))) [
    | yes late ↦
        (false, already_ticked t, (clock_gettime clock p).1, free_wait-IsLate c t p h fuel late)
    | no early ↦
        let w = free_wait-IsWoken c t p h n fuel (omega arith) (omega arith) reach in
        (true, next_tick t, w.after, w.returns)
  ];
}

ticked_true :
    (t : Timer) (o : Option Process) (v : Timer) (q : Process) → ticked t o ≡ some (false, v, q) → ⊥
ticked_true t none v q e = cc
ticked_true t (some p2) v q e = cc

slept_true :
    (t : Timer) (wait : Process → Option Process) (o : Option Process) (v : Timer) (q : Process)
    → ◌≡◌ {A = Option (Bool × Timer × Process)}
        (elim o [ none ↦ none | some p2 ↦ ticked t (wait p2) ])
        (some (false, v, q))
    → ⊥
slept_true t wait none v q e = cc
slept_true t wait (some p2) v q e = ticked_true t (wait p2) v q e

either_true :
    (short : Bool) (x y : Option (Bool × Timer × Process))
    → ((v : Timer) (q : Process) → x ≡ some (false, v, q) → ⊥)
    → ((v : Timer) (q : Process) → y ≡ some (false, v, q) → ⊥)
    → (v : Timer) (q : Process) → (if short then x else y) ≡ some (false, v, q)
    → ⊥
either_true true x y h k = h
either_true false x y h k = k

worst_case-IsSleep :
    IsSleep WorstCaseTimer
      (λ w. w.timer)
      (λ t w. record w { timer = t })
      WorstCase.sleep_to_next_tick
unfolding WorstCase.sleep_to_next_tick
worst_case-IsSleep = record {
  law = λ t s. refl;
  rests = λ c w p h fuel e. worst_case-Rests c w p h fuel e;
  fails = λ clock fuel w p e.
      let t = w.timer in
      let passed = timespec_diff_ns t.start_time (clock p.reads) in
      let wait =
        λ (q : Process). busy_wait clock fuel t.start_time (clock p.reads) t.sleep_time_ns q in
      let p1 = (clock_gettime clock p).1 in
      fails_at_top (ltb t.sleep_time_ns passed) t p1 _
        (either_true (ltb (sub64 t.sleep_time_ns passed) w.worst_timer_delay_ns) _ _
          (ticked_true t (wait p1)) (slept_true t wait _))
        e;
  wakes = λ {clock} c w p h n fuel f reach.
      elim (dec_lt (deadline w.timer) (total_ns (clock p.reads))) [
        | yes late ↦ (
          false,
          already_ticked w.timer,
          (clock_gettime clock p).1,
          worst_case-IsLate c w p h fuel late,
        )
        | no early ↦
            let v = worst_case-IsWoken c w p h n fuel f (omega arith) reach in
            (true, next_tick w.timer, v.after, v.returns)
      ];
}

pub classes-IsTimer :
    IsTimer busy_wait_class (λ t. t)
    × IsTimer free_wait_class (λ t. t)
    × IsTimer worst_case_class (λ w. w.timer)
classes-IsTimer = (
  class_with-IsTimer _ _ _ _ busy_wait-IsSleep,
  class_with-IsTimer _ _ _ _ free_wait-IsSleep,
  class_with-IsTimer _ _ _ _ worst_case-IsSleep,
)
