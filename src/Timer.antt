-- ===== src/Timer.antt =====
-- includes/timer.h and what the three timer classes of src/timers share word for word: their
-- state, the constructors' assignments, the frequency, the start, and the step to the next tick.
pub mod Tick
pub mod Cycle
pub mod Waking
pub mod FreeWait
pub mod BusyWait
pub mod WorstCase
pub mod Sound
pub mod Returns
pub mod Interface
pub mod Shared
pub mod Classes
use real_time_data_transfer.Base.{
  ℕ, zero, suc, ◌+◌, ◌-◌, ◌/◌, ◌^◌, Bool, true, false, String, text_append, Option, none, some, ltb,
  ◌==◌, if◌then◌else◌, add64, mul64, sprintf_d,
}
use real_time_data_transfer.Errors.{Error, new_error, set_error, pull_error}
use real_time_data_transfer.Errors
use real_time_data_transfer.Time.{Timespec, sec_to_ps, ps_to_ns, add_ns_to_timespec}
use real_time_data_transfer.Time.Sleep.{Process, clock_gettime}

-- includes/flags.h
abbrev pub timer_max_frequency : ℕ
timer_max_frequency = 100

-- The macro TIMER_FREQUNCY_ERROR.
abbrev pub timer_frequency_error : ℕ
timer_frequency_error = 2 ^ 16 - 1

-- The counter value at which the timer starts its count anew.
abbrev pub reset_count : ℕ
reset_count = 2 ^ 23

pub record Timer : Type 0 where
  pub start_time : Timespec
  pub frequency : ℕ
  pub original_sleep_time_ps : ℕ
  pub sleep_time_ns : ℕ
  pub timer_started : Bool
  pub sleep_counter : ℕ
  pub error_handler : Error

-- The constructor of a class named `owner`, on memory whose other members it leaves as they are.
unfoldable pub construct : String → Timer → Timer
construct owner memory = record memory {
  frequency = timer_frequency_error;
  timer_started = false;
  error_handler = new_error owner;
}

unfoldable pub initialize : Timer → Bool × Timer
initialize t = (true, record t { frequency = timer_frequency_error; timer_started = false })

-- The text that sprintf leaves in `buffer_`.
abbrev pub frequency_message : ℕ → String
frequency_message frequency =
    text_append (text_append "The frequency provided is : " (sprintf_d frequency))
      (text_append ", the max frequency supported is " (sprintf_d timer_max_frequency))

-- `none` is the division by zero, after which C++ promises nothing.
unfoldable pub set_frequency : ℕ → Timer → Option (Bool × Timer)
set_frequency frequency t =
    if ltb timer_max_frequency frequency
    then some (
      false,
      record t { error_handler = set_error (frequency_message frequency) t.error_handler },
    )
    else if frequency == 0
    then none
    else some
        (true, record t { frequency = frequency; original_sleep_time_ps = sec_to_ps 1 / frequency })

abbrev pub get_frequency : Timer → ℕ
get_frequency t = t.frequency

-- The target of a tick, in nanoseconds after `start_time`.
abbrev pub target_ns : ℕ → ℕ → ℕ
target_ns ps counter = add64 (ps_to_ns (mul64 ps counter)) 1

unfoldable pub start_timer : (ℕ → Timespec) → Timer → Process → Bool × Timer × Process
start_timer clock t p =
    if t.timer_started
    then (
      false,
      record t {
        error_handler =
            set_error "You can't start the timer while it is already running" t.error_handler;
      },
      p,
    )
    else (
      true,
      record t {
        start_time = (clock_gettime clock p).0;
        timer_started = true;
        sleep_counter = 1;
        sleep_time_ns = target_ns t.original_sleep_time_ps 1;
      },
      (clock_gettime clock p).1,
    )

unfoldable pub stop_timer : Timer → Timer
stop_timer t = record t { timer_started = false }

abbrev pub get_error : Timer → String × Timer
get_error t = let (msg, e) = pull_error t.error_handler in (msg, record t { error_handler = e })

abbrev pub is_error : Timer → Bool
is_error t = Errors.is_error t.error_handler

-- `if(sleep_counter_ == 2^23)`: the target becomes the start, and the count begins anew.
unfoldable pub prevent_overflow : Timer → Timer
prevent_overflow t =
    if t.sleep_counter == reset_count
    then record t {
      start_time = add_ns_to_timespec t.start_time t.sleep_time_ns;
      sleep_counter = 0;
    }
    else t

-- The end of sleep_to_next_tick: the time for the next tick.
unfoldable pub next_tick : Timer → Timer
unfolding prevent_overflow
next_tick t =
    let r = prevent_overflow t in
    let counter = add64 r.sleep_counter 1 in
    record r { sleep_counter = counter; sleep_time_ns = target_ns r.original_sleep_time_ps counter }

-- What sleep_to_next_tick does when the tick is already over.
abbrev pub already_ticked : Timer → Timer
already_ticked t = record t {
  error_handler =
      set_error "The tick already ticked before calling sleep_to_next_tick." t.error_handler;
}

-- `n` calls of sleep_to_next_tick that return true.
pub ticks : ℕ → Timer → Timer
ticks zero t = t
ticks (suc n) t = next_tick (ticks n t)
