-- ===== src/System.antt =====
-- includes/real_time_system.h and src/systems/real_time_system.cpp: the state of the system, the
-- world that it drives, the setters and the accessors.
pub mod Info
pub mod Setup
pub mod BeforeRun
pub mod Run
pub mod Life
use real_time_data_transfer.Base.{ℕ, Bool, true, false, String, Option, none, some, List}
use real_time_data_transfer.Errors.{Error, new_error, set_error, pull_error}
use real_time_data_transfer.Errors
use real_time_data_transfer.Packets.{Packets}
use Info.{RealTimeInfo}

-- A pointer is `none` when NULL, and otherwise the address of an object or a function.
pub record RealTimeSystem : Type 0 where
  pub timer : Option ℕ
  pub sender : Option ℕ
  pub user_app_func : Option ℕ
  pub error_handler : Error
  pub frequency : ℕ
  pub allow_skip_mode : Bool
  pub initialized : Bool
  pub ms_tolerance : ℕ

-- What the system calls: the virtual methods of the Timer and the Sender at an address, the user's
-- function, the sleep functions and the operating system. The state is that of all of them and of
-- the variable `user_packets_list`, whose address the sender is given.
pub record World : Type 1 where
  pub State : Type 0
  pub mlockall : State → Bool × State
  pub sched_setscheduler : State → Bool × State
  pub sched_setaffinity : State → Bool × State
  pub timer_initialize : ℕ → State → Bool × State
  pub timer_set_frequency : ℕ → ℕ → State → Bool × State
  pub timer_start : ℕ → State → Bool × State
  pub timer_sleep_to_next_tick : ℕ → State → Bool × State
  pub timer_get_error : ℕ → State → String × State
  pub sender_initialize : ℕ → State → Bool × State
  pub sender_send : ℕ → State → Bool × State
  pub sender_is_send_done : ℕ → State → Bool × State
  pub sender_end : ℕ → State → State
  pub sender_get_error : ℕ → State → String × State
  pub assign_packets : Packets → State → State
  pub user_function : ℕ → RealTimeInfo → State → RealTimeInfo × Packets × State
  pub milliseconds_sleep : ℕ → State → State
  pub microseconds_sleep : ℕ → State → State

-- The constructor.
abbrev pub real_time_system : RealTimeSystem
real_time_system = record {
  timer = none;
  sender = none;
  user_app_func = none;
  error_handler = new_error "RealTimeSystem";
  frequency = 0;
  allow_skip_mode = false;
  initialized = false;
  ms_tolerance = 0;
}

abbrev pub with_error : String → RealTimeSystem → RealTimeSystem
with_error msg s = record s { error_handler = set_error msg s.error_handler }

unfoldable pub set_timer : Option ℕ → RealTimeSystem → Bool × RealTimeSystem
set_timer none s = (false, with_error "Null Timer provided" (record s { initialized = false }))
set_timer (some timer) s = (true, record s { timer = some timer; initialized = false })

unfoldable pub set_sender : Option ℕ → RealTimeSystem → Bool × RealTimeSystem
set_sender none s = (false, with_error "Null Sender provided" (record s { initialized = false }))
set_sender (some sender) s = (true, record s { sender = some sender; initialized = false })

unfoldable pub set_user_data_fn : Option ℕ → RealTimeSystem → Bool × RealTimeSystem
set_user_data_fn none s =
    (false, with_error "Null Function provided" (record s { initialized = false }))
set_user_data_fn (some fn) s = (true, record s { user_app_func = some fn; initialized = false })

unfoldable pub set_frequency : ℕ → RealTimeSystem → Bool × RealTimeSystem
set_frequency frequency s = (true, record s { frequency = frequency; initialized = false })

unfoldable pub set_ms_tolerance : ℕ → RealTimeSystem → RealTimeSystem
set_ms_tolerance ms_tolerance s = record s { ms_tolerance = ms_tolerance; initialized = false }

unfoldable pub skip_mode : Bool → RealTimeSystem → RealTimeSystem
skip_mode allow_skip_mode s = record s { allow_skip_mode = allow_skip_mode; initialized = false }

abbrev pub is_error : RealTimeSystem → Bool
is_error s = Errors.is_error s.error_handler

abbrev pub get_error : RealTimeSystem → String × RealTimeSystem
get_error s = let (msg, e) = pull_error s.error_handler in (msg, record s { error_handler = e })
