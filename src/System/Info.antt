-- ===== src/System/Info.antt =====
-- includes/real_time_system.h and src/systems/real_time_system.cpp: RealTimeInfo, what the system
-- tells the user's function at each tick.
use real_time_data_transfer.Base.{ℕ, Bool, true}

pub record RealTimeInfo : Type 0 where
  pub sequence_number : ℕ
  pub skip_next_data : Bool
  pub delayed_ms : ℕ
  pub system_stopped : Bool

-- The constructor.
abbrev pub real_time_info : ℕ → Bool → ℕ → Bool → RealTimeInfo
real_time_info sequence_number skip_next_data delayed_ms system_stopped = record {
  sequence_number = sequence_number;
  skip_next_data = skip_next_data;
  delayed_ms = delayed_ms;
  system_stopped = system_stopped;
}

abbrev pub get_sequence_number : RealTimeInfo → ℕ
get_sequence_number i = i.sequence_number

abbrev pub get_delayed_time_ms : RealTimeInfo → ℕ
get_delayed_time_ms i = i.delayed_ms

abbrev pub is_skipped_data : RealTimeInfo → Bool
is_skipped_data i = i.skip_next_data

abbrev pub stop_system : RealTimeInfo → RealTimeInfo
stop_system i = record i { system_stopped = true }

abbrev pub is_system_stopped : RealTimeInfo → Bool
is_system_stopped i = i.system_stopped
