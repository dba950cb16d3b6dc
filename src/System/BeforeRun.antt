-- ===== src/System/BeforeRun.antt =====
-- src/systems/real_time_system.cpp: send_before_run.
pub mod Limit
pub mod Unsent
use real_time_data_transfer.Base.{
  ℕ, zero, suc, ◌+◌, ◌-◌, ◌/◌, true, false, Option, none, some, ◌==◌, if◌then◌else◌,
}
use real_time_data_transfer.Packets.{Packets}
use real_time_data_transfer.System.{RealTimeSystem, World, with_error}
use real_time_data_transfer.System.Setup.{Returned, fail}

-- `time_limit_ms/2 + 1`, the next sleep.
abbrev pub sleeping_time : ℕ → ℕ
sleeping_time time_limit_ms = time_limit_ms / 2 + 1

-- The limit is an uint_fast32_t of 64 bits, and falls below its half in each round.
abbrev pub halving_fuel : ℕ
halving_fuel = 65

module _ (w : World) where
  open w use {
    State, assign_packets, sender_send, sender_is_send_done, sender_end, milliseconds_sleep,
  }

  -- `while(time_limit_ms)`; `none` when the fuel runs out.
  unfoldable pub wait_for_sender : ℕ → ℕ → ℕ → State → Option State
  wait_for_sender zero sender time_limit_ms w0 = none
  wait_for_sender (suc fuel) sender time_limit_ms w0 =
      let left = time_limit_ms - sleeping_time time_limit_ms in
      let w1 = milliseconds_sleep (sleeping_time time_limit_ms) w0 in
      let (done, w2) = sender_is_send_done sender w1 in
      let rest = wait_for_sender fuel sender left w2 in
      if time_limit_ms == 0 then some w0 else if done then some w2 else rest

  -- What follows the loop.
  unfoldable pub conclude : ℕ → RealTimeSystem → State → Returned w
  conclude sender s w0 =
      let (done, w1) = sender_is_send_done sender w0 in
      if done then (true, s, w1) else (
        false,
        record (with_error "Sender couldn't send the data in the given time limit" s) {
          initialized = false;
        },
        sender_end sender w1,
      )

  -- The list is the function's own copy, and `sender` the address in the system, which initialize
  -- has found not NULL. The result of send is not looked at.
  unfoldable pub send_before_run : ℕ → Packets → ℕ → RealTimeSystem → State → Option (Returned w)
  unfolding conclude
  send_before_run sender list_of_data time_limit_ms s w0 =
      let (sent, w1) = sender_send sender (assign_packets list_of_data w0) in
      if s.initialized
      then elim (wait_for_sender halving_fuel sender time_limit_ms w1) [
        | none ↦ none
        | some w2 ↦ some (conclude sender s w2)
      ]
      else some (fail w "System not initialized yet" s w0)
