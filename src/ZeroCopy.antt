-- ===== src/ZeroCopy.antt =====
-- src/senders/tcp_sender_zc.cpp: the notifications that the kernel gives of MSG_ZEROCOPY sends, and
-- the loop of tcp_worker_function that waits for them.
pub mod Acknowledged
pub mod Kernel
use real_time_data_transfer.Base.{
  ltb, if◌then◌else◌, ℕ, zero, suc, ◌+◌, ◌-◌, ◌%◌, ◌^◌, Bool, not, ◌&&◌, ◌||◌, Option, none, some,
}
use real_time_data_transfer.Sender.{
  ErrorCode, zc_poll_error, zc_recvmsg_error, zc_notification_error,
}

-- A message of the error queue: whether it has a control message, whether the level of this is
-- SOL_IP, its type IP_RECVERR and the origin SO_EE_ORIGIN_ZEROCOPY, and two fields of 32 bits.
pub record Notification : Type 0 where
  pub has_control : Bool
  pub is_ip_level : Bool
  pub is_recverr : Bool
  pub is_zerocopy : Bool
  pub ee_info : ℕ
  pub ee_data : ℕ

-- `none` is -1. The difference is taken in 32 bits.
unfoldable pub read_notification_zc : Notification → Option ℕ
read_notification_zc n =
    if not n.has_control || (not n.is_ip_level && not n.is_recverr)
    then none
    else if not n.is_zerocopy
    then none
    else some ((n.ee_data + 2 ^ 32 - n.ee_info + 1) % 2 ^ 32)

-- The result of read_notification_zc in the `int` variable `ret`; `none` when this is below 1.
unfoldable pub acknowledged : Option ℕ → Option ℕ
acknowledged none = none
acknowledged (some n) = if ltb 0 n && ltb n (2 ^ 31) then some n else none

-- The error queue of the socket. poll says whether it gave POLLERR in time, and recvmsg gives
-- `none` when it fails or the message is cut.
pub record ErrorQueue : Type 1 where
  pub World : Type 0
  pub poll : World → Bool × World
  pub recvmsg : World → Option Notification × World

-- How the loop ends: with `last_sending_counter`, with an error of the thread, or with a sum that
-- an `int` does not hold, after which C++ promises nothing.
pub data Acks : Type 0 where
  all_acked : ℕ → Acks
  failed_with : ErrorCode → Acks
  overflowed : Acks

module _ (q : ErrorQueue) where
  open q use {World, poll, recvmsg}

  -- `while(last_sending_counter < sending_counter)`; `none` when the fuel runs out.
  unfoldable pub wait_acks : ℕ → ℕ → ℕ → World → Option (Acks × World)
  unfolding read_notification_zc acknowledged
  wait_acks zero sending_counter last x = none
  wait_acks (suc fuel) sending_counter last x =
      let (readable, x1) = poll x in
      let (msg, x2) = recvmsg x1 in
      if not (ltb last sending_counter)
      then some (all_acked last, x)
      else if not readable
      then some (failed_with zc_poll_error, x1)
      else elim msg [
        | none ↦ some (failed_with zc_recvmsg_error, x2)
        | some n ↦ elim (acknowledged (read_notification_zc n)) [
          | none ↦ some (failed_with zc_notification_error, x2)
          | some ret ↦
              let rest = wait_acks fuel sending_counter (last + ret) x2 in
              if ltb (last + ret) (2 ^ 31) then rest else some (overflowed, x2)
        ]
      ]
