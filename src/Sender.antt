-- ===== src/Sender.antt =====
-- includes/data_packets.h and src/senders/tcp_sender.cpp: the data that TCPSender shares with its
-- worker thread, where the two threads stand, and the bytes of a packet.
pub mod Sockets
pub mod Setup
pub mod Descriptors
pub mod Connection
pub mod Start
pub mod Worker
pub mod Caller
pub mod Steps
pub mod Exclusion
pub mod Life
pub mod Wakeup
pub mod Ending
pub mod Progress
pub mod Polling
pub mod Queue
pub mod Account
pub mod Bytes
pub mod Wire
pub mod Delivery
pub mod Confirmed
pub mod Renewed
pub mod Lifetimes
pub mod Calls
pub mod Transmission
pub mod Prompt
pub mod Failure
pub mod Interface
pub mod Reported
pub mod Objects
pub mod Released
pub mod Used
pub mod Classes
use real_time_data_transfer.Base.{
  ℕ, zero, suc, ◌+◌, ◌%◌, ◌^◌, Bool, true, false, Option, none, some, List, [], ◌∷◌, ◌++◌, String,
}
use real_time_data_transfer.Errors.{Error}
use real_time_data_transfer.Packets.{DataPacket, Packets}

-- TCP_SENDER_ERROR_CODES; the last three are those of TCPSenderZC.
pub data ErrorCode : Type 0 where
  cant_cpu_affinity cant_socket_timeout sending_error not_supported_data_type no_error
        cant_socket_buffers zc_poll_error zc_recvmsg_error zc_notification_error :
      ErrorCode

pub data Thread : Type 0 where
  worker_thread caller_thread : Thread

-- The list is `none` when NULL, and otherwise an address; a descriptor of -1 is `none`. The mutex
-- has the thread that holds it. The condition variable has no state: a thread that waits on it is
-- at `waiting`.
pub record SenderWorkerData : Type 0 where
  pub packets_list : Option ℕ
  pub is_done : Bool
  pub is_error : Bool
  pub sock_fd : Option ℕ
  pub terminate_thread : Bool
  pub thread_initialized : Bool
  pub is_terminated_thread : Bool
  pub error_code : ErrorCode
  pub packets_mutex : Option Thread

-- Where tcp_worker_function stands, with the local variables that are alive there. The packets of
-- `data_to_be_sent` from the `i`th on are the list that `next_packet` has. `failing` to `flagging`
-- are the assignments of END_THREAD_ERROR, with `is_locked_` of `prot_lock`.
pub data WorkerPc : Type 0 where
  starting announcing setting_affinity setting_timeout setting_send_buffer setting_receive_buffer
        checking locking looking waiting woken taking :
      WorkerPc
  unlocking next_packet : Packets → WorkerPc
  transmitting : DataPacket → ℕ → ℕ → Packets → WorkerPc
  transmitted : DataPacket → ℕ → ℕ → ℕ → Packets → WorkerPc
  confirming receiving marking : WorkerPc
  failing : Bool → Bool → ErrorCode → WorkerPc
  coding : Bool → ErrorCode → WorkerPc
  releasing : Bool → WorkerPc
  flagging ended : WorkerPc

-- Where the thread that calls the methods stands: the end of initialize, between two calls, in send
-- with its argument, or in end_sender.
pub data CallerPc : Type 0 where
  initializing idle : CallerPc
  sending checking_done send_locking filling : ℕ → CallerPc
  refusing filled send_signalling send_unlocking : CallerPc
  ending end_locking clearing cleared end_signalling end_unlocking polling closing : CallerPc

-- The sender and its worker. `lists` is the memory of the caller's lists, `wire` what the socket
-- has accepted. `handed` and `taken` are not in the code: the lists as they were when send stored
-- their address, and as the worker copied them.
pub record State : Type 0 where
  pub shared : SenderWorkerData
  pub worker : WorkerPc
  pub caller : CallerPc
  pub initialized : Bool
  pub error_handler : Error
  pub result : Bool
  pub lists : ℕ → Packets
  pub wire : List ℕ
  pub sending_counter : ℕ
  pub last_sending_counter : ℕ
  pub handed : List Packets
  pub taken : List Packets

-- The class of the sender, TCPSenderZC if `zero_copy` and else TCPSender, and the bytes of the
-- memory or the file of each packet by their offsets.
pub record Transport : Type 0 where
  pub zero_copy : Bool
  pub byte_at : DataPacket → ℕ → ℕ

module _ (tr : Transport) where
  -- `size` bytes of the memory or the file of a packet, from an offset of 64 bits on.
  unfoldable pub segment : DataPacket → ℕ → ℕ → List ℕ
  segment p offset zero = []
  segment p offset (suc size) = tr.byte_at p (offset % 2 ^ 64) ∷ segment p (offset + 1) size

  -- The bytes that the packets of a list ask for.
  unfoldable pub payload : Packets → List ℕ
  payload [] = []
  payload (p ∷ rest) = segment p p.data_offset p.data_size ++ payload rest

  pub payloads : List Packets → List ℕ
  payloads [] = []
  payloads (l ∷ rest) = payload l ++ payloads rest
