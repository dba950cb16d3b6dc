-- ===== src/Tests/Notifications.antt =====
-- src/senders/tcp_sender_zc.cpp: error queues on which the theorems about the loop are applied.
use real_time_data_transfer.Base.{ℕ, ◌≡◌, refl, true, false, some, List, [], ◌∷◌, arith}
use real_time_data_transfer.ZeroCopy.{Notification, read_notification_zc, wait_acks, all_acked}
use real_time_data_transfer.ZeroCopy.Acknowledged.{IsAcked, wait_acks-IsAcked}
use real_time_data_transfer.ZeroCopy.Kernel.{queue, Covers, wait_acks-Covers, covered, covers}

abbrev notification : ℕ → ℕ → Notification
notification info data_ = record {
  has_control = true;
  is_ip_level = true;
  is_recverr = true;
  is_zerocopy = true;
  ee_info = info;
  ee_data = data_;
}

-- The sends 4 to 8, in two messages.
abbrev messages : List Notification
messages = notification 4 6 ∷ notification 7 8 ∷ []

messages-Covers : Covers 4 9 messages
messages-Covers =
    covers 4 3 9 (notification 4 6) (notification 7 8 ∷ []) refl refl refl (omega arith)
      (omega arith) refl refl
      (covers 7 2 9 (notification 7 8) [] refl refl refl (omega arith) (omega arith) refl refl
        (covered 9))

wait_acks-Covers_example : wait_acks queue 6 9 4 messages ≡ some (all_acked 9, [])
wait_acks-Covers_example =
    wait_acks-Covers 6 4 9 messages messages-Covers (omega arith) (omega arith)

wait_acks-IsAcked_example : IsAcked queue 10 (wait_acks queue 7 10 4 messages)
wait_acks-IsAcked_example = wait_acks-IsAcked queue 7 10 4 messages (omega arith)

-- A message that is not of IP_RECVERR but of level SOL_IP is read as a notification.
read_notification_zc_level :
    read_notification_zc (record (notification 4 6) { is_recverr = false }) ≡ some 3
unfolding read_notification_zc
read_notification_zc_level = refl
