-- ===== src/Tests/Acknowledging.antt =====
-- src/senders/tcp_sender_zc.cpp: a run of TCPSenderZC, and the theorem on its notifications there.
use real_time_data_transfer.Base.{◌≤◌, refl, true, false, none, some, [], ◌∷◌, arith}
use real_time_data_transfer.Sender.{
  State, Transport, segment, worker_thread, checking, taking, unlocking, next_packet, transmitting,
  transmitted, confirming, receiving, marking, idle,
}
use real_time_data_transfer.Sender.Worker.{
  takes, unlocks, picks, transmits, resumes, packet_sent, confirms, confirmed, polls, acknowledges,
  marks,
}
use real_time_data_transfer.Sender.Steps.{TcpZcWorkerStep, Reachable, worker_moves, then_step}
use real_time_data_transfer.Sender.Account.{Untaken}
use real_time_data_transfer.Tests.Sending.{packet, lists, one, working, at, found-Reachable}
use real_time_data_transfer.ZeroCopy.{Notification, read_notification_zc, acknowledged}
use real_time_data_transfer.Sender.Confirmed.{done-acknowledged}

-- A sender that acknowledges, and a notification of both sends.
abbrev zc : Transport
zc = record { zero_copy = true; byte_at = λ p offset. offset }

abbrev both : Notification
both = record {
  has_control = true;
  is_ip_level = true;
  is_recverr = true;
  is_zerocopy = true;
  ee_info = 0;
  ee_data = 1;
}

-- TCPSenderZC has sent the list, and the kernel has acknowledged both sends.
abbrev partly_sent : State
partly_sent =
    record (at (working none false false none) (transmitted packet 5 3 2 []) idle true true
      (5 ∷ 6 ∷ []) one one) { sending_counter = 1; last_sending_counter = 0 }

partly_sent-Reachable : Reachable zc Untaken lists partly_sent
unfolding segment
partly_sent-Reachable =
    then_step
      (then_step
        (then_step
          (then_step (found-Reachable zc) (
            worker_moves (
              takes
                (at (working (some 0) false false (some worker_thread)) taking idle true true [] one
                  [])
                0 refl)))
          (worker_moves (
            unlocks
              (at (working none false false (some worker_thread)) (unlocking (packet ∷ [])) idle
                true true [] one one)
              (packet ∷ []))))
        (worker_moves (
          picks
            (at (working none false false none) (next_packet (packet ∷ [])) idle true true [] one
              one)
            packet [] (λ h. cc))))
      (worker_moves (
        transmits
          (at (working none false false none) (transmitting packet 5 3 []) idle true true [] one
            one)
          packet 5 3 2 [] (λ h. absurd (omega arith)) (omega arith)))

abbrev accepted : State
accepted =
    record (at (working none false false none) (transmitting packet 8 0 []) idle true true
      (5 ∷ 6 ∷ 7 ∷ []) one one) { sending_counter = 2; last_sending_counter = 0 }

accepted-Reachable : Reachable zc Untaken lists accepted
unfolding segment
accepted-Reachable =
    then_step
      (then_step
        (then_step (partly_sent-Reachable) (
          worker_moves (
            resumes
              (record (at (working none false false none) (transmitted packet 5 3 2 []) idle true
                true (5 ∷ 6 ∷ []) one one) { sending_counter = 1; last_sending_counter = 0 })
              packet 5 3 2 [] refl)))
        (worker_moves (
          transmits
            (record (at (working none false false none) (transmitting packet 7 1 []) idle true true
              (5 ∷ 6 ∷ []) one one) { sending_counter = 1; last_sending_counter = 0 })
            packet 7 1 1 [] (λ h. absurd (omega arith)) (omega arith))))
      (worker_moves (
        resumes
          (record (at (working none false false none) (transmitted packet 7 1 1 []) idle true true
            (5 ∷ 6 ∷ 7 ∷ []) one one) { sending_counter = 2; last_sending_counter = 0 })
          packet 7 1 1 [] refl))

abbrev polled : State
polled =
    record (at (working none false false none) receiving idle true true (5 ∷ 6 ∷ 7 ∷ []) one one) {
      sending_counter = 2;
      last_sending_counter = 0;
    }

polled-Reachable : Reachable zc Untaken lists polled
polled-Reachable =
    then_step
      (then_step
        (then_step (accepted-Reachable) (
          worker_moves (
            packet_sent
              (record (at (working none false false none) (transmitting packet 8 0 []) idle true
                true (5 ∷ 6 ∷ 7 ∷ []) one one) { sending_counter = 2; last_sending_counter = 0 })
              packet 8 [])))
        (worker_moves (
          confirms
            (record (at (working none false false none) (next_packet []) idle true true
              (5 ∷ 6 ∷ 7 ∷ []) one one) { sending_counter = 2; last_sending_counter = 0 })
            refl)))
      (worker_moves (
        polls
          (record (at (working none false false none) confirming idle true true (5 ∷ 6 ∷ 7 ∷ []) one
            one) { sending_counter = 2; last_sending_counter = 0 })
          (omega arith)))

abbrev acked : State
acked =
    record (at (working none true false none) checking idle true true (5 ∷ 6 ∷ 7 ∷ []) one one) {
      sending_counter = 2;
      last_sending_counter = 2;
    }

confirmed-Reachable : Reachable zc Untaken lists acked
unfolding acknowledged read_notification_zc
confirmed-Reachable =
    then_step
      (then_step
        (then_step (polled-Reachable) (
          worker_moves (
            acknowledges
              (record (at (working none false false none) receiving idle true true (5 ∷ 6 ∷ 7 ∷ [])
                one one) { sending_counter = 2; last_sending_counter = 0 })
              both 2 refl)))
        (worker_moves (
          confirmed
            (record (at (working none false false none) confirming idle true true (5 ∷ 6 ∷ 7 ∷ [])
              one one) { sending_counter = 2; last_sending_counter = 2 })
            (omega arith))))
      (worker_moves (
        marks
          (record (at (working none false false none) marking idle true true (5 ∷ 6 ∷ 7 ∷ []) one
            one) { sending_counter = 2; last_sending_counter = 2 })))

done-acknowledged_example : acked.sending_counter ≤ acked.last_sending_counter
done-acknowledged_example = done-acknowledged zc Untaken {s = acked} confirmed-Reachable refl

-- The worker of TCPSenderZC takes in a notification.
abbrev unread : State
unread = record acked {
  worker = receiving;
  shared = working none false false none;
  last_sending_counter = 0;
}

abbrev read : State
read = record unread { worker = confirming; last_sending_counter = 2 }

reads_both : TcpZcWorkerStep (λ p offset. offset) unread read
unfolding read_notification_zc acknowledged
reads_both = acknowledges unread both 2 refl
