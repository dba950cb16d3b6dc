-- ===== src/ZeroCopy/Acknowledged.antt =====
-- src/senders/tcp_sender_zc.cpp: the loop that waits for notifications ends, and counts right.
use real_time_data_transfer.Base.{
  ltb, ltb→lt, ltb→ge, Bool-cases, Option-cases, if_elim, some_not_none, not-true, not-false,
  some_injective, ℕ, zero, suc, ◌+◌, ◌-◌, ◌^◌, ◌≤◌, ◌<◌, ◌≡◌, refl, sym, subst, inl, inr, Bool,
  true, false, not, ◌&&◌, Option, none, some, arith,
}
use real_time_data_transfer.Sender.{zc_poll_error, zc_recvmsg_error, zc_notification_error}
use real_time_data_transfer.ZeroCopy.{
  read_notification_zc, acknowledged, ErrorQueue, Acks, wait_acks, all_acked, failed_with,
  overflowed,
}

and_left : (a b : Bool) → (a && b) ≡ true → a ≡ true
and_left true b h = refl
and_left false b h = h

pub acknowledged-positive : (o : Option ℕ) (n : ℕ) → acknowledged o ≡ some n → 0 < n
unfolding acknowledged
acknowledged-positive none n e = absurd (some_not_none (sym e))
acknowledged-positive (some m) n e = elim (Bool-cases (ltb 0 m && ltb m (2 ^ 31))) [
  | inl b ↦
      let m_n : some m ≡ some n = (rw b at e) in
      subst (λ k. 0 < k) (some_injective m_n) (ltb→lt 0 m (and_left (ltb 0 m) (ltb m (2 ^ 31)) b))
  | inr b ↦ absurd (some_not_none (sym (rw b at e)))
]

module _ (q : ErrorQueue) where
  -- A counter that is at least the one that the loop waits for, or an error.
  abbrev pub IsEnough : ℕ → Acks → Type 0
  IsEnough sending_counter (all_acked last) = sending_counter ≤ last
  IsEnough sending_counter (failed_with e) = Unit
  IsEnough sending_counter overflowed = Unit

  pub data IsAcked (sending_counter : ℕ) : Option (Acks × q.World) → Type 0 where
    is_acked :
        (a : Acks) (x : q.World)
        → IsEnough sending_counter a
        → IsAcked sending_counter (some (a, x))

  -- The loop that waits for the notifications ends whatever the error queue gives, after at most as
  -- many rounds as there are sends to acknowledge and one more, and when it ends without an error
  -- and without an overflow the counter of acknowledged sends has reached the counter of sends.
  pub wait_acks-IsAcked :
      (fuel sending_counter last : ℕ) (x : q.World)
      → sending_counter - last < fuel
      → IsAcked sending_counter (wait_acks q fuel sending_counter last x)
  unfolding wait_acks
  wait_acks-IsAcked zero sending last x h = absurd (omega arith)
  wait_acks-IsAcked (suc fuel) sending last x h =
      let x1 = (q.poll x).1 in
      let x2 = (q.recvmsg x1).1 in
      if_elim (IsAcked sending) (not (ltb last sending))
        (λ e. is_acked (all_acked last) x (ltb→ge last sending (not-true (ltb last sending) e)))
        (λ e.
          let more = ltb→lt last sending (not-false (ltb last sending) e) in
          if_elim (IsAcked sending) (not (q.poll x).0)
            (λ _. is_acked (failed_with zc_poll_error) x1 tt)
            (λ _. elim (Option-cases (q.recvmsg x1).0) [
              | inl m ↦ rw m (is_acked (failed_with zc_recvmsg_error) x2 tt)
              | inr (n, m) ↦ elim (Option-cases (acknowledged (read_notification_zc n))) [
                | inl r ↦ rw (m, r) (is_acked (failed_with zc_notification_error) x2 tt)
                | inr (ret, r) ↦
                    let positive = acknowledged-positive (read_notification_zc n) ret r in
                    rw (m, r)
                      (if_elim (IsAcked sending) (ltb (last + ret) (2 ^ 31))
                        (λ _. wait_acks-IsAcked fuel sending (last + ret) x2 (omega arith))
                        (λ _. is_acked overflowed x2 tt))
              ]
            ]))
