-- ===== src/ZeroCopy/Kernel.antt =====
-- src/senders/tcp_sender_zc.cpp: the loop that waits for notifications, on a kernel that numbers
-- the sends as documented.
use real_time_data_transfer.Base.{
  lt→ltb, ge→ltb, Bool-cases, ℕ, zero, suc, ◌+◌, ◌-◌, ◌%◌, ◌^◌, ◌≤◌, ◌<◌, ◌≡◌, refl, inl, inr, true,
  false, none, some, List, [], ◌∷◌, arith,
}
use real_time_data_transfer.ZeroCopy.{
  Notification, read_notification_zc, acknowledged, ErrorQueue, wait_acks, all_acked,
}

-- An error queue that holds these messages and gets no more.
abbrev pub queue : ErrorQueue
queue = record {
  World = List Notification;
  poll = λ x. (elim x [ [] ↦ false | n ∷ rest ↦ true ], x);
  recvmsg = λ x. elim x [ [] ↦ (none, []) | n ∷ rest ↦ (some n, rest) ];
}

-- Messages for the sends `first` to `last - 1`, each for one or more that follow one another. The
-- kernel numbers the sends from 0 in 32 bits.
pub data Covers : ℕ → ℕ → List Notification → Type 0 where
  covered : (last : ℕ) → Covers last last []
  covers :
      (first count last : ℕ) (n : Notification) (rest : List Notification)
      → n.has_control ≡ true
      → n.is_recverr ≡ true
      → n.is_zerocopy ≡ true
      → 0 < count
      → count < 2 ^ 31
      → n.ee_info ≡ first % 2 ^ 32
      → n.ee_data ≡ (first + count - 1) % 2 ^ 32
      → Covers (first + count) last rest
      → Covers first last (n ∷ rest)

Covers-le : {first last : ℕ} {ns : List Notification} → Covers first last ns → first ≤ last
Covers-le (covered last) = omega arith
Covers-le (covers first count last n rest c t z p b i d more) =
    let h = Covers-le more in omega arith

-- One message is read as the number of its sends, although its fields wrap.
read_notification-count :
    (n : Notification) (first count : ℕ)
    → n.has_control ≡ true
    → n.is_recverr ≡ true
    → n.is_zerocopy ≡ true
    → 0 < count
    → count < 2 ^ 31
    → n.ee_info ≡ first % 2 ^ 32
    → n.ee_data ≡ (first + count - 1) % 2 ^ 32
    → acknowledged (read_notification_zc n) ≡ some count
unfolding acknowledged read_notification_zc
read_notification-count n first count c t z p b i d =
    let m : (n.ee_data + 2 ^ 32 - n.ee_info + 1) % 2 ^ 32 ≡ count = omega arith in
    let read : read_notification_zc n ≡ some count = (elim (Bool-cases n.is_ip_level) [
      | inl l ↦ simp (c, l, t, z, m) refl
      | inr l ↦ simp (c, l, t, z, m) refl
    ]) in
    rw read (rw (lt→ltb 0 count p, lt→ltb count (2 ^ 31) b) refl)

-- The loop that waits for the notifications succeeds on a kernel that acknowledges every send once
-- and in order, in any groups of fewer than 2 ^ 31: it ends with all sends acknowledged and the
-- error queue empty, within one round more than there are sends left. The counter of sends must
-- stay below 2 ^ 31, what an `int` holds.
pub wait_acks-Covers :
    (fuel first last : ℕ) (ns : List Notification)
    → Covers first last ns
    → last < 2 ^ 31
    → last - first < fuel
    → wait_acks queue fuel last first ns ≡ some (all_acked last, [])
unfolding wait_acks
wait_acks-Covers zero first last ns v s h = absurd (omega arith)
wait_acks-Covers (suc fuel) first last ns (covered _) s h = rw (ge→ltb last last (omega arith)) refl
wait_acks-Covers (suc fuel) first last ns (covers _ count _ n rest c t z p b i d more) s h =
    let le = Covers-le more in
    rw
      (
        lt→ltb first last (omega arith),
        read_notification-count n first count c t z p b i d,
        lt→ltb (first + count) (2 ^ 31) (omega arith),
      )
      (wait_acks-Covers fuel (first + count) last rest more s (omega arith))
