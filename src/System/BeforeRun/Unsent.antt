-- ===== src/System/BeforeRun/Unsent.antt =====
-- src/systems/real_time_system.cpp: send_before_run does not look at what the sender's send
-- returns.
use real_time_data_transfer.Base.{ℕ, suc, ◌≡◌, refl, inl, inr, true, false, some, ◌==◌, Bool-cases}
use real_time_data_transfer.Packets.{Packets}
use real_time_data_transfer.System.{RealTimeSystem, World}
use real_time_data_transfer.System.BeforeRun.{sleeping_time, wait_for_sender, send_before_run}

-- States in which the sender refuses to send, and says that it is done, as a TCPSender does whose
-- worker thread has ended before its first packets.
pub record IsIdle (w : World) (sender : ℕ) (Idle : w.State → Type 0) : Type 0 where
  pub assigns : (l : Packets) (x : w.State) → Idle x → Idle (w.assign_packets l x)
  pub refuses :
      (x : w.State)
      → Idle x
      → ((w.sender_send sender x).0 ≡ false) × Idle (w.sender_send sender x).1
  pub naps : (ms : ℕ) (x : w.State) → Idle x → Idle (w.milliseconds_sleep ms x)
  pub says_done :
      (x : w.State)
      → Idle x
      → ((w.sender_is_send_done sender x).0 ≡ true) × Idle (w.sender_is_send_done sender x).1

module _ (w : World) (sender : ℕ) (Idle : w.State → Type 0) (h : IsIdle w sender Idle) where
  -- The loop ends at once, or at its first poll.
  wait_for_sender-Idle :
      (fuel limit : ℕ) (x : w.State)
      → Idle x
      → (x' : w.State) × (wait_for_sender w (suc fuel) sender limit x ≡ some x') × Idle x'
  unfolding wait_for_sender
  wait_for_sender-Idle fuel limit x i =
      let nap = w.milliseconds_sleep (sleeping_time limit) x in
      let (said, i1) = h.says_done nap (h.naps _ x i) in
      elim (Bool-cases (limit == 0)) [
        | inl e ↦ (x, rw (e, wait_for_sender) refl, i)
        | inr e ↦ ((w.sender_is_send_done sender nap).1, rw (e, said, wait_for_sender) refl, i1)
      ]

  -- The fault: on an initialised system, with a sender that refuses every list and says that it is
  -- done, send_before_run returns true for any list and limit, and leaves the system initialised
  -- and without an error, although nothing was sent.
  pub send_before_run-unsent :
      (s : RealTimeSystem) (l : Packets) (limit : ℕ) (x : w.State)
      → s.initialized ≡ true
      → Idle x
      → (x' : w.State) × (send_before_run w sender l limit s x ≡ some (true, s, x'))
        × ((w.sender_send sender (w.assign_packets l x)).0 ≡ false)
  unfolding send_before_run
  send_before_run-unsent s l limit x ready i =
      let (refused, i1) = h.refuses _ (h.assigns l x i) in
      let (x2, same, i2) = wait_for_sender-Idle 64 limit _ i1 in
      let said = (h.says_done x2 i2).0 in
      ((w.sender_is_send_done sender x2).1, simp (ready, same, said) refl, refused)
