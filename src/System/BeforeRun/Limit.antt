-- ===== src/System/BeforeRun/Limit.antt =====
-- src/systems/real_time_system.cpp: send_before_run keeps to its time limit.
use native.Mathlib.Nat.{pow-suc}
use real_time_data_transfer.Base.{
  ℕ, zero, suc, ◌+◌, ◌-◌, ◌*◌, ◌^◌, ◌≤◌, ◌<◌, ◌≡◌, refl, inl, inr, true, false, some, arith, ◌==◌,
  ==_iff, Bool-cases,
}
use real_time_data_transfer.Packets.{Packets}
use real_time_data_transfer.System.{RealTimeSystem, World}
use real_time_data_transfer.System.Setup.{Returned}
use real_time_data_transfer.System.BeforeRun.{
  sleeping_time, halving_fuel, wait_for_sender, conclude, send_before_run,
}

module _ (w : World) (sender : ℕ) (slept : w.State → ℕ)
    (naps : (ms : ℕ) (x : w.State) → slept (w.milliseconds_sleep ms x) ≡ slept x + ms)
    (polls : (x : w.State) → slept (w.sender_is_send_done sender x).1 ≡ slept x) where
  open w use {State}

  -- How the loop leaves off: after the whole limit, or after a poll that said done.
  data Waited (limit : ℕ) (from to : State) : Type 0 where
    expired : slept to ≡ slept from + limit → Waited limit from to
    done :
        (y : State)
        → to ≡ (w.sender_is_send_done sender y).1
        → (w.sender_is_send_done sender y).0 ≡ true
        → slept to ≤ slept from + limit
        → Waited limit from to

  -- A round that goes on, and the rest of the wait.
  Waited-more :
      (limit : ℕ) (x x' : State)
      → 0 < limit
      → Waited
          (limit - sleeping_time limit)
          (w.sender_is_send_done sender (w.milliseconds_sleep (sleeping_time limit) x)).1
          x'
      → Waited limit x x'
  Waited-more limit x x' pos r =
      let nap = w.milliseconds_sleep (sleeping_time limit) x in
      let t = naps (sleeping_time limit) x in let u = polls nap in more r (omega arith)
    where
      more :
          {y : State} {left : ℕ}
          → Waited left y x'
          → slept y + left ≡ slept x + limit
          → Waited limit x x'
      more (expired e) h = expired (omega arith)
      more (done z same said e) h = done z same said (omega arith)

  wait_for_sender-Waited :
      (fuel limit : ℕ) (x : State)
      → 2 * limit + 1 < 2 ^ fuel
      → (x' : State) × (wait_for_sender w fuel sender limit x ≡ some x') × Waited limit x x'
  unfolding wait_for_sender
  wait_for_sender-Waited zero limit x h = absurd (omega arith)
  wait_for_sender-Waited (suc fuel) limit x h =
      let left = limit - sleeping_time limit in
      let nap = w.milliseconds_sleep (sleeping_time limit) x in
      let (is_done, x1) = w.sender_is_send_done sender nap in
      let t = naps (sleeping_time limit) x in
      let u = polls nap in
      elim (Bool-cases (limit == 0)) [
        | inl none_left ↦
            rw (none_left, wait_for_sender)
              (x, refl, expired (omega (arith, (==_iff limit 0).0 none_left)))
        | inr some_left ↦ elim (Bool-cases is_done) [
          | inl yes_done ↦
              rw (some_left, yes_done, wait_for_sender)
                (x1, refl, done nap refl yes_done (ground (arith, t, u)))
          | inr not_done ↦
              let pos : 0 < limit = ground arith in
              let (x', same, r) =
                wait_for_sender-Waited fuel left x1 (omega (arith, pow-suc 2 fuel, pos)) in
              rw (some_left, not_done, wait_for_sender) (x', same, Waited-more limit x x' pos r)
        ]
      ]

  -- What send_before_run has done when it returns `r`, from the state in which the list was sent.
  pub record IsBounded (s : RealTimeSystem) (limit : ℕ) (from : State) (r : Returned w)
      : Type 0 where
    pub waited : State
    pub bounded : slept waited ≤ slept from + limit
    pub succeeded :
        r.0 ≡ true
        → ((w.sender_is_send_done sender waited).0 ≡ true)
          × (r.1 ≡ s)
          × (r.2 ≡ (w.sender_is_send_done sender waited).1)
    pub timed_out :
        r.0 ≡ false
        → ((w.sender_is_send_done sender waited).0 ≡ false)
          × (r.1.initialized ≡ false)
          × (r.1.error_handler.is_error_flag ≡ true)
          × (r.2 ≡ w.sender_end sender (w.sender_is_send_done sender waited).1)

  conclude-IsBounded :
      (s : RealTimeSystem) (limit : ℕ) (from x : State)
      → slept x ≤ slept from + limit
      → IsBounded s limit from (conclude w sender s x)
  unfolding conclude
  conclude-IsBounded s limit from x h = elim (Bool-cases (w.sender_is_send_done sender x).0) [
    | inl e ↦
        rw e (record {
          waited = x;
          bounded = h;
          succeeded = λ _. (e, refl, refl);
          timed_out = λ f. cc;
        })
    | inr e ↦ rw e (record {
      waited = x;
      bounded = h;
      succeeded = λ f. cc;
      timed_out = λ _. (e, refl, refl, refl);
    })
  ]

  -- On an initialised system send_before_run always returns, for any limit of 64 bits, having slept
  -- for at most the limit: with true and the system unchanged when the sender says done after the
  -- wait, and otherwise with false, an error, the sender ended and the system to be initialised
  -- again.
  pub send_before_run-IsBounded :
      (s : RealTimeSystem) (l : Packets) (limit : ℕ) (x : State)
      → s.initialized ≡ true
      → limit < 2 ^ 64
      → (r : Returned w) × (send_before_run w sender l limit s x ≡ some r)
        × IsBounded s limit (w.sender_send sender (w.assign_packets l x)).1 r
  unfolding send_before_run
  send_before_run-IsBounded s l limit x ready fits =
      let x1 = (w.sender_send sender (w.assign_packets l x)).1 in
      let (x2, same, r) = wait_for_sender-Waited halving_fuel limit x1 (omega arith) in
      (conclude w sender s x2, simp (ready, same) refl, conclude-IsBounded s limit x1 x2 (time r))
    where
      time : {x1 x2 : State} → Waited limit x1 x2 → slept x2 ≤ slept x1 + limit
      time (expired e) = omega arith
      time (done y e f h) = h
