-- ===== src/Tests/Transmitting.antt =====
-- src/senders/tcp_sender.cpp: a list that the worker has found is sent.
use real_time_data_transfer.Base.{◌≤◌, ◌≡◌, refl, ◌⊎◌, true, false, none, some, [], ◌∷◌}
use real_time_data_transfer.Sender.{
  State, payloads, worker_thread, taking, unlocking, next_packet, idle,
}
use real_time_data_transfer.Sender.Worker.{WorkerStep, takes, unlocks}
use real_time_data_transfer.Sender.Transmission.{Succeeds, IsUnwoken, Sending, sends, rests}
use real_time_data_transfer.Sender.Transmission.Finishes.{transmission-finishes}
use real_time_data_transfer.Tests.Sending.{bytes, packet, one, working, at, found, found-Reachable}

abbrev copied : State
copied =
    at (working none false false (some worker_thread)) (unlocking (packet ∷ [])) idle true true []
      one one

abbrev copied_unlocked : State
copied_unlocked =
    at (working none false false none) (next_packet (packet ∷ [])) idle true true [] one one

two_steps : Sending bytes 2 found copied_unlocked
two_steps =
    sends refl
      (takes
        (at (working (some 0) false false (some worker_thread)) taking idle true true [] one []) 0
        refl)
      tt (sends refl (unlocks copied (packet ∷ [])) tt rests)

-- The list of one packet of three bytes takes at most 19 steps.
transmission-finishes_example :
    (2 ≤ 19)
    × (((copied_unlocked.shared.is_done ≡ true)
          × (copied_unlocked.wire ≡ payloads bytes copied_unlocked.handed))
        ⊎ ((u : State) × (x : WorkerStep bytes copied_unlocked u) × Succeeds bytes x
            × IsUnwoken bytes x))
transmission-finishes_example =
    transmission-finishes bytes {s = found} {t = copied_unlocked} (found-Reachable bytes) refl
      (record { undone = refl; untold = refl; intact = refl })
      (record { copied = tt; listed = (λ h. cc, tt) }) two_steps
