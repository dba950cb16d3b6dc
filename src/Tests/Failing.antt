-- ===== src/Tests/Failing.antt =====
-- src/senders/tcp_sender.cpp: a worker that cannot set its affinity.
use real_time_data_transfer.Base.{◌≡◌, refl, true, false, none, some, []}
use real_time_data_transfer.Errors.{new_error, set_error}
use real_time_data_transfer.Sender.{
  State, cant_cpu_affinity, starting, announcing, setting_affinity, failing, ended, initializing,
  idle, refusing,
}
use real_time_data_transfer.Sender.Worker.{
  starts, announces, affinity_fails, flags_error, stores_code, releases_nothing, flags_end,
}
use real_time_data_transfer.Sender.Caller.{
  refused, initialized, calls_send, finds_no_thread, refuses,
}
use real_time_data_transfer.Sender.Steps.{
  fresh, Reachable, worker_moves, caller_moves, begins, then_step,
}
use real_time_data_transfer.Sender.Account.{Untaken}
use real_time_data_transfer.Sender.Failure.{Later, now, then, failure-reported}
use real_time_data_transfer.Tests.Sending.{lists, bytes, working, at}

abbrev running : State
running = at (working none true false none) setting_affinity initializing false false [] [] []

-- The worker has failed, and initialize has returned.
abbrev failed : State
failed =
    at (working none true false none) (failing false true cant_cpu_affinity) idle true true [] [] []

failed-Reachable : Reachable bytes Untaken lists failed
failed-Reachable =
    let r0 : Reachable bytes Untaken lists (
        at (record (fresh (some 4)) { is_terminated_thread = false }) announcing initializing false
          false [] [] []) =
      then_step (begins 4 (new_error "TCPSender"))
        (worker_moves (starts (at (fresh (some 4)) starting initializing false false [] [] []))) in
    let r1 : Reachable bytes Untaken lists running = then_step r0 (
      worker_moves (
        announces (
          at (record (fresh (some 4)) { is_terminated_thread = false }) announcing initializing
            false false [] [] []))) in
    then_step (then_step r1 (caller_moves (initialized running refl))) (
      worker_moves
        (affinity_fails (record running { caller = idle; initialized = true; result = true })))

abbrev gone : State
gone = record failed {
  worker = ended;
  shared = record (working none true false none) { is_error = true; is_terminated_thread = true };
}

abbrev found_gone : State
found_gone = record gone { caller = refusing }

-- The worker ends, and then send is called.
fails : Later bytes Untaken failed found_gone
fails =
    let marked : State = record failed {
      shared = record (working none true false none) { is_error = true };
    } in
    then
      (then
        (then
          (then
            (then (then now (worker_moves (flags_error failed false true cant_cpu_affinity)))
              (worker_moves (stores_code marked false cant_cpu_affinity)))
            (worker_moves (releases_nothing marked)))
          (worker_moves (flags_end marked)))
        (caller_moves (calls_send gone 0 refl)))
      (caller_moves (finds_no_thread gone 0 refl))

failure-reported_example :
    (false ≡ false)
    × ((refused "Sender worker thread can't set CPU Affinity." found_gone).error_handler
        ≡ set_error "Sender worker thread can't set CPU Affinity." found_gone.error_handler)
failure-reported_example =
    failure-reported bytes Untaken {s = failed} {t = found_gone} false cant_cpu_affinity
      failed-Reachable refl fails refl (refuses found_gone)
