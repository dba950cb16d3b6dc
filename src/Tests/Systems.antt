-- ===== src/Tests/Systems.antt =====
-- Runs and instances of the theorems on src/systems.
use real_time_data_transfer.Base.{
  ℕ, ◌*◌, ◌<◌, ◌≤◌, ◌≡◌, refl, Bool, true, false, some, none, [], arith,
}
use real_time_data_transfer.System.{
  RealTimeSystem, World, real_time_system, set_timer, set_sender, set_user_data_fn, set_frequency,
  with_error,
}
use real_time_data_transfer.System.Life.{
  apply, sets_timer, sets_sender, sets_user_data_fn, sets_frequency, Points, sets, initializes,
  Life, constructed, then_use, Life-IsReady,
}
use real_time_data_transfer.System.Setup.Outcome.{IsReady}
use real_time_data_transfer.System.Run.{Parts}
use real_time_data_transfer.System.Setup.{
  Returned, initialize, initialize_components, convert_rt_thread,
}
use real_time_data_transfer.System.Setup.Outcome.{IsOutcome, initialize-IsOutcome}
use real_time_data_transfer.System.BeforeRun.{send_before_run, wait_for_sender}
use real_time_data_transfer.System.BeforeRun.Limit.{IsBounded, send_before_run-IsBounded}
use real_time_data_transfer.System.BeforeRun.Unsent.{IsIdle, send_before_run-unsent}
use real_time_data_transfer.System.Run.{run, round, use_tolerance, first_counters}
use real_time_data_transfer.System.Run.Ends.{IsEnd, run-IsEnd}
use real_time_data_transfer.System.Run.Disconnect.{IsStuck, run-disconnects}
use real_time_data_transfer.System.Run.Log.{IsOrderly, log_after}
use real_time_data_transfer.System.Run.Protocol.{run-IsOrderly}
use real_time_data_transfer.Tests.Worlds.{world, parts, slow_system}

abbrev stuck_world : World
stuck_world = world false true

stuck : IsStuck stuck_world parts (λ x. Unit {0})
stuck = record {
  polls = λ x s. (refl, tt);
  naps = λ us x s. tt;
  asks = λ i x e s. (e, tt);
  assigns = λ l x s. tt;
  ticks = λ x s. (refl, tt);
}

run-disconnects_example :
    (7 ≤ 3 * 2 → run stuck_world parts 7 slow_system 0 ≡ none)
    × (3 * 2 < 7
        → (x' : ℕ) × (run stuck_world parts 7 slow_system 0
            ≡ some (
              false,
              with_error "The client disconnected." (record slow_system { initialized = false }),
              x',
            )))
run-disconnects_example =
    run-disconnects stuck_world parts (λ x. Unit {0}) stuck 7 slow_system 0 refl refl (omega arith)
      refl tt

-- The run that the instance speaks of: six skipped rounds, each after 1 ms of tolerance.
run_disconnected :
    run stuck_world parts 7 slow_system 0
    ≡ some (
      false,
      with_error "The client disconnected." (record slow_system { initialized = false }),
      6000,
    )
unfolding run round use_tolerance
run_disconnected = refl

run-IsEnd_example :
    IsEnd stuck_world parts
      (record slow_system { initialized = false })
      (
        false,
        with_error "The client disconnected." (record slow_system { initialized = false }),
        6000,
      )
run-IsEnd_example = run-IsEnd stuck_world parts 7 slow_system 0 refl refl run_disconnected

run-IsOrderly_example : IsOrderly slow_system (
    log_after
      (world true true)
      parts
      4
      slow_system
      (first_counters (world true true) parts)
      (0, []))
run-IsOrderly_example = run-IsOrderly (world true true) parts slow_system 4 0

initialize-IsOutcome_example :
    IsOutcome stuck_world slow_system (initialize stuck_world slow_system 0)
initialize-IsOutcome_example = initialize-IsOutcome stuck_world slow_system 0

send_before_run-IsBounded_example :
    (r : Returned stuck_world) × (send_before_run stuck_world 2 [] 250 slow_system 0 ≡ some r)
    × IsBounded stuck_world 2 (λ x. x) (λ ms x. refl) (λ x. refl) slow_system 250 0 r
send_before_run-IsBounded_example =
    send_before_run-IsBounded stuck_world 2 (λ x. x) (λ ms x. refl) (λ x. refl) slow_system [] 250 0
      refl (omega arith)

-- The limit is used up to the last millisecond.
send_before_run_waits :
    send_before_run stuck_world 2 [] 250 slow_system 0
    ≡ some (
      false,
      record (with_error "Sender couldn't send the data in the given time limit" slow_system) {
        initialized = false;
      },
      250,
    )
unfolding send_before_run wait_for_sender
send_before_run_waits = refl

abbrev idle_world : World
idle_world = world true false

idle : IsIdle idle_world 2 (λ x. Unit {0})
idle = record {
  assigns = λ l x i. tt;
  refuses = λ x i. (refl, tt);
  naps = λ ms x i. tt;
  says_done = λ x i. (refl, tt);
}

send_before_run-unsent_example :
    (x' : ℕ) × (send_before_run idle_world 2 [] 250 slow_system 0 ≡ some (true, slow_system, x'))
    × ◌≡◌ {A = Bool} false false
send_before_run-unsent_example =
    send_before_run-unsent idle_world 2 (λ x. Unit {0}) idle slow_system [] 250 0 refl tt

-- A system that is given all it needs, and then initialised.
abbrev given_timer : RealTimeSystem
given_timer = apply (sets_timer (some 1)) real_time_system

abbrev given_sender : RealTimeSystem
given_sender = apply (sets_sender (some 2)) given_timer

abbrev given_function : RealTimeSystem
given_function = apply (sets_user_data_fn (some 3)) given_sender

abbrev given_all : RealTimeSystem
given_all = apply (sets_frequency 100) given_function

given_all-Life : Life idle_world 0 (given_all, 0)
given_all-Life =
    then_use
      (then_use
        (then_use (then_use constructed (sets (sets_timer (some 1)) real_time_system 0))
          (sets (sets_sender (some 2)) given_timer 0))
        (sets (sets_user_data_fn (some 3)) given_sender 0))
      (sets (sets_frequency 100) given_function 0)

initialised : (initialize idle_world given_all 0).1.initialized ≡ true
unfolding initialize initialize_components convert_rt_thread set_timer set_sender set_user_data_fn
    set_frequency
initialised = refl

Life-IsReady_example :
    IsReady (initialize idle_world given_all 0).1
    × ((parts : Parts) × Points parts (initialize idle_world given_all 0).1)
Life-IsReady_example =
    Life-IsReady idle_world (then_use given_all-Life (initializes given_all 0)) initialised
