-- ===== src/Decision/Application/Tests.antt =====
-- Runs of the application on concrete data.
use adaptive_traffic_light.Prelude.{ℕ, ◌≡◌, refl, true, false, none, some, List, [], ◌∷◌, arith}
use adaptive_traffic_light.Decision.Tests.{fixed_point}
use adaptive_traffic_light.Decision.Clock.{
  release_reached, release_interrupted, release_failed, wait_until, sleep_loop, add_milliseconds,
  advance_past_now,
}
use adaptive_traffic_light.Decision.Receiver.{validate_snapshot}
use adaptive_traffic_light.Decision.Publisher.{publish_timing_plan, make_message, try_send_pending}
use adaptive_traffic_light.Decision.PeriodicService
use adaptive_traffic_light.Decision.PeriodicService.{run_decision_cycle}
use adaptive_traffic_light.Decision.PeriodicService.Tests
use adaptive_traffic_light.Decision.Application.{
  TimingDecisionApplication, exit_failure, InitEnv, initialize, Round, work, run, run_loop, round,
  awoken, count_deadline, next_release, stop_parts, unlock_process_memory,
}
use adaptive_traffic_light.Decision.Application.Startup.{IsUp, IsDown, Started, initialize-Started}
use adaptive_traffic_light.Decision.Application.Deadlines.{IsKept, with_clocks, work-IsKept}
use adaptive_traffic_light.Decision.Application.Running.{Leaves, run-Leaves}

abbrev closed_service : PeriodicService.PeriodicService ℕ
closed_service = PeriodicService.shutdown Tests.service

abbrev application : TimingDecisionApplication ℕ
application = record {
  service = Tests.service;
  report_open = true;
  cycle_count = 0;
  deadline_miss_count = 0;
  memory_locked = true;
  initialized = true;
}

abbrev application-IsUp : IsUp application
application-IsUp = record {
  service = record { running = refl; receiving = refl; publishing = refl; health = refl };
  report = refl;
  locked = refl;
  ready = refl;
}

abbrev at_rest : TimingDecisionApplication ℕ
at_rest = record application {
  service = closed_service;
  report_open = false;
  memory_locked = false;
  initialized = false;
}

-- The memory cannot be locked.
abbrev no_memory : InitEnv
no_memory = record {
  pinned = true;
  report_opens = true;
  service_env = record {
    snapshot_size = 104;
    snapshot_open = record {
      mq_unlink_error = none;
      sem_unlink_error = none;
      sem_open_error = none;
      mq_open_error = none;
      getattr_error = none;
      attributes = record { mq_maxmsg = 4; mq_msgsize = 104 };
    };
    plan_open = record {
      open_error = none;
      getattr_error = none;
      attributes = record { mq_maxmsg = 8; mq_msgsize = 72 };
      now_ns = 17;
      process_id = 4;
    };
    health_initialized = true;
  };
  memory_locks = false;
}

at_rest-IsDown : IsDown at_rest
unfolding PeriodicService.shutdown
at_rest-IsDown = record {
  service = record { stopped = refl; receiving = refl; publishing = refl; health = refl };
  report = refl;
  not_ready = refl;
}

initialize-Started_example : Started (initialize no_memory at_rest)
initialize-Started_example = initialize-Started no_memory at_rest at_rest-IsDown

-- It is interrupted once, and ends 2.6 s behind its release.
abbrev slow_round : Round ℕ
slow_round = record {
  stop_requested = false;
  wait_stopped = false;
  naps =
      record { code = release_interrupted; stop_in_loop = false; stop_at_end = false }
      ∷ record { code = release_reached; stop_in_loop = false; stop_at_end = false }
      ∷ [];
  stop_after_wait = false;
  execution_start = some (record { tv_sec = 10; tv_nsec = 100 });
  cycle = Tests.cycle_env;
  execution_end = some (record { tv_sec = 12; tv_nsec = 600000000 });
  now = some (record { tv_sec = 12; tv_nsec = 600000100 });
}

work-IsKept_example :
    IsKept fixed_point slow_round
      (record { tv_sec = 10; tv_nsec = 0 })
      (record { tv_sec = 12; tv_nsec = 600000000 })
      (record { tv_sec = 12; tv_nsec = 600000100 })
      application
      (work fixed_point
        (with_clocks fixed_point
          (record { tv_sec = 10; tv_nsec = 100 })
          (record { tv_sec = 12; tv_nsec = 600000000 })
          (record { tv_sec = 12; tv_nsec = 600000100 })
          slow_round)
        (record { tv_sec = 10; tv_nsec = 0 })
        application)
work-IsKept_example =
    work-IsKept fixed_point slow_round (record { tv_sec = 10; tv_nsec = 0 })
      (record { tv_sec = 10; tv_nsec = 100 }) (record { tv_sec = 12; tv_nsec = 600000000 })
      (record { tv_sec = 12; tv_nsec = 600000100 }) application (omega arith) (omega arith)
      (omega arith) (omega arith) (omega arith)

-- The second wait fails.
abbrev failing_rounds : List (Round ℕ)
failing_rounds =
    slow_round
    ∷ record slow_round {
      naps = record { code = release_failed; stop_in_loop = false; stop_at_end = false } ∷ [];
    }
    ∷ []

run-Leaves_example :
    Leaves fixed_point true
      (some (record { tv_sec = 7; tv_nsec = 500000000 }))
      failing_rounds
      application
      (run fixed_point true
        (some (record { tv_sec = 7; tv_nsec = 500000000 }))
        failing_rounds
        application)
run-Leaves_example =
    run-Leaves fixed_point true (some (record { tv_sec = 7; tv_nsec = 500000000 })) failing_rounds
      application application-IsUp

-- One cycle, late, and then the failure of the wait; everything is closed.
failing_rounds-run :
    let (code, a) =
      run fixed_point true
        (some (record { tv_sec = 7; tv_nsec = 500000000 }))
        failing_rounds
        application in
    (code ≡ some exit_failure)
    × (a.cycle_count ≡ 1)
    × (a.deadline_miss_count ≡ 1)
    × (a.service.running ≡ false)
    × (a.memory_locked ≡ false)
unfolding run run_loop round awoken work wait_until sleep_loop run_decision_cycle count_deadline
    next_release stop_parts unlock_process_memory PeriodicService.shutdown add_milliseconds
    advance_past_now validate_snapshot publish_timing_plan make_message try_send_pending
failing_rounds-run = (refl, refl, refl, refl, refl)
