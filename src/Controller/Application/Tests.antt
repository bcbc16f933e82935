-- ===== src/Controller/Application/Tests.antt =====
-- A start of the controller, and a run that a failed worker ends.
use adaptive_traffic_light.Prelude.{◌≡◌, refl, true, false, List, [], ◌∷◌}
use adaptive_traffic_light.Controller.SyncChannel.{new_channel}
use adaptive_traffic_light.Controller.Output.{start}
use adaptive_traffic_light.Controller.Output.Tests.{simulator}
use adaptive_traffic_light.Controller.Application.{
  SignalControlApplication, exit_failure, StartEnv, Spawn, Cycle, initialize, run, start_workers,
  run_loop, round,
}

abbrev new_application : SignalControlApplication
new_application = record {
  plan_sync_channel = new_channel;
  output_simulator = record simulator { running = false; started = false };
  health_running = false;
  fsm_worker_created = false;
  plan_receiver_worker_created = false;
  output_worker_created = false;
  fsm_running = false;
  fsm_failed = false;
  plan_receiver_running = false;
  plan_receiver_failed = false;
  cycle_count = 0;
  initialized = false;
}

abbrev works : Spawn
works = record { attributes_ready = true; configured = true; created = true }

-- The thread of the state machine cannot be created.
abbrev last_start_fails : StartEnv
last_start_fails = record {
  pinned = true;
  health_initialized = true;
  output_throws = false;
  signal_queue_opens = true;
  output_spawn = works;
  plan_receiver_spawn = works;
  fsm_spawn = record works { created = false };
}

abbrev all_start : StartEnv
all_start = record last_start_fails { fsm_spawn = works }

start_fails : (initialize last_start_fails new_application).0 ≡ exit_failure
unfolding initialize start_workers start
start_fails = refl

abbrev running_application : SignalControlApplication
running_application = record new_application {
  output_simulator = record simulator { running = true; started = true };
  health_running = true;
  fsm_worker_created = true;
  plan_receiver_worker_created = true;
  output_worker_created = true;
  fsm_running = true;
  plan_receiver_running = true;
  initialized = true;
}

abbrev good_cycle : Cycle
good_cycle = record {
  stop_requested = false;
  stopped_in_wait = false;
  health_started = true;
  fsm_failed = false;
  plan_receiver_failed = false;
  checked_ns = 1000;
}

abbrev second_fails : List Cycle
second_fails = good_cycle ∷ record good_cycle { fsm_failed = true } ∷ []

run_fails : (run second_fails 0 running_application).0 ≡ exit_failure
unfolding run run_loop round
run_fails = refl
