-- ===== src/Decision/PeriodicService/Tests.antt =====
-- Runs of the decision cycle and of its clock on concrete data.
use adaptive_traffic_light.Prelude.{
  ℕ, ◌≡◌, refl, ◌⊎◌, true, some, List, [], ◌∷◌, arith, Timespec, u32,
}
use adaptive_traffic_light.Ipc.Errno.{no_error}
use adaptive_traffic_light.Ipc.Messages.{TrafficSnapshot}
use adaptive_traffic_light.Ipc.QueueStatus.{success, empty}
use adaptive_traffic_light.Decision.Engine.{new_engine}
use adaptive_traffic_light.Decision.Clock.{advance_past_now}
use adaptive_traffic_light.Decision.Clock.Releases.{IsFirstAfter, advance_past_now-IsFirstAfter}
use adaptive_traffic_light.Decision.Receiver.{TrafficDataReceiver, validate_snapshot}
use adaptive_traffic_light.Decision.Receiver.Watermark.{
  IsIncreasing, accepted_frames, accepted_frames-IsIncreasing,
}
use adaptive_traffic_light.Decision.PeriodicService.{PeriodicService, CycleEnv, run_decision_cycle}
use adaptive_traffic_light.Decision.PeriodicService.Cycle.{
  IsDecided, IsMissed, run_decision_cycle-cases,
}
use adaptive_traffic_light.Decision.Tests.{fixed_point, quiet, alarmed, publisher, free_queue}

abbrev receiver : TrafficDataReceiver ℕ
receiver = record {
  snapshot_queue = record { descriptor_open = true; semaphore_open = true; last_error = no_error };
  last_status = empty;
  latest_snapshot = record quiet { frame_id = 0 };
  previous_snapshot = record quiet { frame_id = 0 };
}

abbrev pub service : PeriodicService ℕ
service = record {
  running = true;
  consecutive_snapshot_misses = 0;
  traffic_receiver = receiver;
  decision_engine = new_engine fixed_point;
  timing_publisher = publisher;
  health_running = true;
}

abbrev pub cycle_env : CycleEnv ℕ
cycle_env = record {
  health_started = true;
  status = success;
  snapshot = quiet;
  rx_ns = 2000000;
  validated_ns = 2000100;
  decided_ns = 2000200;
  send = free_queue;
}

abbrev silent_env : CycleEnv ℕ
silent_env = record cycle_env { status = empty }

abbrev three_silent : List (CycleEnv ℕ)
three_silent = silent_env ∷ silent_env ∷ silent_env ∷ []

abbrev weary_service : PeriodicService ℕ
weary_service = record service { consecutive_snapshot_misses = 20 }

-- The second copy of a frame, and an older one, are rejected.
abbrev arrivals : List (ℕ × TrafficSnapshot ℕ)
arrivals = (2000100, quiet) ∷ (2000200, alarmed) ∷ (2000300, alarmed) ∷ (2000400, quiet) ∷ []

arrivals-accepted_frames : accepted_frames fixed_point arrivals receiver ≡ 1 ∷ 2 ∷ []
unfolding accepted_frames validate_snapshot
arrivals-accepted_frames = refl

accepted_frames-IsIncreasing_example :
    IsIncreasing 0 (accepted_frames fixed_point arrivals receiver)
accepted_frames-IsIncreasing_example = accepted_frames-IsIncreasing fixed_point arrivals receiver

run_decision_cycle-cases_example :
    IsDecided fixed_point cycle_env service (run_decision_cycle fixed_point cycle_env service)
    ⊎ IsMissed fixed_point cycle_env service (run_decision_cycle fixed_point cycle_env service)
run_decision_cycle-cases_example = run_decision_cycle-cases fixed_point cycle_env service refl refl

abbrev release_instant : Timespec
release_instant = record { tv_sec = 10; tv_nsec = 500000000 }

abbrev late : Timespec
late = record { tv_sec = 16; tv_nsec = 0 }

-- Periods of 2.5 s: the releases at 10.5 s, 13 s and 15.5 s are over.
advance_past_now-IsFirstAfter_example :
    (r : Timespec) × (n : ℕ) × (advance_past_now 5502 0 release_instant 2500 late ≡ some (r, u32 n))
    × IsFirstAfter release_instant 2500 late r n
advance_past_now-IsFirstAfter_example =
    advance_past_now-IsFirstAfter 5501 release_instant 2500 late (omega arith) (omega arith)
      (omega arith) (omega arith) (omega arith)
