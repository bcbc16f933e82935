-- ===== src/Decision/Tests.antt =====
-- Runs of the decision process on concrete snapshots, and on fixed-point numbers in place of the
-- platform's floating-point ones.
use adaptive_traffic_light.Prelude.{
  ℕ, ◌+◌, ◌*◌, ◌/◌, ◌^◌, ◌≡◌, ◌≢◌, ◌≤◌, refl, ◌⊎◌, true, false, none, some, List, [], ◌∷◌, ltb, leb,
  arith, u64_max,
}
use adaptive_traffic_light.Ipc.Errno.{no_error, eagain}
use adaptive_traffic_light.Ipc.Messages.{TimingPlan, TrafficSnapshot}
use adaptive_traffic_light.Decision.Float.{FloatOps}
use adaptive_traffic_light.Decision.Constraints.{apply_timing_constraints}
use adaptive_traffic_light.Decision.Constraints.Limits.{
  IsConstrained, apply_timing_constraints-IsConstrained,
}
use adaptive_traffic_light.Decision.Engine.{
  DecisionEngine, initial_plan, new_engine, process_traffic_metrics, detect_emergency,
}
use adaptive_traffic_light.Decision.Engine.Steps.{steps_toward, steps_toward-eq-target}
use adaptive_traffic_light.Decision.Engine.Invariant.{IsSteady, process_all, new_engine-process_all}
use adaptive_traffic_light.Decision.Engine.Plans.{IsMarked, process_traffic_metrics-IsMarked}
use adaptive_traffic_light.Decision.Publisher.{
  TimingPlanPublisher, SendEnv, OpenEnv, initialize, validate_queue_contract, next_sequence_number,
}
use adaptive_traffic_light.Decision.Publisher.Sending.{
  IsPublished, next_sequence_number_lem, publish_timing_plan_lem,
}

-- Thousandths.
abbrev pub fixed_point : FloatOps
fixed_point = record {
  F = ℕ;
  add = λ a b. a + b;
  mul = λ a b. a * b / 1000;
  less = ltb;
  at_most = leb;
  is_finite = λ _. true;
  of_u32 = λ n. n * 1000;
  decimal = λ m k. m * 1000 / 10 ^ k;
}

abbrev pub quiet : TrafficSnapshot ℕ
quiet = record {
  frame_id = 1;
  timestamp_us = 1000;
  vehicle_count_north = 12;
  vehicle_count_south = 20;
  vehicle_count_east = 3;
  vehicle_count_west = 2;
  queue_length_north = 60000;
  queue_length_south = 80000;
  queue_length_east = 1000;
  queue_length_west = 0;
  occupancy_north = 700;
  occupancy_south = 900;
  occupancy_east = 100;
  occupancy_west = 50;
  emergency_north = false;
  emergency_south = false;
  emergency_east = false;
  emergency_west = false;
}

abbrev pub alarmed : TrafficSnapshot ℕ
alarmed = record quiet { frame_id = 2; emergency_south = true }

abbrev pub history : List (ℕ × TrafficSnapshot ℕ)
history = (100, quiet) ∷ (200, alarmed) ∷ (300, quiet) ∷ []

abbrev engine : DecisionEngine ℕ
engine = process_all fixed_point history (new_engine fixed_point)

new_engine-process_all_example : IsSteady engine
new_engine-process_all_example = new_engine-process_all fixed_point history

process_traffic_metrics-IsMarked_example :
    IsMarked fixed_point 400 alarmed engine (process_traffic_metrics fixed_point 400 alarmed engine)
process_traffic_metrics-IsMarked_example =
    process_traffic_metrics-IsMarked fixed_point 400 alarmed engine

alarm_seen : detect_emergency fixed_point alarmed ≡ true
alarm_seen = refl

steps_toward-eq-target_example : steps_toward 4 30000 50000 ≡ 50000
steps_toward-eq-target_example =
    steps_toward-eq-target 4 30000 50000 (omega arith) (omega arith) (omega arith) (omega arith)

abbrev greedy : TimingPlan
greedy = record initial_plan { green_north_south_ms = 60000; green_east_west_ms = 55000 }

apply_timing_constraints-IsConstrained_example :
    IsConstrained greedy (apply_timing_constraints greedy)
apply_timing_constraints-IsConstrained_example = apply_timing_constraints-IsConstrained greedy

abbrev pub plan : TimingPlan
plan = record initial_plan { plan_id = 3 }

abbrev pub publisher : TimingPlanPublisher
publisher = record {
  is_open = true;
  pending_latest = none;
  pending_latest_plan = none;
  last_published_plan = initial_plan;
  publisher_instance_id = 77;
  sequence_number = 4;
  last_publish_timestamp_ns = 0;
  last_error = no_error;
}

abbrev full_queue : SendEnv
full_queue = record { send_error = some eagain; sent_at_ns = 0 }

abbrev pub free_queue : SendEnv
free_queue = record { send_error = none; sent_at_ns = 12 }

abbrev good_queue : OpenEnv
good_queue = record {
  open_error = none;
  getattr_error = none;
  attributes = record { mq_maxmsg = 8; mq_msgsize = 72 };
  now_ns = 1000;
  process_id = 42;
}

opened : (initialize good_queue (record publisher { is_open = false })).1 ≡ true
unfolding initialize validate_queue_contract
opened = refl

next_sequence_number_lem_example :
    (next_sequence_number u64_max ≢ 0)
    × (next_sequence_number u64_max ≤ u64_max)
    × ((next_sequence_number u64_max ≡ u64_max + 1) ⊎ (u64_max ≡ u64_max))
next_sequence_number_lem_example = next_sequence_number_lem u64_max (omega arith)

publish_timing_plan_lem_example : IsPublished full_queue plan publisher
publish_timing_plan_lem_example = publish_timing_plan_lem full_queue plan publisher
