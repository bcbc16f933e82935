-- ===== src/Decision/Engine.antt =====
-- traffic_timing_decision/src/decision_engine.cpp, DecisionEngine: from a traffic snapshot to the
-- next timing plan. `now_ns` is what common::monotonicNanoseconds() gave. The floating-point
-- operations are the section's parameter.
pub mod Steps
pub mod Invariant
pub mod Plans
use adaptive_traffic_light.Prelude.{
  ℕ, ◌+◌, ◌-◌, ◌*◌, Bool, true, false, ◌||◌, if◌then◌else◌, ltb, min, u32, u64,
}
use adaptive_traffic_light.Ipc.Messages.{TimingPlan, TrafficSnapshot}
use adaptive_traffic_light.Decision.Float.{FloatOps}
use adaptive_traffic_light.Decision.Constraints.{
  all_red_time_ms, yellow_time_ms, green_adjustment_step, low_demand_green, initial_green,
  moderate_demand_green, high_demand_green, very_high_demand_green, directional_phase_count,
  apply_timing_constraints,
}

pub record DemandScore (F : Type 0) : Type 0 where
  pub north_south_score : F
  pub east_west_score : F
  pub overall_score : F

pub record DecisionEngine (F : Type 0) : Type 0 where
  pub next_plan_id : ℕ
  pub previous_plan : TimingPlan
  pub current_score : DemandScore F
  pub emergency_active : Bool

-- The plan that the constructor of the engine sets up.
abbrev pub initial_plan : TimingPlan
initial_plan = record {
  plan_id = 0;
  generation_timestamp_ns = 0;
  perception_publish_timestamp_us = 0;
  green_north_south_ms = initial_green;
  green_east_west_ms = initial_green;
  yellow_ms = yellow_time_ms;
  all_red_ms = all_red_time_ms;
  cycle_length_ms = u32 (
      initial_green + initial_green + directional_phase_count * (yellow_time_ms + all_red_time_ms));
  emergency_north_south = false;
  emergency_east_west = false;
}

-- `current - min(step, current - target)` runs only at `current > target`.
unfoldable pub step_toward : ℕ → ℕ → ℕ
step_toward current target =
    if ltb current target
    then min target (u32 (current + green_adjustment_step))
    else if ltb target current
    then current - min green_adjustment_step (current - target)
    else current

module _ (ops : FloatOps) where
  open ops use {F, add, mul, less, of_u32, decimal}

  -- kPairMeanMultiplier is 0.5F, kMetricPercentageMultiplier 100.0F.
  abbrev pub mean : F → F → F
  mean first second = mul (add first second) (decimal 5 1)

  abbrev pub mean_count : ℕ → ℕ → F
  mean_count first second = mul (of_u32 (u32 (first + second))) (decimal 5 1)

  -- std::min on floating-point numbers.
  abbrev pub smaller : F → F → F
  smaller a b = if less b a then b else a

  -- The score of one axis: weights 0.2, 0.6 and 0.2.
  abbrev pub axis_score : F → F → ℕ → ℕ → F → F → F
  axis_score queue1 queue2 count1 count2 occupancy1 occupancy2 =
      let queue = mul (mean queue1 queue2) (decimal 1000 1) in
      let vehicles = smaller (mul (mean_count count1 count2) (decimal 60 1)) (decimal 1000 1) in
      let occupancy = mul (mean occupancy1 occupancy2) (decimal 1000 1) in
      add (add (mul (decimal 2 1) queue) (mul (decimal 6 1) vehicles)) (mul (decimal 2 1) occupancy)

  unfoldable pub calculate_demand_score : TrafficSnapshot F → DemandScore F
  calculate_demand_score s =
      let north_south =
        axis_score s.queue_length_north s.queue_length_south s.vehicle_count_north
          s.vehicle_count_south s.occupancy_north s.occupancy_south in
      let east_west =
        axis_score s.queue_length_east s.queue_length_west s.vehicle_count_east s.vehicle_count_west
          s.occupancy_east s.occupancy_west in
      record {
        north_south_score = north_south;
        east_west_score = east_west;
        overall_score = mean north_south east_west;
      }

  unfoldable pub target_green_time_ms : F → ℕ
  target_green_time_ms demand_score =
      if less demand_score (decimal 300 1)
      then low_demand_green
      else if less demand_score (decimal 600 1)
      then moderate_demand_green
      else if less demand_score (decimal 900 1)
      then high_demand_green
      else very_high_demand_green

  unfoldable pub new_engine : DecisionEngine F
  new_engine = record {
    next_plan_id = 1;
    previous_plan = initial_plan;
    current_score = record {
      north_south_score = decimal 0 1;
      east_west_score = decimal 0 1;
      overall_score = decimal 0 1;
    };
    emergency_active = false;
  }

  abbrev pub detect_emergency : TrafficSnapshot F → Bool
  detect_emergency s =
      s.emergency_north || s.emergency_south || s.emergency_east || s.emergency_west

  -- The plan that goes on to the constraints, beside the engine.
  unfoldable pub set_emergency_flags :
      ℕ → TrafficSnapshot F → DecisionEngine F → DecisionEngine F × TimingPlan
  set_emergency_flags now_ns s e = (
    record e { next_plan_id = u64 (e.next_plan_id + 1) },
    record (e.previous_plan) {
      plan_id = e.next_plan_id;
      generation_timestamp_ns = now_ns;
      emergency_north_south = s.emergency_north || s.emergency_south;
      emergency_east_west = s.emergency_east || s.emergency_west;
    },
  )

  unfoldable pub assign_green_time : DemandScore F → DecisionEngine F → TimingPlan
  assign_green_time score e = record (e.previous_plan) {
    green_north_south_ms =
        step_toward e.previous_plan.green_north_south_ms
          (target_green_time_ms score.north_south_score);
    green_east_west_ms =
        step_toward e.previous_plan.green_east_west_ms (target_green_time_ms score.east_west_score);
  }

  unfoldable pub generate_draft_timing_plan :
      ℕ → DemandScore F → DecisionEngine F → DecisionEngine F × TimingPlan
  generate_draft_timing_plan now_ns score e = (
    record e { next_plan_id = u64 (e.next_plan_id + 1) },
    record (assign_green_time score e) {
      plan_id = e.next_plan_id;
      generation_timestamp_ns = now_ns;
      emergency_north_south = false;
      emergency_east_west = false;
    },
  )

  -- The draft of the next plan, before the constraints.
  unfoldable pub draft_plan :
      ℕ → TrafficSnapshot F → DecisionEngine F → DecisionEngine F × TimingPlan
  draft_plan now_ns s e =
      if detect_emergency s
      then set_emergency_flags now_ns s (record e { emergency_active = true })
      else generate_draft_timing_plan now_ns (calculate_demand_score s)
          (record e { emergency_active = false; current_score = calculate_demand_score s })

  -- The engine afterwards; the plan that is returned is its previous plan.
  unfoldable pub process_traffic_metrics :
      ℕ → TrafficSnapshot F → DecisionEngine F → DecisionEngine F
  process_traffic_metrics now_ns s e =
      let (e', draft) = draft_plan now_ns s e in
      record e' { previous_plan = apply_timing_constraints draft }
