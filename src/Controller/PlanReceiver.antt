-- ===== src/Controller/PlanReceiver.antt =====
-- traffic_signal_controller/src/traffic_signal_controller/plan_receiver.cpp: validation and
-- translation of the plans that reach the controller. What goes to the log only is left out.
pub mod Plans
use adaptive_traffic_light.Prelude.{
  ℕ, ◌+◌, ◌*◌, Bool, true, false, ◌&&◌, ◌||◌, not, if◌then◌else◌, ltb, ◌==◌, Option, none, some,
  Timespec, u64, u32_max,
}
use adaptive_traffic_light.Ipc.Messages.{TimingPlan}
use adaptive_traffic_light.Controller.Config.{
  PlanData, cycle, nanoseconds_per_second, min_green_duration_ms, max_green_duration_ms,
  min_yellow_duration_ms, max_yellow_duration_ms, min_all_red_duration_ms, max_all_red_duration_ms,
}
use adaptive_traffic_light.Controller.SyncChannel.{SyncChannel, publish_plan}

abbrev pub calculated_cycle_length_ms : TimingPlan → ℕ
calculated_cycle_length_ms plan =
    u64 (
      plan.green_north_south_ms
      + plan.green_east_west_ms
      + 2 * plan.yellow_ms
      + 2 * plan.all_red_ms)

unfoldable pub validate_plan : TimingPlan → Bool
validate_plan plan =
    if plan.plan_id == 0
    then false
    else if plan.emergency_north_south && plan.emergency_east_west
    then false
    else if ltb plan.green_north_south_ms min_green_duration_ms
        || ltb max_green_duration_ms plan.green_north_south_ms
    then false
    else if ltb plan.green_east_west_ms min_green_duration_ms
        || ltb max_green_duration_ms plan.green_east_west_ms
    then false
    else if ltb plan.yellow_ms min_yellow_duration_ms || ltb max_yellow_duration_ms plan.yellow_ms
    then false
    else if ltb plan.all_red_ms min_all_red_duration_ms
        || ltb max_all_red_duration_ms plan.all_red_ms
    then false
    else if ltb u32_max (calculated_cycle_length_ms plan)
    then false
    else if not (plan.cycle_length_ms == 0)
        && not (plan.cycle_length_ms == calculated_cycle_length_ms plan)
    then false
    else true

unfoldable pub translate_plan : TimingPlan → PlanData
translate_plan plan = record {
  source_plan_id = plan.plan_id;
  controller_receive_timestamp_ns = 0;
  phases =
      cycle plan.green_north_south_ms plan.yellow_ms plan.all_red_ms plan.green_east_west_ms
        plan.yellow_ms plan.all_red_ms;
  phase_count = 6;
  is_emergency_ns = plan.emergency_north_south;
  is_emergency_ew = plan.emergency_east_west;
}

-- What `clock_gettime(CLOCK_MONOTONIC)` gave, as nanoseconds; 0 where it failed.
abbrev pub receive_timestamp_ns : Option Timespec → ℕ
receive_timestamp_ns none = 0
receive_timestamp_ns (some t) = u64 (t.tv_sec * nanoseconds_per_second + t.tv_nsec)

unfoldable pub receive_plan : Option Timespec → TimingPlan → SyncChannel → SyncChannel × Bool
receive_plan clock plan ch =
    if not (validate_plan plan)
    then (ch, false)
    else publish_plan
        (record (translate_plan plan) {
          controller_receive_timestamp_ns = receive_timestamp_ns clock;
        })
        ch
