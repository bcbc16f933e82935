-- ===== src/Decision/Constraints.antt =====
-- traffic_timing_decision/src/decision_engine.cpp, ConstraintManager: the limits that every timing
-- plan is made to keep.
pub mod Limits
use adaptive_traffic_light.Prelude.{
  ℕ, ◌+◌, ◌-◌, ◌*◌, ◌/◌, Bool, ◌||◌, not, if◌then◌else◌, ltb, leb, ◌==◌, min, u32, u64, u32_max,
}
use adaptive_traffic_light.Ipc.Messages.{TimingPlan}

-- decision_constants.h
abbrev pub all_red_time_ms : ℕ
all_red_time_ms = 1000

abbrev pub yellow_time_ms : ℕ
yellow_time_ms = 3000

abbrev pub green_adjustment_step : ℕ
green_adjustment_step = 5000

abbrev pub minimum_green_ms : ℕ
minimum_green_ms = 10000

abbrev pub low_demand_green : ℕ
low_demand_green = 20000

abbrev pub initial_green : ℕ
initial_green = 30000

abbrev pub moderate_demand_green : ℕ
moderate_demand_green = 30000

abbrev pub high_demand_green : ℕ
high_demand_green = 40000

abbrev pub very_high_demand_green : ℕ
very_high_demand_green = 50000

abbrev pub maximum_green_ms : ℕ
maximum_green_ms = 60000

abbrev pub maximum_cycle_length_ms : ℕ
maximum_cycle_length_ms = 100000

abbrev pub directional_phase_count : ℕ
directional_phase_count = 2

-- std::clamp
abbrev pub clamp : ℕ → ℕ → ℕ → ℕ
clamp v lo hi = if ltb v lo then lo else if ltb hi v then hi else v

unfoldable pub calculate_cycle_length : TimingPlan → ℕ
calculate_cycle_length plan =
    min
      (u64 (
        plan.green_north_south_ms
        + plan.green_east_west_ms
        + directional_phase_count * (plan.yellow_ms + plan.all_red_ms)))
      u32_max

unfoldable pub validate_cycle_length : TimingPlan → Bool
validate_cycle_length plan = leb (calculate_cycle_length plan) maximum_cycle_length_ms

abbrev pub intergreen_time : ℕ
intergreen_time = u32 (directional_phase_count * u32 (yellow_time_ms + all_red_time_ms))

abbrev pub available_green : ℕ
available_green = maximum_cycle_length_ms - intergreen_time

-- The share of the north-south direction in the green time that there is.
abbrev pub north_south_share : TimingPlan → ℕ
north_south_share plan =
    clamp
      (u32 (
        u64 (plan.green_north_south_ms * available_green)
        / u64 (plan.green_north_south_ms + plan.green_east_west_ms)))
      minimum_green_ms (available_green - minimum_green_ms)

unfoldable pub scale_green_time : TimingPlan → TimingPlan
scale_green_time plan =
    if leb maximum_cycle_length_ms intergreen_time
    then record plan {
      green_north_south_ms = minimum_green_ms;
      green_east_west_ms = minimum_green_ms;
    }
    else let total_green = u64 (plan.green_north_south_ms + plan.green_east_west_ms) in
      if leb total_green available_green || total_green == 0 then plan else record plan {
        green_north_south_ms = north_south_share plan;
        green_east_west_ms = available_green - north_south_share plan;
      }

-- Both clearance times are set, and both greens brought into their range.
abbrev pub clamped : TimingPlan → TimingPlan
clamped draft = record draft {
  yellow_ms = yellow_time_ms;
  all_red_ms = all_red_time_ms;
  green_north_south_ms = clamp draft.green_north_south_ms minimum_green_ms maximum_green_ms;
  green_east_west_ms = clamp draft.green_east_west_ms minimum_green_ms maximum_green_ms;
}

abbrev pub with_cycle_length : TimingPlan → TimingPlan
with_cycle_length plan = record plan { cycle_length_ms = calculate_cycle_length plan }

unfoldable pub apply_timing_constraints : TimingPlan → TimingPlan
apply_timing_constraints draft =
    let constrained = with_cycle_length (clamped draft) in
    if not (validate_cycle_length constrained)
    then with_cycle_length (scale_green_time constrained)
    else with_cycle_length constrained
