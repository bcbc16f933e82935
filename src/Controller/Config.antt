-- ===== src/Controller/Config.antt =====
-- traffic_signal_controller/include/common/config.h: phases, plans and limits of the controller.
use adaptive_traffic_light.Prelude.{ℕ, Bool, false, List, [], ◌∷◌, ◌==◌}

pub data PhaseId : Type 0 where
  ns_green yellow all_red ew_green : PhaseId

pub data SignalGroup : Type 0 where
  north_south east_west : SignalGroup

-- The values of the two enumerations.
abbrev pub phase_code : PhaseId → ℕ
phase_code ns_green = 0
phase_code yellow = 1
phase_code all_red = 2
phase_code ew_green = 3

abbrev pub group_code : SignalGroup → ℕ
group_code north_south = 0
group_code east_west = 1

abbrev pub phase_is : PhaseId → PhaseId → Bool
phase_is a b = phase_code a == phase_code b

abbrev pub group_is : SignalGroup → SignalGroup → Bool
group_is a b = group_code a == group_code b

pub record Phase : Type 0 where
  pub phase_id : PhaseId
  pub duration_ms : ℕ

pub record PlanData : Type 0 where
  pub source_plan_id : ℕ
  pub controller_receive_timestamp_ns : ℕ
  pub phases : List Phase  -- std::array<Phase, MAX_PHASES>
  pub phase_count : ℕ
  pub is_emergency_ns : Bool
  pub is_emergency_ew : Bool

pub record SignalDisplay : Type 0 where
  pub phase_id : PhaseId
  pub remaining_time_ms : ℕ
  pub active_group : SignalGroup
  pub north_south_remaining_time_ms : ℕ
  pub east_west_remaining_time_ms : ℕ

abbrev pub max_phases : ℕ
max_phases = 6

abbrev pub timer_interval_ms : ℕ
timer_interval_ms = 1000

abbrev pub nanoseconds_per_millisecond : ℕ
nanoseconds_per_millisecond = 1000000

abbrev pub nanoseconds_per_second : ℕ
nanoseconds_per_second = 1000000000

abbrev pub min_green_duration_ms : ℕ
min_green_duration_ms = 1000

abbrev pub max_green_duration_ms : ℕ
max_green_duration_ms = 500000

abbrev pub min_yellow_duration_ms : ℕ
min_yellow_duration_ms = 1000

abbrev pub max_yellow_duration_ms : ℕ
max_yellow_duration_ms = 10000

abbrev pub min_all_red_duration_ms : ℕ
min_all_red_duration_ms = 500

abbrev pub max_all_red_duration_ms : ℕ
max_all_red_duration_ms = 10000

abbrev pub emergency_lower_threshold_ms : ℕ
emergency_lower_threshold_ms = 3000

abbrev pub emergency_upper_threshold_ms : ℕ
emergency_upper_threshold_ms = 15000

abbrev pub emergency_green_duration_ms : ℕ
emergency_green_duration_ms = 20000

abbrev pub phase : PhaseId → ℕ → Phase
phase p d = record { phase_id = p; duration_ms = d }

-- A default-constructed `Phase`, and what an access outside the array is taken to give.
abbrev pub empty_phase : Phase
empty_phase = phase all_red 0

-- The array of one cycle of the intersection.
abbrev pub cycle : ℕ → ℕ → ℕ → ℕ → ℕ → ℕ → List Phase
cycle g1 y1 r1 g2 y2 r2 =
    phase ns_green g1
    ∷ phase yellow y1
    ∷ phase all_red r1
    ∷ phase ew_green g2
    ∷ phase yellow y2
    ∷ phase all_red r2
    ∷ []

-- `PlanData{}`
abbrev pub empty_plan : PlanData
empty_plan = record {
  source_plan_id = 0;
  controller_receive_timestamp_ns = 0;
  phases = empty_phase ∷ empty_phase ∷ empty_phase ∷ empty_phase ∷ empty_phase ∷ empty_phase ∷ [];
  phase_count = 0;
  is_emergency_ns = false;
  is_emergency_ew = false;
}

abbrev pub make_default_plan : PlanData
make_default_plan = record {
  source_plan_id = 0;
  controller_receive_timestamp_ns = 0;
  phases = cycle 30000 3000 1000 30000 3000 1000;
  phase_count = 6;
  is_emergency_ns = false;
  is_emergency_ew = false;
}
