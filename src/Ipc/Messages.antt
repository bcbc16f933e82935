-- ===== src/Ipc/Messages.antt =====
-- ipc/include/traffic_ipc/messages.h: the plain values that the processes exchange.
use adaptive_traffic_light.Prelude.{ℕ, Bool}

-- The controller's own `TimingPlan` (common/config.h) has the same fields.
pub record TimingPlan : Type 0 where
  pub plan_id : ℕ
  pub generation_timestamp_ns : ℕ
  pub perception_publish_timestamp_us : ℕ
  pub green_north_south_ms : ℕ
  pub green_east_west_ms : ℕ
  pub yellow_ms : ℕ
  pub all_red_ms : ℕ
  pub cycle_length_ms : ℕ
  pub emergency_north_south : Bool
  pub emergency_east_west : Bool

-- Four directions; `F` is the type of the 32-bit floating-point numbers.
pub record TrafficSnapshot (F : Type 0) : Type 0 where
  pub frame_id : ℕ
  pub timestamp_us : ℕ
  pub vehicle_count_north : ℕ
  pub vehicle_count_south : ℕ
  pub vehicle_count_east : ℕ
  pub vehicle_count_west : ℕ
  pub queue_length_north : F
  pub queue_length_south : F
  pub queue_length_east : F
  pub queue_length_west : F
  pub occupancy_north : F
  pub occupancy_south : F
  pub occupancy_east : F
  pub occupancy_west : F
  pub emergency_north : Bool
  pub emergency_south : Bool
  pub emergency_east : Bool
  pub emergency_west : Bool
