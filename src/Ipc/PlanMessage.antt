-- ===== src/Ipc/PlanMessage.antt =====
-- ipc/include/traffic_ipc/timing_plan_message_v1.h: the timing plan on the wire. The layout of the
-- bytes is the platform's; a message is its fields.
use adaptive_traffic_light.Prelude.{ℕ, Bool, ◌&&◌, not, leb, ◌==◌}

pub record TimingPlanMessage : Type 0 where
  pub magic : ℕ
  pub version : ℕ
  pub message_size : ℕ
  pub publisher_instance_id : ℕ
  pub sequence_number : ℕ
  pub plan_id : ℕ
  pub generation_timestamp_ns : ℕ
  pub perception_publish_timestamp_us : ℕ
  pub green_north_south_ms : ℕ
  pub green_east_west_ms : ℕ
  pub yellow_ms : ℕ
  pub all_red_ms : ℕ
  pub cycle_length_ms : ℕ
  pub emergency_north_south : ℕ
  pub emergency_east_west : ℕ
  pub reserved0 : ℕ
  pub reserved1 : ℕ

abbrev pub timing_plan_queue_max_messages : ℕ
timing_plan_queue_max_messages = 8

abbrev pub timing_plan_queue_message_size : ℕ
timing_plan_queue_message_size = 72

abbrev pub timing_plan_magic : ℕ
timing_plan_magic = 0x54504c31

abbrev pub timing_plan_version : ℕ
timing_plan_version = 1

abbrev pub has_valid_timing_plan_header : TimingPlanMessage → Bool
has_valid_timing_plan_header m =
    m.magic == timing_plan_magic
    && m.version == timing_plan_version
    && m.message_size == timing_plan_queue_message_size

abbrev pub has_valid_timing_plan_boolean_encoding : TimingPlanMessage → Bool
has_valid_timing_plan_boolean_encoding m =
    leb m.emergency_north_south 1 && leb m.emergency_east_west 1

abbrev pub has_valid_timing_plan_reserved_bytes : TimingPlanMessage → Bool
has_valid_timing_plan_reserved_bytes m = m.reserved0 == 0 && m.reserved1 == 0

unfoldable pub has_valid_timing_plan_envelope : TimingPlanMessage → Bool
has_valid_timing_plan_envelope m =
    has_valid_timing_plan_header m
    && has_valid_timing_plan_boolean_encoding m
    && has_valid_timing_plan_reserved_bytes m
    && not (m.publisher_instance_id == 0)
    && not (m.sequence_number == 0)
