-- ===== src/Ipc/SignalMessage.antt =====
-- ipc/include/traffic_ipc/signal_state_message_v1.h: the lamps and countdowns on the wire, for
-- display only.
use adaptive_traffic_light.Prelude.{ℕ, Bool, ◌&&◌, not, ◌==◌}

pub data SignalLamp : Type 0 where
  lamp_red lamp_yellow lamp_green : SignalLamp

pub data SignalPhase : Type 0 where
  phase_north_south_green phase_yellow phase_all_red phase_east_west_green : SignalPhase

-- Both enumerations have no other values here, so the range tests of the envelope always hold.
pub record SignalStateMessage : Type 0 where
  pub magic : ℕ
  pub version : ℕ
  pub message_size : ℕ
  pub sequence_number : ℕ
  pub publish_timestamp_ns : ℕ
  pub north_south_remaining_time_ms : ℕ
  pub east_west_remaining_time_ms : ℕ
  pub north_south_lamp : SignalLamp
  pub east_west_lamp : SignalLamp
  pub phase : SignalPhase
  pub reserved : ℕ  -- five bytes, as one number

abbrev pub signal_state_magic : ℕ
signal_state_magic = 0x53494731

abbrev pub signal_state_version : ℕ
signal_state_version = 1

abbrev pub signal_state_message_size : ℕ
signal_state_message_size = 40

-- `SignalStateMessageV1{}`
abbrev pub empty_signal_state : SignalStateMessage
empty_signal_state = record {
  magic = signal_state_magic;
  version = signal_state_version;
  message_size = signal_state_message_size;
  sequence_number = 0;
  publish_timestamp_ns = 0;
  north_south_remaining_time_ms = 0;
  east_west_remaining_time_ms = 0;
  north_south_lamp = lamp_red;
  east_west_lamp = lamp_red;
  phase = phase_all_red;
  reserved = 0;
}

abbrev pub has_valid_signal_state_envelope : SignalStateMessage → Bool
has_valid_signal_state_envelope m =
    m.magic == signal_state_magic
    && m.version == signal_state_version
    && m.message_size == signal_state_message_size
    && not (m.sequence_number == 0)
    && not (m.publish_timestamp_ns == 0)
    && m.reserved == 0
