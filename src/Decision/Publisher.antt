-- ===== src/Decision/Publisher.antt =====
-- traffic_timing_decision/src/timing_plan_publisher.cpp: the timing plans on their way into the
-- message queue. What the system calls return is an argument; a message that mq_send() took is
-- part of the result.
pub mod Sending
use Prim.Native.Nat.{bit_xor}
use adaptive_traffic_light.Prelude.{
  ℕ, ◌+◌, ◌*◌, ◌^◌, Bool, true, false, ◌||◌, ◌&&◌, not, if◌then◌else◌, ◌==◌, Option, none, some,
  u64, u64_max,
}
use adaptive_traffic_light.Ipc.Errno.{Errno, no_error, ebadf, emsgsize, is_eagain, is_eintr, MqAttr}
use adaptive_traffic_light.Ipc.Messages.{TimingPlan}
use adaptive_traffic_light.Ipc.PlanMessage.{
  TimingPlanMessage, timing_plan_magic, timing_plan_version, timing_plan_queue_max_messages,
  timing_plan_queue_message_size,
}

-- `is_open`: the descriptor is not -1.
pub record TimingPlanPublisher : Type 0 where
  pub is_open : Bool
  pub pending_latest : Option TimingPlanMessage
  pub pending_latest_plan : Option TimingPlan
  pub last_published_plan : TimingPlan
  pub publisher_instance_id : ℕ
  pub sequence_number : ℕ
  pub last_publish_timestamp_ns : ℕ
  pub last_error : Errno

abbrev pub shutdown : TimingPlanPublisher → TimingPlanPublisher
shutdown p = record p { is_open = false; pending_latest = none; pending_latest_plan = none }

-- The results of mq_open(), mq_getattr(), common::monotonicNanoseconds() and getpid().
pub record OpenEnv : Type 0 where
  pub open_error : Option Errno
  pub getattr_error : Option Errno
  pub attributes : MqAttr
  pub now_ns : ℕ
  pub process_id : ℕ

-- The publisher afterwards, and whether the queue is the one that was agreed on.
unfoldable pub validate_queue_contract : OpenEnv → TimingPlanPublisher → TimingPlanPublisher × Bool
validate_queue_contract env p = elim env.getattr_error [
  | some e ↦ (record p { last_error = e }, false)
  | none ↦
      if not (env.attributes.mq_maxmsg == timing_plan_queue_max_messages)
        || not (env.attributes.mq_msgsize == timing_plan_queue_message_size)
      then (record p { last_error = emsgsize }, false)
      else (record p { last_error = no_error }, true)
]

abbrev pub instance_id : ℕ → ℕ → ℕ
instance_id now_ns process_id =
    let mixed = bit_xor (bit_xor now_ns (u64 (process_id * 2 ^ 32))) process_id in
    if mixed == 0 then if not (process_id == 0) then process_id else 1 else mixed

unfoldable pub initialize : OpenEnv → TimingPlanPublisher → TimingPlanPublisher × Bool
initialize env p = if p.is_open then (p, true) else elim env.open_error [
  | some e ↦ (record p { last_error = e }, false)
  | none ↦
      let (q, agreed) = validate_queue_contract env (record p { is_open = true }) in
      if not agreed then (shutdown q, false) else (
        record q {
          publisher_instance_id = instance_id env.now_ns env.process_id;
          sequence_number = 0;
          pending_latest = none;
          pending_latest_plan = none;
          last_error = no_error;
        },
        true,
      )
]

unfoldable pub next_sequence_number : ℕ → ℕ
next_sequence_number n = if n == u64_max then 1 else u64 (n + 1)

abbrev pub flag_byte : Bool → ℕ
flag_byte b = if b then 1 else 0

-- The message with a given sequence number.
unfoldable pub message_of : ℕ → ℕ → TimingPlan → TimingPlanMessage
message_of instance_number sequence plan = record {
  magic = timing_plan_magic;
  version = timing_plan_version;
  message_size = timing_plan_queue_message_size;
  publisher_instance_id = instance_number;
  sequence_number = sequence;
  plan_id = plan.plan_id;
  generation_timestamp_ns = plan.generation_timestamp_ns;
  perception_publish_timestamp_us = plan.perception_publish_timestamp_us;
  green_north_south_ms = plan.green_north_south_ms;
  green_east_west_ms = plan.green_east_west_ms;
  yellow_ms = plan.yellow_ms;
  all_red_ms = plan.all_red_ms;
  cycle_length_ms = plan.cycle_length_ms;
  emergency_north_south = flag_byte plan.emergency_north_south;
  emergency_east_west = flag_byte plan.emergency_east_west;
  reserved0 = 0;
  reserved1 = 0;
}

unfoldable pub make_message :
    TimingPlan → TimingPlanPublisher → TimingPlanPublisher × TimingPlanMessage
make_message plan p =
    let sequence = next_sequence_number p.sequence_number in
    (record p { sequence_number = sequence }, message_of p.publisher_instance_id sequence plan)

-- What mq_send() returned, and the time after a send that went well.
pub record SendEnv : Type 0 where
  pub send_error : Option Errno
  pub sent_at_ns : ℕ

-- The publisher afterwards, the result, and the message that went into the queue.
pub record Sent : Type 0 where
  pub publisher : TimingPlanPublisher
  pub success : Bool
  pub delivered : Option TimingPlanMessage

-- `pendingLatestPlan_` is recorded as published, where there is one.
abbrev pub note_published : ℕ → Option TimingPlan → TimingPlanPublisher → TimingPlanPublisher
note_published now_ns none p = p
note_published now_ns (some plan) p = record p {
  last_published_plan = plan;
  last_publish_timestamp_ns = now_ns;
}

abbrev pub send_candidate : SendEnv → TimingPlanMessage → TimingPlanPublisher → Sent
send_candidate env candidate p = elim env.send_error [
  | some e ↦ record {
    publisher = record p { last_error = e };
    success = is_eagain e || is_eintr e;
    delivered = none;
  }
  | none ↦ record {
    publisher = record (note_published env.sent_at_ns p.pending_latest_plan p) {
      pending_latest = none;
      pending_latest_plan = none;
      last_error = no_error;
    };
    success = true;
    delivered = some candidate;
  }
]

unfoldable pub try_send_pending : SendEnv → TimingPlanPublisher → Sent
try_send_pending env p = elim p.pending_latest [
  | none ↦ record { publisher = p; success = true; delivered = none }
  | some candidate ↦
      if not p.is_open
      then record { publisher = record p { last_error = ebadf }; success = false; delivered = none }
      else send_candidate env candidate p
]

unfoldable pub publish_timing_plan : SendEnv → TimingPlan → TimingPlanPublisher → Sent
publish_timing_plan env plan p =
    let (q, message) = make_message plan p in
    try_send_pending env
      (record q { pending_latest = some message; pending_latest_plan = some plan })

unfoldable pub retry_pending_timing_plan : SendEnv → TimingPlanPublisher → Sent
retry_pending_timing_plan env p = try_send_pending env p

unfoldable pub publish_previous_timing_plan : SendEnv → TimingPlanPublisher → Sent
publish_previous_timing_plan env p =
    if p.last_published_plan.plan_id == 0
    then record { publisher = p; success = false; delivered = none }
    else publish_timing_plan env p.last_published_plan p
