-- ===== src/Controller/MqWorker.antt =====
-- traffic_signal_controller/src/traffic_signal_controller/mq_timing_plan_receiver_worker.cpp: the
-- thread that takes timing plans out of the message queue. What the system calls return, and
-- whether the thread is still to run, comes as a list of events; the log is left out.
pub mod Transport
pub mod Run
pub mod Tests
use adaptive_traffic_light.Prelude.{
  ℕ, Bool, true, false, ◌||◌, not, if◌then◌else◌, ◌==◌, leb, Option, none, some, List, [], ◌∷◌,
  Timespec,
}
use adaptive_traffic_light.Ipc.Errno.{Errno, emsgsize, is_etimedout, is_eintr, is_eagain, MqAttr}
use adaptive_traffic_light.Ipc.Messages.{TimingPlan}
use adaptive_traffic_light.Ipc.PlanMessage.{
  TimingPlanMessage, has_valid_timing_plan_envelope, timing_plan_queue_max_messages,
  timing_plan_queue_message_size,
}
use adaptive_traffic_light.Controller.SyncChannel.{SyncChannel}
use adaptive_traffic_light.Controller.PlanReceiver.{receive_plan}

-- `is_open`: the descriptor is not -1.
pub record MqTimingPlanReceiverWorker : Type 0 where
  pub is_open : Bool
  pub has_transport_position : Bool
  pub publisher_instance_id : ℕ
  pub last_sequence_number : ℕ

unfoldable pub decode_plan : TimingPlanMessage → TimingPlan
decode_plan m = record {
  plan_id = m.plan_id;
  generation_timestamp_ns = m.generation_timestamp_ns;
  perception_publish_timestamp_us = m.perception_publish_timestamp_us;
  green_north_south_ms = m.green_north_south_ms;
  green_east_west_ms = m.green_east_west_ms;
  yellow_ms = m.yellow_ms;
  all_red_ms = m.all_red_ms;
  cycle_length_ms = m.cycle_length_ms;
  emergency_north_south = m.emergency_north_south == 1;
  emergency_east_west = m.emergency_east_west == 1;
}

-- The results of mq_open() and mq_getattr().
pub record OpenEnv : Type 0 where
  pub open_error : Option Errno
  pub getattr_error : Option Errno
  pub attributes : MqAttr

-- The worker afterwards, and `errno` where it failed.
unfoldable pub open_and_validate :
    OpenEnv → MqTimingPlanReceiverWorker → MqTimingPlanReceiverWorker × Option Errno
open_and_validate env w = elim env.open_error [
  | some e ↦ (record w { is_open = false }, some e)
  | none ↦ elim env.getattr_error [
    | some e ↦ (record w { is_open = false }, some e)
    | none ↦
        if not (env.attributes.mq_maxmsg == timing_plan_queue_max_messages)
          || not (env.attributes.mq_msgsize == timing_plan_queue_message_size)
        then (record w { is_open = false }, some emsgsize)
        else (record w { is_open = true }, none)
  ]
]

-- The worker afterwards, and whether the message is a new one.
unfoldable pub is_newer_transport_message :
    ℕ → ℕ → MqTimingPlanReceiverWorker → MqTimingPlanReceiverWorker × Bool
is_newer_transport_message instance_id sequence w =
    if not w.has_transport_position || not (instance_id == w.publisher_instance_id)
    then (
      record w {
        has_transport_position = true;
        publisher_instance_id = instance_id;
        last_sequence_number = sequence;
      },
      true,
    )
    else if leb sequence w.last_sequence_number
    then (w, false)
    else (record w { last_sequence_number = sequence }, true)

-- One round of the receive loop: the thread is told to stop, the clock fails, mq_timedreceive()
-- fails, or it gives a number of bytes and the message that they are.
pub data Round : Type 0 where
  stop_seen clock_failed : Round
  receive_failed : Errno → Round
  received : ℕ → TimingPlanMessage → Round

-- The end of the loop: an error, or the newest message, if any.
pub data LoopEnd : Type 0 where
  broken : LoopEnd
  drained : Option TimingPlanMessage → LoopEnd

-- A message that arrived, and the newest one from then on.
abbrev pub accept_message :
    ℕ
    → TimingPlanMessage
    → MqTimingPlanReceiverWorker
    → Option TimingPlanMessage
    → MqTimingPlanReceiverWorker × Option TimingPlanMessage
accept_message bytes m w newest =
    if not (bytes == timing_plan_queue_message_size)
    then (w, newest)
    else if not (has_valid_timing_plan_envelope m)
    then (w, newest)
    else let (w', newer) = is_newer_transport_message m.publisher_instance_id m.sequence_number w in
      if not newer then (w', newest) else (w', some m)

-- `none`: the list of events ends before the loop does.
unfoldable pub receive_loop :
    List Round
    → MqTimingPlanReceiverWorker
    → Option TimingPlanMessage
    → Option (MqTimingPlanReceiverWorker × LoopEnd)
receive_loop [] w newest = none
receive_loop (stop_seen ∷ later) w newest = some (w, drained newest)
receive_loop (clock_failed ∷ later) w newest = some (w, broken)
receive_loop (receive_failed e ∷ later) w newest =
    if is_etimedout e || is_eintr e || is_eagain e
    then some (w, drained newest)
    else some (w, broken)
receive_loop (received bytes m ∷ later) w newest =
    let (w', newest') = accept_message bytes m w newest in receive_loop later w' newest'

-- The result of the call, with the worker and the channel afterwards.
pub record Processed : Type 0 where
  pub worker : MqTimingPlanReceiverWorker
  pub channel : SyncChannel
  pub success : Bool

abbrev pub after_loop :
    Option Timespec → SyncChannel → MqTimingPlanReceiverWorker → LoopEnd → Processed
after_loop clock ch w broken = record { worker = w; channel = ch; success = false }
after_loop clock ch w (drained none) = record { worker = w; channel = ch; success = true }
after_loop clock ch w (drained (some m)) = record {
  worker = w;
  channel = (receive_plan clock (decode_plan m) ch).0;
  success = true;
}

unfoldable pub receive_and_process_newest :
    List Round → Option Timespec → MqTimingPlanReceiverWorker → SyncChannel → Option Processed
receive_and_process_newest rounds clock w ch = elim (receive_loop rounds w none) [
  | none ↦ none
  | some r ↦ some (after_loop clock ch r.0 r.1)
]
