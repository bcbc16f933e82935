-- ===== src/Decision/Receiver.antt =====
-- traffic_timing_decision/src/traffic_data_receiver.cpp: which snapshots the decision process
-- works on. The queue's result and the clock are arguments.
pub mod Watermark
use adaptive_traffic_light.Prelude.{
  ℕ, ◌+◌, ◌/◌, Bool, true, false, ◌&&◌, not, if◌then◌else◌, ltb, leb, ◌==◌, u64,
}
use adaptive_traffic_light.Ipc.Messages.{TrafficSnapshot}
use adaptive_traffic_light.Ipc.QueueStatus.{QueueStatus, is_success}
use adaptive_traffic_light.Ipc.LatestValue.{
  LatestValueConsumer, OpenEnv, open_consumer, close_consumer,
}
use adaptive_traffic_light.Decision.Float.{FloatOps}

pub record TrafficDataReceiver (F : Type 0) : Type 0 where
  pub snapshot_queue : LatestValueConsumer
  pub last_status : QueueStatus
  pub latest_snapshot : TrafficSnapshot F
  pub previous_snapshot : TrafficSnapshot F

-- `size` is sizeof(TrafficSnapshot).
unfoldable pub initialize :
    {F : Type 0} → ℕ → OpenEnv → TrafficDataReceiver F → TrafficDataReceiver F × Bool
initialize size env r =
    let (status, k) = open_consumer size env r.snapshot_queue in
    (record r { snapshot_queue = k; last_status = status }, is_success status)

abbrev pub shutdown : {F : Type 0} → TrafficDataReceiver F → TrafficDataReceiver F
shutdown r = record r { snapshot_queue = close_consumer r.snapshot_queue }

abbrev pub maximum_future_tolerance_us : ℕ
maximum_future_tolerance_us = 100000

abbrev pub maximum_age_us : ℕ
maximum_age_us = 6000000

abbrev pub maximum_vehicles_per_direction : ℕ
maximum_vehicles_per_direction = 10000

abbrev pub is_timestamp_valid : ℕ → ℕ → Bool
is_timestamp_valid now_us timestamp_us =
    not (timestamp_us == 0)
    && leb timestamp_us (u64 (now_us + maximum_future_tolerance_us))
    && leb now_us (u64 (timestamp_us + maximum_age_us))

module _ (ops : FloatOps) where
  open ops use {F, at_most, is_finite, decimal}

  abbrev pub valid_queue_length : F → Bool
  valid_queue_length value =
      is_finite value && at_most (decimal 0 1) value && at_most value (decimal 10000 1)

  abbrev pub valid_occupancy : F → Bool
  valid_occupancy value =
      is_finite value && at_most (decimal 0 1) value && at_most value (decimal 10 1)

  abbrev pub are_metrics_valid : TrafficSnapshot F → Bool
  are_metrics_valid s =
      (leb s.vehicle_count_north maximum_vehicles_per_direction
        && leb s.vehicle_count_south maximum_vehicles_per_direction
        && leb s.vehicle_count_east maximum_vehicles_per_direction
        && leb s.vehicle_count_west maximum_vehicles_per_direction)
      && (valid_queue_length s.queue_length_north
          && valid_queue_length s.queue_length_south
          && valid_queue_length s.queue_length_east
          && valid_queue_length s.queue_length_west)
      && (valid_occupancy s.occupancy_north
          && valid_occupancy s.occupancy_south
          && valid_occupancy s.occupancy_east
          && valid_occupancy s.occupancy_west)

  -- The receiver afterwards, and whether the snapshot is accepted.
  unfoldable pub validate_snapshot :
      ℕ → TrafficSnapshot F → TrafficDataReceiver F → TrafficDataReceiver F × Bool
  validate_snapshot now_ns s r =
      let valid =
        (not (s.frame_id == 0) && ltb r.previous_snapshot.frame_id s.frame_id)
        && is_timestamp_valid (now_ns / 1000) s.timestamp_us
        && are_metrics_valid s in
      if valid then (record r { latest_snapshot = s; previous_snapshot = s }, true) else (r, false)

  -- The result of the queue's receiveLatest(), kept as the last status.
  abbrev pub request_snapshot : QueueStatus → TrafficDataReceiver F → TrafficDataReceiver F × Bool
  request_snapshot status r = (record r { last_status = status }, is_success status)
