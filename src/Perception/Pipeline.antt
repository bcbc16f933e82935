-- ===== src/Perception/Pipeline.antt =====
-- traffic_perception/src/pipeline/pipeline_manager.cpp, src/pipeline/snapshot_publisher.cpp and
-- src/io/snapshot_sender.cpp: a cycle of the pipeline, up to the message queue. The times of the
-- clocks are arguments, and the log is left out.
pub mod Emergency
use adaptive_traffic_light.Prelude.{
  ℕ, zero, suc, ◌+◌, Bool, true, false, not, if◌then◌else◌, ltb, Option, none, some, List, [], ◌∷◌,
}
use adaptive_traffic_light.Ipc.Errno.{MqAttr}
use adaptive_traffic_light.Ipc.Messages.{TrafficSnapshot}
use adaptive_traffic_light.Ipc.QueueStatus.{QueueStatus, success, deferred, is_success}
use adaptive_traffic_light.Ipc.LatestValue.{
  Channel, LatestValuePublisher, OpenEnv, open_owned, close, publish,
}
use adaptive_traffic_light.Perception.Frames.{Frame, TimelineStage}
use adaptive_traffic_light.Perception.Vision.{Roi, Detection, VisionOps}
use adaptive_traffic_light.Perception.Analyzer.{build_traffic_snapshot}
use adaptive_traffic_light.Perception.InferenceEngine.{Pipe, run_one_cycle}

-- A count that is not positive is sent as 0; the counts here have no sign.
abbrev pub to_wire_count : ℕ → ℕ
to_wire_count count = if ltb 0 count then count else 0

-- The wire has the time of the monotonic clock, not that of the snapshot.
unfoldable pub to_wire_snapshot : {F : Type 0} → ℕ → TrafficSnapshot F → TrafficSnapshot F
to_wire_snapshot now_us source = record source {
  frame_id = if ltb 0 source.frame_id then source.frame_id else 0;
  timestamp_us = now_us;
  vehicle_count_north = to_wire_count source.vehicle_count_north;
  vehicle_count_south = to_wire_count source.vehicle_count_south;
  vehicle_count_east = to_wire_count source.vehicle_count_east;
  vehicle_count_west = to_wire_count source.vehicle_count_west;
}

-- MQSnapshotSender.
pub record SnapshotSender (F : Type 0) : Type 0 where
  pub publisher : LatestValuePublisher (TrafficSnapshot F)
  pub is_open : Bool

unfoldable pub open_sender : {F : Type 0} → ℕ → OpenEnv → SnapshotSender F → Bool × SnapshotSender F
open_sender size env s =
    if s.is_open
    then (true, s)
    else (let (status, p) = open_owned size env s.publisher in
        if is_success status
        then (true, record { publisher = p; is_open = true })
        else (false, record s { publisher = p }))

abbrev pub close_sender : {F : Type 0} → SnapshotSender F → SnapshotSender F
close_sender s = if s.is_open then record { publisher = close s.publisher; is_open = false } else s

-- What send() makes of the status of publish().
abbrev pub is_sent : QueueStatus → Bool
is_sent success = true
is_sent deferred = true
is_sent _ = false

module _ {F : Type 0} (c : Channel (TrafficSnapshot F)) where
  open c use {World}

  unfoldable pub send :
      ℕ → TrafficSnapshot F → SnapshotSender F → World → Bool × SnapshotSender F × World
  send now_us snapshot s w =
      if not s.is_open
      then (false, s, w)
      else (let (status, p, v) = publish c (to_wire_snapshot now_us snapshot) s.publisher w in
          (is_sent status, record s { publisher = p }, v))

  -- `none`: no sender was given to the publisher.
  unfoldable pub broadcast_snapshot :
      ℕ
      → TrafficSnapshot F
      → Option (SnapshotSender F)
      → World
      → Bool × Option (SnapshotSender F) × World
  broadcast_snapshot now_us snapshot none w = (false, none, w)
  broadcast_snapshot now_us snapshot (some s) w =
      let (sent, t, v) = send now_us snapshot s w in (sent, some t, v)

pub record PipelineManager (F : Type 0) : Type 0 where
  pub pipe : Pipe F
  pub sender : Option (SnapshotSender F)

-- The clocks of a cycle.
pub record CycleClock : Type 0 where
  pub stages : ℕ → TimelineStage → ℕ
  pub built_us : ℕ
  pub sent_us : ℕ

module _ (ops : VisionOps) (c : Channel (TrafficSnapshot ops.F))
    (infer : ℕ → Frame → List (Detection ops.F)) (lane_rois : List Roi) where
  open ops use {F}
  open c use {World}

  unfoldable pub pipeline_cycle : CycleClock → PipelineManager F → World → PipelineManager F × World
  pipeline_cycle clock m w =
      let p = run_one_cycle ops infer lane_rois clock.stages m.pipe in
      let (snapshot, a) = build_traffic_snapshot ops clock.built_us p.analyzer in
      let (sent, s, v) = broadcast_snapshot c clock.sent_us snapshot m.sender w in
      (record { pipe = record p { analyzer = a }; sender = s }, v)

  -- The loop of run(), as long as `running_` is seen true.
  unfoldable pub pipeline_loop :
      List CycleClock → PipelineManager F → World → PipelineManager F × World
  pipeline_loop [] m w = (m, w)
  pipeline_loop (clock ∷ clocks) m w =
      let (n, v) = pipeline_cycle clock m w in pipeline_loop clocks n v
