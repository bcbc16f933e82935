-- ===== src/Decision/PeriodicService.antt =====
-- traffic_timing_decision/src/periodic_service.cpp: start, stop and one decision cycle. The health
-- monitor, the queues and the clocks are arguments.
pub mod Cycle
pub mod Startup
pub mod Opened
pub mod Tests
use adaptive_traffic_light.Prelude.{
  ℕ, ◌+◌, Bool, true, false, ◌&&◌, not, if◌then◌else◌, leb, Option, none, some, u32,
}
use adaptive_traffic_light.Ipc.Messages.{TimingPlan, TrafficSnapshot}
use adaptive_traffic_light.Ipc.PlanMessage.{TimingPlanMessage}
use adaptive_traffic_light.Ipc.QueueStatus.{QueueStatus, is_success}
use adaptive_traffic_light.Ipc.LatestValue
use adaptive_traffic_light.Decision.Receiver
use adaptive_traffic_light.Decision.Publisher
use adaptive_traffic_light.Decision.Float.{FloatOps}
use adaptive_traffic_light.Decision.Engine.{DecisionEngine, process_traffic_metrics}
use adaptive_traffic_light.Decision.Receiver.{
  TrafficDataReceiver, validate_snapshot, request_snapshot,
}
use adaptive_traffic_light.Decision.Publisher.{
  TimingPlanPublisher, SendEnv, Sent, publish_timing_plan, retry_pending_timing_plan,
}

pub record PeriodicService (F : Type 0) : Type 0 where
  pub running : Bool
  pub consecutive_snapshot_misses : ℕ
  pub traffic_receiver : TrafficDataReceiver F
  pub decision_engine : DecisionEngine F
  pub timing_publisher : TimingPlanPublisher
  pub health_running : Bool

abbrev pub maximum_consecutive_snapshot_misses : ℕ
maximum_consecutive_snapshot_misses = 24

-- What the three starts get, and the size of a snapshot.
pub record StartEnv : Type 0 where
  pub snapshot_size : ℕ
  pub snapshot_open : LatestValue.OpenEnv
  pub plan_open : Publisher.OpenEnv
  pub health_initialized : Bool

unfoldable pub initialize : {F : Type 0} → StartEnv → PeriodicService F → PeriodicService F × Bool
initialize env p =
    if p.running
    then (p, true)
    else (let (r, opened) =
          Receiver.initialize env.snapshot_size env.snapshot_open p.traffic_receiver in
        if not opened
        then (record p { traffic_receiver = r }, false)
        else (let (t, connected) = Publisher.initialize env.plan_open p.timing_publisher in
            if not connected
            then (record p { traffic_receiver = Receiver.shutdown r; timing_publisher = t }, false)
            else if not env.health_initialized
            then (
              record p {
                traffic_receiver = Receiver.shutdown r;
                timing_publisher = Publisher.shutdown t;
              },
              false,
            )
            else (
              record p {
                traffic_receiver = r;
                timing_publisher = t;
                health_running = true;
                consecutive_snapshot_misses = 0;
                running = true;
              },
              true,
            )))

unfoldable pub shutdown : {F : Type 0} → PeriodicService F → PeriodicService F
shutdown p = if not p.running then p else record p {
  health_running = false;
  timing_publisher = Publisher.shutdown p.timing_publisher;
  traffic_receiver = Receiver.shutdown p.traffic_receiver;
  running = false;
}

-- What startDecisionCycle() of the health monitor and receiveLatest() of the queue return, the
-- snapshot that the queue gives, the three readings of the clock, and the results of sending.
pub record CycleEnv (F : Type 0) : Type 0 where
  pub health_started : Bool
  pub status : QueueStatus
  pub snapshot : TrafficSnapshot F
  pub rx_ns : ℕ
  pub validated_ns : ℕ
  pub decided_ns : ℕ
  pub send : SendEnv

-- The service afterwards, the result, and the message that went into the queue.
pub record Cycled (F : Type 0) : Type 0 where
  pub service : PeriodicService F
  pub successful : Bool
  pub delivered : Option TimingPlanMessage

-- The end of the cycle: the publisher's answer, and the test of the misses.
abbrev pub finish_cycle : {F : Type 0} → PeriodicService F → Sent → Cycled F
finish_cycle p sent =
    let p' = record p { timing_publisher = sent.publisher } in
    record {
      service = p';
      successful =
          if leb maximum_consecutive_snapshot_misses p.consecutive_snapshot_misses
          then false
          else sent.success;
      delivered = sent.delivered;
    }

-- No snapshot, or one that is rejected: the last plan is sent again if it is still pending.
abbrev pub miss_cycle : {F : Type 0} → SendEnv → PeriodicService F → Cycled F
miss_cycle env p =
    finish_cycle
      (record p { consecutive_snapshot_misses = u32 (p.consecutive_snapshot_misses + 1) })
      (retry_pending_timing_plan env p.timing_publisher)

-- The plan as it is sent: with the times at which the snapshot was received and published.
abbrev pub stamped : {F : Type 0} → CycleEnv F → TimingPlan → TimingPlan
stamped env plan = record plan {
  generation_timestamp_ns = env.rx_ns;
  perception_publish_timestamp_us = env.snapshot.timestamp_us;
}

module _ (ops : FloatOps) where
  open ops use {F}

  abbrev pub decide_cycle : CycleEnv F → PeriodicService F → Cycled F
  decide_cycle env p =
      let engine = process_traffic_metrics ops env.decided_ns env.snapshot p.decision_engine in
      finish_cycle (record p { consecutive_snapshot_misses = 0; decision_engine = engine })
        (publish_timing_plan env.send (stamped env engine.previous_plan) p.timing_publisher)

  unfoldable pub run_decision_cycle : CycleEnv F → PeriodicService F → Cycled F
  run_decision_cycle env p =
      if not p.running
      then record { service = p; successful = false; delivered = none }
      else if not env.health_started
      then record { service = p; successful = false; delivered = none }
      else let (r, got) = request_snapshot ops env.status p.traffic_receiver in
        if not got
        then miss_cycle env.send (record p { traffic_receiver = r })
        else let (r', valid) = validate_snapshot ops env.validated_ns env.snapshot r in
          if not valid
          then miss_cycle env.send (record p { traffic_receiver = r' })
          else decide_cycle env (record p { traffic_receiver = r' })
