-- ===== src/Decision/PeriodicService/Opened.antt =====
-- periodic_service.cpp, runDecisionCycle: a service that is open stays open.
use adaptive_traffic_light.Prelude.{
  ℕ, ◌/◌, ◌&&◌, ◌==◌, ltb, ap, ◌∙◌, ◌≡◌, refl, Bool, not, if-elim, arith,
}
use adaptive_traffic_light.Decision.Float.{FloatOps}
use adaptive_traffic_light.Decision.Publisher.{
  SendEnv, TimingPlanPublisher, publish_timing_plan, retry_pending_timing_plan, make_message,
  try_send_pending,
}
use adaptive_traffic_light.Decision.Receiver.{
  TrafficDataReceiver, validate_snapshot, is_timestamp_valid, are_metrics_valid,
}
use adaptive_traffic_light.Ipc.QueueStatus.{is_success}
use adaptive_traffic_light.Ipc.Messages.{TimingPlan, TrafficSnapshot}
use adaptive_traffic_light.Ipc.LatestValue.{is_open}
use adaptive_traffic_light.Decision.PeriodicService
use adaptive_traffic_light.Decision.PeriodicService.{PeriodicService, run_decision_cycle, shutdown}
use adaptive_traffic_light.Decision.PeriodicService.Startup.{IsOpened}

publish-is_open :
    (env : SendEnv) (plan : TimingPlan) (p : TimingPlanPublisher)
    → (publish_timing_plan env plan p).publisher.is_open ≡ p.is_open
unfolding publish_timing_plan make_message try_send_pending
publish-is_open env plan p = ground arith

retry-is_open :
    (env : SendEnv) (p : TimingPlanPublisher)
    → (retry_pending_timing_plan env p).publisher.is_open ≡ p.is_open
unfolding retry_pending_timing_plan try_send_pending
retry-is_open env p = ground arith

module _ (ops : FloatOps) where
  open ops use {F}

  -- The parts that a cycle may replace, with the service as open as it was.
  replaced :
      (p q : PeriodicService F)
      → IsOpened p
      → q.running ≡ p.running
      → q.traffic_receiver.snapshot_queue ≡ p.traffic_receiver.snapshot_queue
      → q.timing_publisher.is_open ≡ p.timing_publisher.is_open
      → q.health_running ≡ p.health_running
      → IsOpened q
  replaced p q o r t m h = record {
    running = r ∙ o.running;
    receiving = ap is_open t ∙ o.receiving;
    publishing = m ∙ o.publishing;
    health = h ∙ o.health;
  }

  validate_snapshot-queue :
      (now : ℕ) (s : TrafficSnapshot F) (r : TrafficDataReceiver F)
      → (validate_snapshot ops now s r).0.snapshot_queue ≡ r.snapshot_queue
  unfolding validate_snapshot
  validate_snapshot-queue now s r =
      if-elim (λ (v : TrafficDataReceiver F × Bool). v.0.snapshot_queue ≡ r.snapshot_queue)
        ((not (s.frame_id == 0) && ltb r.previous_snapshot.frame_id s.frame_id)
          && is_timestamp_valid (now / 1000) s.timestamp_us
          && are_metrics_valid ops s)
        (λ _. refl) (λ _. refl)

  pub run_decision_cycle-IsOpened :
      (env : PeriodicService.CycleEnv F) (p : PeriodicService F)
      → IsOpened p
      → IsOpened (run_decision_cycle ops env p).service
  unfolding run_decision_cycle
  run_decision_cycle-IsOpened env p o =
      if-elim P (not p.running) (λ _. o)
        (λ _.
          if-elim P (not env.health_started) (λ _. o)
            (λ _.
              if-elim P (not (is_success env.status))
                (λ _. missed (record p.traffic_receiver { last_status = env.status }) refl)
                (λ _.
                  if-elim P (not checked.1) (λ _. missed checked.0 queue)
                    (λ _. replaced p _ o refl queue (publish-is_open _ _ _) refl))))
    where
      P : PeriodicService.Cycled F → Type 0
      P c = IsOpened c.service

      checked : TrafficDataReceiver F × Bool
      checked =
          validate_snapshot ops env.validated_ns env.snapshot
            (record p.traffic_receiver { last_status = env.status })

      queue : checked.0.snapshot_queue ≡ p.traffic_receiver.snapshot_queue
      queue = validate_snapshot-queue env.validated_ns env.snapshot _

      missed :
          (r : TrafficDataReceiver F)
          → r.snapshot_queue ≡ p.traffic_receiver.snapshot_queue
          → P (PeriodicService.miss_cycle env.send (record p { traffic_receiver = r }))
      missed r e = replaced p _ o refl e (retry-is_open _ _) refl
