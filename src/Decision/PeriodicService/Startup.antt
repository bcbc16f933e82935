-- ===== src/Decision/PeriodicService/Startup.antt =====
-- periodic_service.cpp, initialize() and shutdown(): the parts are open together, or none is.
use adaptive_traffic_light.Prelude.{ℕ, ◌≡◌, ◌⊎◌, Bool, true, false, arith}
use adaptive_traffic_light.Ipc.LatestValue.{open_consumer, OpenEnv, LatestValueConsumer, is_open}
use adaptive_traffic_light.Ipc.QueueStatus.{is_success}
use adaptive_traffic_light.Decision.Publisher
use adaptive_traffic_light.Decision.Receiver
use adaptive_traffic_light.Decision.PeriodicService.{
  PeriodicService, StartEnv, initialize, shutdown,
}

-- The queue of the snapshots is open afterwards exactly if that is reported.
receiver_opened :
    (size : ℕ) (env : OpenEnv) (k : LatestValueConsumer)
    → let (s, l) = open_consumer size env k in is_open l ≡ is_success s
unfolding open_consumer
receiver_opened size env k = ground arith

publisher_opened :
    (env : Publisher.OpenEnv) (p : Publisher.TimingPlanPublisher)
    → let (q, ok) = Publisher.initialize env p in q.is_open ≡ ok
unfolding Publisher.initialize Publisher.validate_queue_contract
publisher_opened env p = ground arith

module _ {F : Type 0} where
  -- All parts are open and the service runs.
  pub record IsOpened (p : PeriodicService F) : Type 0 where
    pub running : p.running ≡ true
    pub receiving : is_open p.traffic_receiver.snapshot_queue ≡ true
    pub publishing : p.timing_publisher.is_open ≡ true
    pub health : p.health_running ≡ true

  pub record IsClosed (p : PeriodicService F) : Type 0 where
    pub stopped : p.running ≡ false
    pub receiving : is_open p.traffic_receiver.snapshot_queue ≡ false
    pub publishing : p.timing_publisher.is_open ≡ false
    pub health : p.health_running ≡ false

  abbrev pub Outcome : PeriodicService F × Bool → Type 0
  Outcome (p, true) = IsOpened p
  Outcome (p, false) = IsClosed p

  -- initialize() of a service that is closed: with `true`, the snapshot queue, the plan queue and
  -- the health reporter are all open and the service runs; with `false`, whichever start failed, none
  -- of the three is open and the service does not run.
  pub initialize-Outcome :
      (env : StartEnv) (p : PeriodicService F) → IsClosed p → Outcome (initialize env p)
  unfolding initialize Receiver.initialize
  initialize-Outcome env p d = ground (
    arith,
    receiver_opened env.snapshot_size env.snapshot_open p.traffic_receiver.snapshot_queue,
    publisher_opened env.plan_open p.timing_publisher,
  )

  -- shutdown() of a service that is open closes all of them; one that is closed stays as it is.
  pub shutdown-IsClosed : (p : PeriodicService F) → IsOpened p ⊎ IsClosed p → IsClosed (shutdown p)
  unfolding shutdown
  shutdown-IsClosed p h = ground (arith, h)
